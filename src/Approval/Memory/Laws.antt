-- ===== src/Approval/Memory/Laws.antt =====
-- The in-memory store keeps the contract of `StoreLaws`.
use dymaxion.Prelude.{
  ℕ, ◌≡◌, refl, Text, text_eq, text_eq_iff, Option, none, some, bind, if◌then◌else◌, [], ◌∷◌, ok,
  err, arith,
}
use dymaxion.Approval.Types.{ApprovalRecord, ApprovalDraft, Verdict, ApprovalBinding}
use dymaxion.Approval.Interface.{
  StoreLaws, StoreError, already_exists, fresh, decided, timed_out, consumed, revise,
}
use dymaxion.Approval.Memory.{
  Records, find, put, create, decide_atomic, expire_atomic, consume_atomic, memory_store,
}

pub find-put :
    (k j : Text) (r : ApprovalRecord) (m : Records)
    → find j (put k r m) ≡ (if text_eq k j then some r else find j m)
unfolding find put
find-put k j r [] = refl
find-put k j r ((i, q) ∷ m) =
    ground (arith, text_eq_iff k j, text_eq_iff i k, text_eq_iff i j, find-put k j r m)

-- How a method changes the record that it names.
abbrev pub Revised :
    Text
    → (ApprovalRecord → Option ApprovalRecord)
    → Records
    → Option ApprovalRecord × Records
    → Type 0
Revised k f m p =
    (p.0 ≡ bind (find k m) f) × ((j : Text) → find j p.1 ≡ revise k f (λ i. find i m) j) × Unit {0}

pub decide_atomic-Revised :
    (k : Text) (v : Verdict) (by : Text) (now : ℕ) (m : Records)
    → Revised k (decided v by now) m (decide_atomic k v by now m)
unfolding decide_atomic decided revise
decide_atomic-Revised k v by now m =
    (ground arith, λ j. grind (arith, find-put, text_eq_iff k j), tt)

pub expire_atomic-Revised :
    (k : Text) (now : ℕ) (m : Records) → Revised k (timed_out now) m (expire_atomic k now m)
unfolding expire_atomic timed_out revise
expire_atomic-Revised k now m = (ground arith, λ j. grind (arith, find-put, text_eq_iff k j), tt)

pub consume_atomic-Revised :
    (k : Text) (b : ApprovalBinding) (now : ℕ) (m : Records)
    → Revised k (consumed b now) m (consume_atomic k b now m)
unfolding consume_atomic consumed revise
consume_atomic-Revised k b now m = (ground arith, λ j. grind (arith, find-put, text_eq_iff k j), tt)

pub create_fails_memory :
    (d : ApprovalDraft) (m : Records) {e : StoreError} → (create d m).0 ≡ err e → (create d m).1 ≡ m
unfolding create
create_fails_memory d m h = ground arith

pub create_adds_memory :
    (d : ApprovalDraft) (m : Records) {r : ApprovalRecord}
    → (create d m).0 ≡ ok r
    → (find d.id m ≡ none)
      × (r ≡ fresh d)
      × ((j : Text) → find j (create d m).1 ≡ (if text_eq d.id j then some (fresh d) else find j m))
      × Unit {0}
unfolding create
create_adds_memory d m h =
    (ground arith, ground arith, λ j. ground (arith, find-put d.id j (fresh d) m), tt)

abbrev pub memory_laws : StoreLaws memory_store
memory_laws = record {
  view = λ m k. find k m;
  IsValid = λ m. Unit {0};
  view-get = λ k m. refl;
  create_fails = create_fails_memory;
  create_adds = λ d m v h. create_adds_memory d m h;
  decide_revises = λ k v by now m h. decide_atomic-Revised k v by now m;
  expire_revises = λ k now m h. expire_atomic-Revised k now m;
  consume_revises = λ k b now m h. consume_atomic-Revised k b now m;
}

pub create_new :
    (d : ApprovalDraft) (m : Records) → find d.id m ≡ none → (create d m).0 ≡ ok (fresh d)
unfolding create
create_new d m absent = ground arith

pub create_held :
    (d : ApprovalDraft) (m : Records) {r : ApprovalRecord}
    → find d.id m ≡ some r
    → (create d m).0 ≡ err already_exists
unfolding create
create_held d m held = ground arith
