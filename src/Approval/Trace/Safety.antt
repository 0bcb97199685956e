-- ===== src/Approval/Trace/Safety.antt =====
-- The safety of approvals over every sequence of calls: approval.ts's one-time consumption, and
-- decisions that are final.
use dymaxion.Prelude.{
  ◌≤◌, ◌≡◌, refl, sym, ◌∙◌, Text, text_eq_iff, text_cases, Option, some, is_none, true, false, List,
  [], ◌∷◌, arith, Option-cases, Bool-cases, inl, inr, Result, ok, err,
}
use dymaxion.Approval.Types.{ApprovalRecord}
use dymaxion.Approval.Interface.{
  ApprovalStore, StoreLaws, fresh, decided, timed_out, consumed, Book, revise,
}
use dymaxion.Approval.Trace.{
  Call, create, decide, expire, consume, step, run, is_consumption, consumptions,
}
use dymaxion.Approval.Trace.Record.{
  Evolves, IsSound, Keeps, Keeps-refl, Keeps-trans, revise-Keeps, decided-Evolves,
  timed_out-Evolves, consumed-Evolves, decided-IsSound, timed_out-IsSound, consumed-IsSound,
}
use mathlib.Core.Path.{subst}

-- `view s j` holds `r`, and what follows holds a record that keeps it.
abbrev Kept : Option ApprovalRecord → ApprovalRecord → Type 0
Kept o r = (q : ApprovalRecord) × (o ≡ some q) × Keeps r q

-- A change of one record that keeps soundness, lifted to a book.
revised-IsSound :
    (f : ApprovalRecord → Option ApprovalRecord)
    → ((r q : ApprovalRecord) → IsSound r → f r ≡ some q → IsSound q)
    → (k : Text) (b : Book) → ((j : Text) (r : ApprovalRecord) → b j ≡ some r → IsSound r)
    → (j : Text) (q : ApprovalRecord) → revise k f b j ≡ some q
    → IsSound q
unfolding revise
revised-IsSound f keeps k b sound j q h = elim (text_cases k j) [
  | inr other ↦ sound j q (ground arith)
  | inl eq ↦ elim (Option-cases (b k)) [
    | inl absent ↦ sound j q (ground (arith, text_eq_iff k j))
    | inr (r, at) ↦ elim (Option-cases (f r)) [
      | inl stays ↦ sound j q (ground (arith, text_eq_iff k j))
      | inr (p, moves) ↦
          let same : p ≡ q = ground (arith, text_eq_iff k j) in
          subst IsSound same (keeps r p (sound k r at) moves)
    ]
  ]
]

module _ {S : Type 0} (store : ApprovalStore S) (laws : StoreLaws store) where
  open laws use {
    view, IsValid, create_fails, create_adds, decide_revises, expire_revises, consume_revises,
  }

  pub step-IsValid : (c : Call) (s : S) → IsValid s → IsValid (step store c s)
  unfolding step
  step-IsValid (decide k v by now) s h = (decide_revises k v by now s h).2
  step-IsValid (expire k now) s h = (expire_revises k now s h).2
  step-IsValid (consume k b now) s h = (consume_revises k b now s h).2
  step-IsValid (create d) s h = go (store.create d s).0 refl
    where
      go : (r : Result _ ApprovalRecord) → (store.create d s).0 ≡ r → IsValid (store.create d s).1
      go (ok r) e = (create_adds d s h e).3
      go (err x) e = subst IsValid (sym (create_fails d s e)) h

  create_keeps :
      (d : _) (s : S) (j : Text) (r : ApprovalRecord)
      → IsValid s
      → view s j ≡ some r
      → Kept (view (store.create d s).1 j) r
  create_keeps d s j r h e = go (store.create d s).0 refl
    where
      go :
          (o : Result _ ApprovalRecord)
          → (store.create d s).0 ≡ o
          → Kept (view (store.create d s).1 j) r
      go (err x) f = (r, ground (arith, create_fails d s f), Keeps-refl r)
      go (ok q) f =
          let (absent, new, at, valid) = create_adds d s h f in
          (r, ground (arith, at j, text_eq_iff d.id j), Keeps-refl r)

  -- No call loses a record or changes what is final in it.
  step_keeps :
      (c : Call) (s : S) (j : Text) (r : ApprovalRecord)
      → IsValid s
      → view s j ≡ some r
      → Kept (view (step store c s) j) r
  unfolding step
  step_keeps (create d) s j r h e = create_keeps d s j r h e
  step_keeps (decide k v by now) s j r h e = rw ((decide_revises k v by now s h).1 j) (
      revise-Keeps (decided v by now)
        (λ r q m. (decided-Evolves v by now r q m, λ t. decided-IsSound v by now r q t m)) k j
        (view s) r e)
  step_keeps (expire k now) s j r h e = rw ((expire_revises k now s h).1 j) (
      revise-Keeps (timed_out now)
        (λ r q m. (timed_out-Evolves now r q m, λ t. timed_out-IsSound now r q t m)) k j (view s) r
        e)
  step_keeps (consume k b now) s j r h e = rw ((consume_revises k b now s h).1 j) (
      revise-Keeps (consumed b now)
        (λ r q m. (consumed-Evolves b now r q m, λ t. consumed-IsSound b now r q t m)) k j (view s)
        r e)

  pub run_keeps :
      (cs : List Call) (s : S) (j : Text) (r : ApprovalRecord)
      → IsValid s
      → view s j ≡ some r
      → Kept (view (run store cs s) j) r
  unfolding run
  run_keeps [] s j r h e = (r, e, Keeps-refl r)
  run_keeps (c ∷ cs) s j r h e =
      let (q, at, kept) = step_keeps c s j r h e in
      let (p, last, rest) = run_keeps cs (step store c s) j q (step-IsValid c s h) at in
      (p, last, Keeps-trans r q p kept rest)

  pub run-IsValid : (cs : List Call) (s : S) → IsValid s → IsValid (run store cs s)
  unfolding run
  run-IsValid [] s h = h
  run-IsValid (c ∷ cs) s h = run-IsValid cs (step store c s) (step-IsValid c s h)

  -- Over every sequence of store calls a record keeps its binding and expiry, and its decision,
  -- its decider and its consumption are final once they are set.
  pub run_history :
      (cs : List Call) (s : S) (j : Text) (r : ApprovalRecord)
      → IsValid s
      → view s j ≡ some r
      → (q : ApprovalRecord) × (view (run store cs s) j ≡ some q) × Evolves r q
  run_history cs s j r h e = let (q, at, kept) = run_keeps cs s j r h e in (q, at, kept.0)

  abbrev pub IsSpent : Text → S → Type 0
  IsSpent k s = (r : ApprovalRecord) × (view s k ≡ some r) × (is_none r.consumed_at ≡ false)

  step-IsSpent :
      (c : Call) (s : S) (k : Text) → IsValid s → IsSpent k s → IsSpent k (step store c s)
  step-IsSpent c s k h (r, at, spent) =
      let (q, at', kept) = step_keeps c s k r h at in
      (q, at', ground (arith, kept.0.final_consumption spent))

  spent_refuses :
      (c : Call) (s : S) (k : Text) → IsValid s → IsSpent k s → is_consumption store k c s ≡ false
  unfolding is_consumption consumed
  spent_refuses (consume j b now) s k h (r, at, spent) =
      ground (arith, (consume_revises j b now s h).0, text_eq_iff j k)
  spent_refuses (create d) s k h spent = refl
  spent_refuses (decide j v by now) s k h spent = refl
  spent_refuses (expire j now) s k h spent = refl

  consumption_spends :
      (c : Call) (s : S) (k : Text)
      → IsValid s
      → is_consumption store k c s ≡ true
      → IsSpent k (step store c s)
  unfolding is_consumption consumed revise step
  consumption_spends (consume j b now) s k h e =
      ground
        (arith, (consume_revises j b now s h).0, (consume_revises j b now s h).1 k, text_eq_iff j k)
  consumption_spends (create d) s k h e = cc
  consumption_spends (decide j v by now) s k h e = cc
  consumption_spends (expire j now) s k h e = cc

  spent_consumptions :
      (cs : List Call) (s : S) (k : Text) → IsValid s → IsSpent k s → consumptions store k cs s ≡ 0
  unfolding consumptions
  spent_consumptions [] s k h p = refl
  spent_consumptions (c ∷ cs) s k h p = rw (spent_refuses c s k h p) (
      omega (
        arith,
        spent_consumptions cs (step store c s) k (step-IsValid c s h) (step-IsSpent c s k h p),
      ))

  -- Over every sequence of store calls, by whoever and in whatever order, an approval is consumed
  -- at most once.
  pub consumed_at_most_once :
      (cs : List Call) (s : S) (k : Text) → IsValid s → consumptions store k cs s ≤ 1
  unfolding consumptions
  consumed_at_most_once [] s k h = omega arith
  consumed_at_most_once (c ∷ cs) s k h = elim (Bool-cases (is_consumption store k c s)) [
    | inl e ↦ rw e (
        omega (
          arith,
          spent_consumptions cs (step store c s) k (step-IsValid c s h)
              (consumption_spends c s k h e),
        ))
    | inr e ↦ rw e (omega (arith, consumed_at_most_once cs (step store c s) k (step-IsValid c s h)))
  ]

  abbrev pub AllSound : S → Type 0
  AllSound s = (j : Text) (r : ApprovalRecord) → view s j ≡ some r → IsSound r

  created_sound : (d : _) (s : S) → IsValid s → AllSound s → AllSound (store.create d s).1
  unfolding fresh
  created_sound d s h sound j r at = go (store.create d s).0 refl
    where
      go : (o : Result _ ApprovalRecord) → (store.create d s).0 ≡ o → IsSound r
      go (err x) f = sound j r (subst (λ t. view t j ≡ some r) (create_fails d s f) at)
      go (ok q) f = ground (arith, (create_adds d s h f).2 j, text_eq_iff d.id j, sound j r)

  step_sound : (c : Call) (s : S) → IsValid s → AllSound s → AllSound (step store c s)
  unfolding step
  step_sound (create d) s h sound j r at = created_sound d s h sound j r at
  step_sound (decide k v by now) s h sound j r at =
      revised-IsSound (decided v by now) (λ r q t m. decided-IsSound v by now r q t m) k (view s)
        sound j r (sym ((decide_revises k v by now s h).1 j) ∙ at)
  step_sound (expire k now) s h sound j r at =
      revised-IsSound (timed_out now) (λ r q t m. timed_out-IsSound now r q t m) k (view s) sound j
        r (sym ((expire_revises k now s h).1 j) ∙ at)
  step_sound (consume k b now) s h sound j r at =
      revised-IsSound (consumed b now) (λ r q t m. consumed-IsSound b now r q t m) k (view s) sound
        j r (sym ((consume_revises k b now s h).1 j) ∙ at)

  run-AllSound : (cs : List Call) (s : S) → IsValid s → AllSound s → AllSound (run store cs s)
  unfolding run
  run-AllSound [] s h sound = sound
  run-AllSound (c ∷ cs) s h sound =
      run-AllSound cs (step store c s) (step-IsValid c s h) (step_sound c s h sound)

  -- Over every sequence of store calls from sound records, such as none at all, a consumed
  -- approval was approved and was consumed before its expiry, and an approved one was approved
  -- before its expiry.
  pub run-IsSound :
      (cs : List Call) (s : S) (k : Text) (r : ApprovalRecord)
      → IsValid s
      → AllSound s
      → view (run store cs s) k ≡ some r
      → IsSound r
  run-IsSound cs s k r h sound at = run-AllSound cs s h sound k r at
