-- ===== src/Approval/Interface.antt =====
-- The interface `ApprovalStore` of approval.ts, and the contract that its clients rely on.
use dymaxion.Prelude.{
  ℕ, ◌≡◌, Text, text, text_eq, ltb, leb, Option, none, some, is_none, bind, or_else, option_text_eq,
  Bool, true, false, ◌&&◌, if◌then◌else◌, Result, ok, err,
}
use dymaxion.Approval.Types.{
  ApprovalDecision, approved, rejected, expired, Verdict, approve, reject, ApprovalRecord,
  ApprovalDraft, ApprovalBinding,
}

pub data StoreError : Type 0 where
  already_exists unknown_agent_run : StoreError

-- The methods; each returns the state that it leaves. `get` changes nothing.
pub record ApprovalStore (S : Type 0) : Type 0 where
  pub create : ApprovalDraft → S → Result StoreError ApprovalRecord × S
  pub get : Text → S → Option ApprovalRecord
  pub decide_atomic : Text → Verdict → Text → ℕ → S → Option ApprovalRecord × S
  pub expire_atomic : Text → ℕ → S → Option ApprovalRecord × S
  pub consume_atomic : Text → ApprovalBinding → ℕ → S → Option ApprovalRecord × S

abbrev pub verdict_decision : Verdict → ApprovalDecision
verdict_decision approve = approved
verdict_decision reject = rejected

abbrev pub is_approved : Option ApprovalDecision → Bool
is_approved (some approved) = true
is_approved _ = false

-- What each call promises to do with the one record that it names; `none` leaves it alone.
unfoldable pub fresh : ApprovalDraft → ApprovalRecord
fresh d = record {
  id = d.id;
  agent_run_id = d.agent_run_id;
  step_description = d.step_description;
  payload = d.payload;
  payload_hash = d.payload_hash;
  target = d.target;
  credential_identity = some d.credential_identity;
  requested_at = d.requested_at;
  expires_at = d.expires_at;
  decision = none;
  decided_by = none;
  responded_at = none;
  consumed_at = none;
}

unfoldable pub decided : Verdict → Text → ℕ → ApprovalRecord → Option ApprovalRecord
decided v by now r =
    if is_none r.decision && ltb now r.expires_at
    then some (record r {
      decision = some (verdict_decision v);
      decided_by = some by;
      responded_at = some now;
    })
    else none

unfoldable pub timed_out : ℕ → ApprovalRecord → Option ApprovalRecord
timed_out now r =
    if is_none r.decision && leb r.expires_at now
    then some (record r {
      decision = some expired;
      decided_by = some (text "system");
      responded_at = some now;
    })
    else none

pub matches : ApprovalBinding → ApprovalRecord → Bool
matches b r =
    text_eq r.agent_run_id b.agent_run_id
    && text_eq r.payload_hash b.payload_hash
    && text_eq r.target b.target
    && option_text_eq r.credential_identity (some b.credential_identity)

unfoldable pub consumed : ApprovalBinding → ℕ → ApprovalRecord → Option ApprovalRecord
unfolding matches
consumed b now r =
    if is_approved r.decision && is_none r.consumed_at && ltb now r.expires_at && matches b r
    then some (record r { consumed_at = some now })
    else none

-- The records by their identifiers, with the order and the audit log forgotten.
abbrev pub Book : Type 0
Book = Text → Option ApprovalRecord

-- The call changed the record named `k` by `f`, or nothing, and returned the changed record.
unfoldable pub revise : Text → (ApprovalRecord → Option ApprovalRecord) → Book → Book
revise k f b j = if text_eq k j then or_else (bind (b k) f) (b k) else b j

pub record StoreLaws {S : Type 0} (store : ApprovalStore S) : Type 1 where
  pub view : S → Book
  pub IsValid : S → Type 0
  pub view-get : (k : Text) (s : S) → store.get k s ≡ view s k
  pub create_fails :
      (d : ApprovalDraft) (s : S) {e : StoreError}
      → (store.create d s).0 ≡ err e
      → (store.create d s).1 ≡ s
  pub create_adds :
      (d : ApprovalDraft) (s : S) {r : ApprovalRecord}
      → IsValid s
      → (store.create d s).0 ≡ ok r
      → (view s d.id ≡ none)
        × (r ≡ fresh d)
        × ((j : Text)
            → view (store.create d s).1 j ≡ (if text_eq d.id j then some (fresh d) else view s j))
        × IsValid (store.create d s).1
  pub decide_revises :
      (k : Text) (v : Verdict) (by : Text) (now : ℕ) (s : S)
      → IsValid s
      → ((store.decide_atomic k v by now s).0 ≡ bind (view s k) (decided v by now))
        × ((j : Text)
            → view (store.decide_atomic k v by now s).1 j ≡ revise k (decided v by now) (view s) j)
        × IsValid (store.decide_atomic k v by now s).1
  pub expire_revises :
      (k : Text) (now : ℕ) (s : S)
      → IsValid s
      → ((store.expire_atomic k now s).0 ≡ bind (view s k) (timed_out now))
        × ((j : Text)
            → view (store.expire_atomic k now s).1 j ≡ revise k (timed_out now) (view s) j)
        × IsValid (store.expire_atomic k now s).1
  pub consume_revises :
      (k : Text) (b : ApprovalBinding) (now : ℕ) (s : S)
      → IsValid s
      → ((store.consume_atomic k b now s).0 ≡ bind (view s k) (consumed b now))
        × ((j : Text)
            → view (store.consume_atomic k b now s).1 j ≡ revise k (consumed b now) (view s) j)
        × IsValid (store.consume_atomic k b now s).1
