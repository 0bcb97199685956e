-- ===== src/Approval/Memory.antt =====
-- `InMemoryApprovalStore` of approval.ts: a Map of records, cloned on the way out. A method that
-- changes a record in place replaces the Map's value.
pub mod Laws
use dymaxion.Prelude.{
  ℕ, Text, text, text_eq, ltb, leb, Option, none, some, is_none, option_text_eq, Bool, true, false,
  not, ◌||◌, if◌then◌else◌, List, [], ◌∷◌, Result, ok, err, arith,
}
use dymaxion.Approval.Types.{
  ApprovalDecision, approved, rejected, expired, Verdict, approve, reject, ApprovalRecord,
  ApprovalDraft, ApprovalBinding,
}
use dymaxion.Approval.Interface.{
  ApprovalStore, StoreError, already_exists, verdict_decision, is_approved, fresh,
}

abbrev pub Records : Type 0
Records = List (Text × ApprovalRecord)

-- `this.records.get(id)`
unfoldable pub find : Text → Records → Option ApprovalRecord
find k [] = none
find k ((j, r) ∷ m) = if text_eq j k then some r else find k m

-- `this.records.set(id, record)`: a new key goes last.
unfoldable pub put : Text → ApprovalRecord → Records → Records
put k r [] = (k, r) ∷ []
put k r ((j, q) ∷ m) = if text_eq j k then (k, r) ∷ m else (j, q) ∷ put k r m

unfoldable pub create : ApprovalDraft → Records → Result StoreError ApprovalRecord × Records
create d m = elim (find d.id m) [
  | some r ↦ (err already_exists, m)
  | none ↦ (ok (fresh d), put d.id (fresh d) m)
]

abbrev refuse_decision : ℕ → ApprovalRecord → Bool
refuse_decision now r = not (is_none r.decision) || leb r.expires_at now

unfoldable pub decide_atomic : Text → Verdict → Text → ℕ → Records → Option ApprovalRecord × Records
decide_atomic k v by now m = elim (find k m) [
  | none ↦ (none, m)
  | some r ↦
      let r' = record r {
        decision = some (verdict_decision v);
        decided_by = some by;
        responded_at = some now;
      } in
      if refuse_decision now r then (none, m) else (some r', put k r' m)
]

abbrev refuse_expiry : ℕ → ApprovalRecord → Bool
refuse_expiry now r = not (is_none r.decision) || ltb now r.expires_at

unfoldable pub expire_atomic : Text → ℕ → Records → Option ApprovalRecord × Records
expire_atomic k now m = elim (find k m) [
  | none ↦ (none, m)
  | some r ↦
      let r' = record r {
        decision = some expired;
        decided_by = some (text "system");
        responded_at = some now;
      } in
      if refuse_expiry now r then (none, m) else (some r', put k r' m)
]

abbrev refuse_consumption : ApprovalBinding → ℕ → ApprovalRecord → Bool
refuse_consumption b now r =
    not (text_eq r.agent_run_id b.agent_run_id)
    || not (is_approved r.decision)
    || not (is_none r.consumed_at)
    || leb r.expires_at now
    || not (text_eq r.payload_hash b.payload_hash)
    || not (text_eq r.target b.target)
    || not (option_text_eq r.credential_identity (some b.credential_identity))

unfoldable pub consume_atomic :
    Text → ApprovalBinding → ℕ → Records → Option ApprovalRecord × Records
consume_atomic k b now m = elim (find k m) [
  | none ↦ (none, m)
  | some r ↦
      let r' = record r { consumed_at = some now } in
      if refuse_consumption b now r then (none, m) else (some r', put k r' m)
]

abbrev pub memory_store : ApprovalStore Records
memory_store = record {
  create = create;
  get = find;
  decide_atomic = decide_atomic;
  expire_atomic = expire_atomic;
  consume_atomic = consume_atomic;
}
