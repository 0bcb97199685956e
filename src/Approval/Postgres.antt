-- ===== src/Approval/Postgres.antt =====
-- `PostgresApprovalStore` of approval.ts: rows of dymaxion.approval_requests and of
-- dymaxion.audit_log, changed in one transaction. `UPDATE … WHERE … RETURNING` changes every row
-- that fits and returns the first. An insert fails on the primary key and on the reference to
-- dymaxion.agent_runs (dymaxion-runtime/src/db/schema.ts), and leaves nothing behind.
pub mod Laws
use dymaxion.Prelude.{
  ℕ, Text, text, text_eq, ltb, leb, Option, none, some, is_none, option_text_eq, Bool, true, false,
  ◌&&◌, ◌||◌, if◌then◌else◌, List, [], ◌∷◌, ◌++◌, Result, ok, err, any,
}
use dymaxion.Approval.Types.{
  ApprovalDecision, approved, rejected, expired, Verdict, approve, reject, ApprovalRecord,
  ApprovalDraft, ApprovalBinding,
}
use dymaxion.Approval.Interface.{
  ApprovalStore, StoreError, already_exists, unknown_agent_run, verdict_decision, is_approved,
  fresh,
}

-- The rows that the store inserts into the audit log, by their `eventType`.
pub data AuditRow : Type 0 where
  approval_requested : Text → Text → Text → Text → Option Text → ℕ → Text → AuditRow
  approval_decided :
      Text → ApprovalDecision → Text → Text → Text → Option Text → ℕ → Text → AuditRow
  approval_consumed : Text → Text → Text → Text → Text → AuditRow

pub record Database : Type 0 where
  pub agent_runs : List Text
  pub approval_requests : List ApprovalRecord
  pub audit_log : List AuditRow

-- `select().where(eq(id)).limit(1)`, through `mapRow`
unfoldable pub select : Text → List ApprovalRecord → Option ApprovalRecord
select k [] = none
select k (r ∷ rs) = if text_eq r.id k then some r else select k rs

-- `update().set().where().returning()`: the rows after it, and the first row that it changed.
unfoldable pub update :
    (ApprovalRecord → Bool)
    → (ApprovalRecord → ApprovalRecord)
    → List ApprovalRecord
    → List ApprovalRecord × Option ApprovalRecord
update fits set [] = ([], none)
update fits set (r ∷ rs) =
    let (rs', row) = update fits set rs in
    if fits r then (set r ∷ rs', some (set r)) else (r ∷ rs', row)

unfoldable pub create : ApprovalDraft → Database → Result StoreError ApprovalRecord × Database
create d db = elim (select d.id db.approval_requests) [
  | some r ↦ (err already_exists, db)
  | none ↦
      if any (text_eq d.agent_run_id) db.agent_runs
      then (
        ok (fresh d),
        record db {
          approval_requests = db.approval_requests ++ fresh d ∷ [];
          audit_log =
              db.audit_log
              ++ approval_requested d.id d.step_description d.payload_hash d.target
                  (some d.credential_identity) d.expires_at d.agent_run_id
                ∷ [];
        },
      )
      else (err unknown_agent_run, db)
]

unfoldable pub get : Text → Database → Option ApprovalRecord
get k db = select k db.approval_requests

-- The end of a transaction: no row, no audit entry.
abbrev pub commit :
    Database
    → (ApprovalRecord → AuditRow)
    → List ApprovalRecord × Option ApprovalRecord
    → Option ApprovalRecord × Database
commit db audit (rows, none) = (none, record db { approval_requests = rows })
commit db audit (rows, some row) =
    (some row, record db { approval_requests = rows; audit_log = db.audit_log ++ audit row ∷ [] })

abbrev fits_decision : Text → ℕ → ApprovalRecord → Bool
fits_decision k now r = text_eq r.id k && is_none r.decision && ltb now r.expires_at

abbrev set_decision : ApprovalDecision → Text → ℕ → ApprovalRecord → ApprovalRecord
set_decision d by now r = record r {
  decision = some d;
  decided_by = some by;
  responded_at = some now;
}

abbrev audit_decision : Text → ApprovalDecision → Text → ApprovalRecord → AuditRow
audit_decision k d by r =
    approval_decided k d by r.payload_hash r.target r.credential_identity r.expires_at
      r.agent_run_id

unfoldable pub decide_atomic :
    Text → Verdict → Text → ℕ → Database → Option ApprovalRecord × Database
decide_atomic k v by now db =
    commit db (audit_decision k (verdict_decision v) by)
      (update (fits_decision k now) (set_decision (verdict_decision v) by now) db.approval_requests)

abbrev fits_expiry : Text → ℕ → ApprovalRecord → Bool
fits_expiry k now r = text_eq r.id k && is_none r.decision && leb r.expires_at now

unfoldable pub expire_atomic : Text → ℕ → Database → Option ApprovalRecord × Database
expire_atomic k now db =
    commit db (audit_decision k expired (text "system"))
      (update (fits_expiry k now) (set_decision expired (text "system") now) db.approval_requests)

abbrev fits_consumption : Text → ApprovalBinding → ℕ → ApprovalRecord → Bool
fits_consumption k b now r =
    text_eq r.id k
    && text_eq r.agent_run_id b.agent_run_id
    && is_approved r.decision
    && is_none r.consumed_at
    && ltb now r.expires_at
    && text_eq r.payload_hash b.payload_hash
    && text_eq r.target b.target
    && option_text_eq r.credential_identity (some b.credential_identity)

abbrev set_consumed : ℕ → ApprovalRecord → ApprovalRecord
set_consumed now r = record r { consumed_at = some now }

unfoldable pub consume_atomic :
    Text → ApprovalBinding → ℕ → Database → Option ApprovalRecord × Database
consume_atomic k b now db =
    commit db
      (λ r. approval_consumed k b.agent_run_id b.payload_hash b.target b.credential_identity)
      (update (fits_consumption k b now) (set_consumed now) db.approval_requests)

abbrev pub postgres_store : ApprovalStore Database
postgres_store = record {
  create = create;
  get = get;
  decide_atomic = decide_atomic;
  expire_atomic = expire_atomic;
  consume_atomic = consume_atomic;
}
