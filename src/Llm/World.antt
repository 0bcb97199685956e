-- ===== src/Llm/World.antt =====
-- What the model calls read and write: the table `budget_ledger` and the audit log. A call is a
-- function of both that returns or throws.
use dymaxion.Prelude.{ℕ, Bool, Text, List, [], ◌∷◌, ◌++◌, ok, err}
use dymaxion.Prelude.Stateful.{Stateful}
pub use dymaxion.Prelude.Stateful.{continue, ◌>>=◌, ◌>>◌, lift}

pub record LedgerRow : Type 0 where
  pub tier : Text
  pub month : Text
  pub spent_usd : ℕ
  pub frozen : Bool

pub data LlmError : Type 0 where
  unknown_tier provider_not_allowed model_not_allowed denied_host malformed_url : LlmError
  budget_exceeded : (tier : Text) (spent cap : ℕ) → LlmError
  unprefixed_ref unknown_provider disabled_provider no_factory no_credential : LlmError
  provider_failed : Text → LlmError
  all_failed : (last : LlmError) → LlmError
  no_attempt : LlmError  -- `lastError` before any model has failed

-- `auditEvent`: its type and what the payload tells of the budget
pub data AuditEvent : Type 0 where
  budget_block : (tier : Text) (spent cap : ℕ) → AuditEvent
  budget_frozen : (tier : Text) (spent : ℕ) → AuditEvent
  llm_call_pre : (skill model : Text) (estimated_tokens : ℕ) → AuditEvent
  llm_call_post : (skill model : Text) (input output cost remaining : ℕ) → AuditEvent
  llm_call_failed : (skill model : Text) (error : LlmError) → AuditEvent

pub record World : Type 0 where
  pub ledger : List LedgerRow
  pub audit_log : List AuditEvent

abbrev pub Call : Type 0 → Type 0
Call A = Stateful World LlmError A

module _ {A : Type 0} where
  abbrev pub return : A → Call A
  return a w = (ok a, w)

  abbrev pub throw : LlmError → Call A
  throw e w = (err e, w)

abbrev pub audit_event : AuditEvent → Call (Unit {0})
audit_event e w = (ok tt, record w { audit_log = w.audit_log ++ e ∷ [] })
