-- ===== src/Approval/Types.antt =====
-- The data of dymaxion-runtime/src/security/approval.ts, and the request and response of
-- dymaxion-runtime/src/gateways/common.ts. A Date is its milliseconds since the epoch; an ISO
-- text in a request or a snapshot is held as that number.
use dymaxion.Prelude.{ℕ, Text, Option, Bool}
use dymaxion.Canonical.{Json}

pub data ApprovalDecision : Type 0 where
  approved rejected expired : ApprovalDecision

-- `Exclude<ApprovalDecision, 'expired'>`
pub data Verdict : Type 0 where
  approve reject : Verdict

pub record ApprovalRecord : Type 0 where
  pub id : Text
  pub agent_run_id : Text
  pub step_description : Text
  pub payload : Json
  pub payload_hash : Text
  pub target : Text
  pub credential_identity : Option Text
  pub requested_at : ℕ
  pub expires_at : ℕ
  pub decision : Option ApprovalDecision
  pub decided_by : Option Text
  pub responded_at : Option ℕ
  pub consumed_at : Option ℕ

pub record ApprovalDraft : Type 0 where
  pub id : Text
  pub agent_run_id : Text
  pub step_description : Text
  pub payload : Json
  pub payload_hash : Text
  pub target : Text
  pub credential_identity : Text
  pub requested_at : ℕ
  pub expires_at : ℕ

pub record ApprovalBinding : Type 0 where
  pub agent_run_id : Text
  pub payload_hash : Text
  pub target : Text
  pub credential_identity : Text

pub record ConsumedApprovalSnapshot : Type 0 where
  pub approval_id : Text
  pub decided_by : Text
  pub decided_at : ℕ
  pub target : Text
  pub payload_hash : Text
  pub credential_identity : Text
  pub agent_run_id : Text

pub record ApprovalRequest : Type 0 where
  pub id : Text
  pub agent_run_id : Text
  pub step_description : Text
  pub payload : Json
  pub payload_hash : Text
  pub target : Text
  pub credential_identity : Text
  pub requested_at : ℕ
  pub expires_at : ℕ

pub record ApprovalResponse : Type 0 where
  pub approval_id : Text
  pub approved : Bool
  pub decision : ApprovalDecision
  pub decided_by : Text
