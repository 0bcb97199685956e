-- ===== src/Skills/Types.antt =====
-- The capabilities of contracts/capability.ts and the skills of skills/registry.ts, as far as their
-- dispatch reads them.
use dymaxion.Prelude.{ℕ, Text, Option, none, some, Bool, true, false, not, List, Result}
use dymaxion.Canonical.{Json, CanonicalError}
use dymaxion.Approval.Target.{TargetError}
use dymaxion.Approval.Receipts.{ReceiptError}
use dymaxion.Approval.Requests.{ApprovalError}

pub data SkillError : Type 0 where
  unknown_slug unavailable missing_required failed_validation : SkillError
  invalid_input invalid_output boundary_violation preflight_refused execution_failed : SkillError
  invalid_preflight_grant no_agent_run approval_required run_changed : SkillError
  identity_not_configured identity_not_json identity_not_object identity_missing : SkillError
  payload_not_object unregistered_step kind_mismatch replay_not_created : SkillError
  not_canonical : CanonicalError → SkillError
  no_target : TargetError → SkillError
  receipt_refused : ReceiptError → SkillError
  approval_refused : ApprovalError → SkillError

pub data Classification : Type 0 where
  read write copy_on_write : Classification

pub record CapabilityBinding : Type 0 where
  pub target : Text
  pub credential_identity : Text

-- A schema's `parse` is a function that may throw, and so are the hooks, where there are any.
pub record Capability : Type 0 where
  pub slug : Text
  pub version : Text
  pub classification : Classification
  pub boundary_fields : List Text
  pub parse_input : Json → Result SkillError Json
  pub parse_output : Json → Result SkillError Json
  pub requires_approval : Option (Json → Bool)
  pub resolve_approval_binding : Option (Json → Result SkillError CapabilityBinding)
  pub preflight : Option (Json → Result SkillError (Unit {0}))
  pub execute : Json → Option ℕ → Result SkillError Json

pub record InputSpec : Type 0 where
  pub name : Text
  pub required : Bool
  pub validation : Option Text

pub record RegisteredSkill : Type 0 where
  pub slug : Text
  pub version : Text
  pub destructive : Bool
  pub requires_approval : Bool
  pub inputs : List InputSpec
  pub available : Bool

-- `explicit === true` and `explicit === false`
abbrev pub is_said : Bool → Option Bool → Bool
is_said true (some true) = true
is_said false (some false) = true
is_said _ _ = false

abbrev pub explicit : Option (Json → Bool) → Json → Option Bool
explicit none input = none
explicit (some f) input = some (f input)

-- `capabilityRequiresApproval` of an input that has been parsed
unfoldable pub capability_requires_approval : Capability → Json → Bool
capability_requires_approval c input = elim c.classification [
  | read ↦ is_said true (explicit c.requires_approval input)
  | write ↦ not (is_said false (explicit c.requires_approval input))
  | copy_on_write ↦ not (is_said false (explicit c.requires_approval input))
]
