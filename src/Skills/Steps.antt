-- ===== src/Skills/Steps.antt =====
-- agent/step-approval.ts and agent/replay-contract.ts: which approval a plan's step needs, and
-- whether a stored plan may run again.
use dymaxion.Prelude.{
  ℕ, ◌+◌, ◌==◌, Text, Option, none, some, Bool, true, false, not, if◌then◌else◌, List, [], ◌∷◌,
  Result, ok, err, ◌>>=◌, lookup,
}
use dymaxion.Canonical.{Json, obj, foreign}
use dymaxion.Skills.Types.{
  SkillError, Capability, CapabilityBinding, capability_requires_approval, payload_not_object,
  unregistered_step, kind_mismatch,
}
use dymaxion.Skills.World.{Environment}
use dymaxion.Skills.Dispatch.{derive_binding, resolve_capability_approval_binding}

pub record ApprovalAwareStep : Type 0 where
  pub skill : Text
  pub input : Json
  pub destructive : Bool

pub record StepApprovalResolution : Type 0 where
  pub payload : Json
  pub target : Text
  pub credential_identity : Text

-- A value that is an object and no array
unfoldable pub is_object : Json → Bool
is_object (obj fs) = true
is_object foreign = true
is_object _ = false

abbrev pub resolution : Json → CapabilityBinding → StepApprovalResolution
resolution payload b = record {
  payload = payload;
  target = b.target;
  credential_identity = b.credential_identity;
}

abbrev pub resolved :
    Json → Result SkillError CapabilityBinding → Result SkillError (Option StepApprovalResolution)
resolved payload (ok b) = ok (some (resolution payload b))
resolved payload (err e) = err e

module _ {S : Type 0} (env : Environment S) where
  unfoldable pub resolve_native :
      Capability → Json → Result SkillError (Option StepApprovalResolution)
  resolve_native c payload =
      if not (is_object payload)
      then err payload_not_object
      else if not (capability_requires_approval c payload)
      then ok none
      else resolved payload (resolve_capability_approval_binding env c payload)

  unfoldable pub resolve_step_approval :
      ApprovalAwareStep → Result SkillError (Option StepApprovalResolution)
  resolve_step_approval step = elim (lookup step.skill env.capabilities) [
    | none ↦
        if not step.destructive
        then ok none
        else resolved step.input
            (derive_binding env.identities env.parse_json step.skill step.input)
    | some c ↦ c.parse_input step.input >>= resolve_native c
  ]

pub data ReplayStepKind : Type 0 where
  historical_skill native_capability workflow : ReplayStepKind

-- A stored kind may be missing or be no kind at all.
pub record ReplayStepIdentity : Type 0 where
  pub skill : Text
  pub kind : Option ReplayStepKind

abbrev pub is_kind : ReplayStepKind → Option ReplayStepKind → Bool
is_kind historical_skill (some historical_skill) = true
is_kind native_capability (some native_capability) = true
is_kind workflow (some workflow) = true
is_kind _ _ = false

-- `Number(Boolean(value))`
abbrev pub one_if : Bool → ℕ
one_if true = 1
one_if false = 0

-- Whether each of the three registries has a slug
pub record Registries : Type 0 where
  pub has_workflow : Text → Bool
  pub has_capability : Text → Bool
  pub has_skill : Text → Bool

unfoldable pub assert_replay_step_kind :
    Registries → ReplayStepIdentity → Result SkillError ReplayStepKind
assert_replay_step_kind g step =
    let w = g.has_workflow step.skill in
    let c = g.has_capability step.skill in
    let h = g.has_skill step.skill in
    if not (one_if w + one_if c + one_if h == 1)
    then err unregistered_step
    else let expected = if w then workflow else if c then native_capability else historical_skill in
      if not (is_kind expected step.kind) then err kind_mismatch else ok expected

-- The creation runs, on the state that it changes, once every step has been checked.
unfoldable pub create_replay :
    {W A : Type 0}
    → Registries
    → List ReplayStepIdentity
    → (W → Result SkillError A × W)
    → W
    → Result SkillError A × W
create_replay g [] create w = create w
create_replay g (step ∷ steps) create w =
    let rest = create_replay g steps create w in
    elim (assert_replay_step_kind g step) [ err e ↦ (err e, w) | ok k ↦ rest ]
