-- ===== src/Skills/Runner.antt =====
-- `validateInputs` and `runSkill` of skills/executor.ts. Durations are left out, and every cost in it
-- is zero.
use dymaxion.Prelude.{
  ℕ, zero, suc, ◌==◌, Text, text_eq, Option, none, some, Bool, true, false, not, ◌&&◌, ◌||◌,
  if◌then◌else◌, List, [], ◌∷◌, ◌++◌, Result, ok, err, lookup, length,
}
use dymaxion.Canonical.{Json, str, obj, null, undefined, Fields, end, field}
use dymaxion.Approval.Types.{ApprovalRequest}
use dymaxion.Approval.Target.{payload_field}
use dymaxion.Approval.Receipts.{Value, receipt, primitive}
use dymaxion.Approval.Requests.{consume_approval}
use dymaxion.Skills.Types.{
  SkillError, Capability, RegisteredSkill, InputSpec, CapabilityBinding,
  capability_requires_approval, unknown_slug, unavailable, missing_required, failed_validation,
  approval_required, run_changed, approval_refused,
}
use dymaxion.Skills.World.{
  World, Environment, Invocation, GrantValue, absent, Action, ◌>>=◌, ◌>>◌, lift,
}
use dymaxion.Skills.Grants.{preflight_capability_definition}
use dymaxion.Skills.Dispatch.{
  resolve_capability_approval_binding, derive_binding, execute_capability,
}

pub record SkillResult : Type 0 where
  pub succeeded : Bool  -- `ok`
  pub output : Option Json
  pub error : Option SkillError

abbrev pub result_of : Result SkillError Json → SkillResult
result_of (ok v) = record { succeeded = true; output = some v; error = none }
result_of (err e) = record { succeeded = false; output = none; error = some e }

-- `value === undefined || value === null || value === ''`
unfoldable pub is_missing : Json → Bool
is_missing undefined = true
is_missing null = true
is_missing (str []) = true
is_missing _ = false

abbrev pub is_malformed : (Text → Text → Bool) → Option Text → Json → Bool
is_malformed matches (some pattern) (str s) = not (length pattern == 0) && not (matches pattern s)
is_malformed matches _ v = false

unfoldable pub validate_inputs :
    (Text → Text → Bool) → List InputSpec → Json → Result SkillError (Unit {0})
validate_inputs matches [] input = ok tt
validate_inputs matches (spec ∷ specs) input =
    let value = payload_field spec.name input in
    if spec.required && is_missing value
    then err missing_required
    else if is_malformed matches spec.validation value
    then err failed_validation
    else validate_inputs matches specs input

-- The declared fields that an object has, in the order of the declaration
unfoldable pub boundary_input : List Text → Json → Fields
boundary_input [] input = end
boundary_input (f ∷ fs) input = elim (payload_field f input) [
  | undefined ↦ boundary_input fs input
  | v ↦ field f v (boundary_input fs input)
]

-- What the first `try` of `runSkill` leaves for the second
pub record Admitted : Type 0 where
  pub input : Json
  pub grant : GrantValue
  pub approval_receipt : Value

-- What a slug names
pub data Executable : Type 0 where
  native : Capability → Executable
  legacy : RegisteredSkill → Executable

abbrev pub version_of : Executable → Text
version_of (native c) = c.version
version_of (legacy s) = s.version

abbrev pub requires_approval_of : Executable → Json → Bool
requires_approval_of (native c) input = capability_requires_approval c input
requires_approval_of (legacy s) input = s.destructive || s.requires_approval

-- `recorder.finish`: the outcome of an invocation
unfoldable pub finish_invocation : ℕ → Result SkillError Json → List Invocation → List Invocation
finish_invocation n r [] = []
finish_invocation zero r (i ∷ is) = record i { outcome = some r } ∷ is
finish_invocation (suc n) r (i ∷ is) = i ∷ finish_invocation n r is

module _ {S : Type 0} (env : Environment S) (run : Text) where
  -- The parsed input
  unfoldable pub validate : Executable → Json → Result SkillError Json
  validate (native c) input = c.parse_input input
  validate (legacy s) input = elim (validate_inputs env.matches s.inputs input) [
    | ok u ↦ ok input
    | err e ↦ err e
  ]

  abbrev pub scanned : Executable → Json → Json
  scanned (native c) input = obj (boundary_input c.boundary_fields input)
  scanned (legacy s) input = input

  abbrev pub preflight : Executable → Json → Action S GrantValue
  preflight (native c) input = preflight_capability_definition env.sha256 c input (some run)
  preflight (legacy s) input = lift (ok absent)

  abbrev pub binding_of : Executable → Text → Json → Result SkillError CapabilityBinding
  binding_of (native c) slug input = resolve_capability_approval_binding env c input
  binding_of (legacy s) slug input = derive_binding env.identities env.parse_json slug input

  -- `consumeApproval`, on the store and the receipts of the world
  unfoldable pub consume : ApprovalRequest → Json → CapabilityBinding → Action S Value
  consume request input b w =
      let (r, (s, g)) =
        consume_approval env.store env.sha256 request input b.target b.credential_identity env.now
          (w.store, w.receipts) in
      (
        elim r [ ok n ↦ ok (receipt n) | err e ↦ err (approval_refused e) ],
        record w { store = s; receipts = g },
      )

  unfoldable pub approve : Executable → Text → Json → Option ApprovalRequest → Action S Value
  approve x slug input none = lift (err approval_required)
  approve x slug input (some request) =
      if not (text_eq request.agent_run_id run)
      then lift (err run_changed)
      else lift (binding_of x slug input) >>= consume request input

  abbrev pub approve_if : Executable → Text → Json → Option ApprovalRequest → Action S Value
  approve_if x slug input request =
      if requires_approval_of x input then approve x slug input request else lift (ok primitive)

  -- The first `try`: what precedes the invocation's row
  unfoldable pub admit : Executable → Text → Json → Option ApprovalRequest → Action S Admitted
  admit x slug input request = do
    valid ← lift (validate x input)
    lift (env.boundary (scanned x valid))
    grant ← preflight x valid
    approval_receipt ← approve_if x slug valid request
    lift (ok (record { input = valid; grant = grant; approval_receipt = approval_receipt }))

  -- The second `try`
  unfoldable pub execute : Executable → Text → Admitted → Action S Json
  execute (native c) slug a = execute_capability env slug a.input (record {
    agent_run_id = some run;
    capability_preflight_grant = a.grant;
    approval_receipt = a.approval_receipt;
  })
  execute (legacy s) slug a = λ w. (
    env.run_program s a.input,
    record w {
      executions =
          w.executions
          ++ record { slug = slug; agent_run_id = some run; input = a.input; grant = none } ∷ [];
    },
  )

  -- From the invocation's row on
  unfoldable pub invoke : Executable → Text → Admitted → World S → SkillResult × World S
  invoke x slug a w =
      let begun = record w {
        invocations =
            w.invocations
            ++ record {
              agent_run_id = run;
              slug = slug;
              version = version_of x;
              input = a.input;
              outcome = none;
            }
              ∷ [];
      } in
      let (r, w') = execute x slug a begun in
      (
        result_of r,
        record w' { invocations = finish_invocation (length w.invocations) r w'.invocations },
      )

  abbrev pub invoke_admitted :
      Executable → Text → Result SkillError Admitted × World S → SkillResult × World S
  invoke_admitted x slug (ok a, w) = invoke x slug a w
  invoke_admitted x slug (err e, w) = (result_of (err e), w)

  -- `getCapability(slug)`, or else `getSkill(slug)` if that is available
  unfoldable pub find_executable : Text → Result SkillError Executable
  find_executable slug = elim (lookup slug env.capabilities) [
    | some c ↦ ok (native c)
    | none ↦ elim (lookup slug env.skills) [
      | none ↦ err unknown_slug
      | some s ↦ if not s.available then err unavailable else ok (legacy s)
    ]
  ]

  unfoldable pub run_skill : Text → Json → Option ApprovalRequest → World S → SkillResult × World S
  run_skill slug input request w = elim (find_executable slug) [
    | err e ↦ (result_of (err e), w)
    | ok x ↦ invoke_admitted x slug (admit x slug input request w)
  ]
