-- ===== src/Skills/Tests.antt =====
-- A publishing capability and its dispatch, for the definitions of skills/executor.ts and
-- capabilities/registry.ts.
use dymaxion.Prelude.{
  ◌+◌, ◌≡◌, refl, Text, text, text_eq, none, some, true, false, List, [], ◌∷◌, ok, err, lookup, ◌⊎◌,
  arith,
}
use dymaxion.Canonical.{Json, obj, str, end, field, null}
use dymaxion.Approval.Memory.{Records, memory_store}
use dymaxion.Approval.Receipts.{primitive}
use dymaxion.Skills.Types.{
  SkillError, Capability, write, capability_requires_approval, invalid_preflight_grant,
}
use dymaxion.Skills.Identity.{resolve_identity, trim_start, trim_end}
use dymaxion.Approval.Requests.{is_blank}
use dymaxion.Approval.Target.{field_of}
use dymaxion.Skills.World.{World, Environment, Context, preflight_grant, absent}
use dymaxion.Skills.Grants.{consume_preflight_grant}
use dymaxion.Skills.Dispatch.{execute_capability_definition}
use dymaxion.Skills.Execution.{IsGated, execute_capability_definition-IsGated}
use dymaxion.Skills.Runner.{native, find_executable, validate, requires_approval_of, run_skill}
use dymaxion.Skills.Steps.{
  Registries, ReplayStepIdentity, workflow, native_capability, create_replay,
}
use dymaxion.Skills.Refusal.{run_skill-IsRefused, create_replay-AllExact, AllExact}
use dymaxion.Skills.Spent.{GrantCall, preflights, consumes, run_calls, consume_preflight_grant_once}

abbrev digest : Text → Text
digest t = text "0123456789abcdef0123456789abcdef0123456789abcdef0123456789abcdef"

abbrev plan_payload : Json
plan_payload = obj (field (text "layer") (str (text "roads")) end)

abbrev publish : Capability
publish = record {
  slug = text "publish_layer";
  version = text "1.0.0";
  classification = write;
  boundary_fields = [];
  parse_input = λ v. ok v;
  parse_output = λ v. ok v;
  requires_approval = none;
  resolve_approval_binding = none;
  preflight = none;
  execute = λ v g. ok null;
}

abbrev environment : Environment Records
environment = record {
  store = memory_store;
  sha256 = digest;
  now = 3000;
  boundary = λ v. ok tt;
  identities = none;
  parse_json = λ t. none;
  matches = λ p s. true;
  capabilities = (text "publish_layer", publish) ∷ [];
  skills = [];
  run_program = λ s v. ok null;
}

abbrev world : World Records
world = record {
  store = [];
  receipts = record { receipts = []; claimed = []; grants = []; used = [] };
  preflight_grants =
      some (record {
        slug = text "publish_layer";
        input_sha256 = text "h";
        agent_run_id = some (text "r1");
      })
      ∷ [];
  invocations = [];
  executions = [];
}

abbrev direct_call : Context
direct_call = record {
  agent_run_id = some (text "r1");
  capability_preflight_grant = absent;
  approval_receipt = primitive;
}

abbrev registries : Registries
registries = record {
  has_workflow = λ s. text_eq s (text "audit");
  has_capability = λ s. text_eq s (text "publish_layer");
  has_skill = λ s. false;
}

abbrev stored_steps : List ReplayStepIdentity
stored_steps =
    record { skill = text "audit"; kind = some workflow }
    ∷ record { skill = text "publish_layer"; kind = some native_capability }
    ∷ []

trimmed :
    resolve_identity
      (some (text "{}"))
      (λ t. some (obj (field (text "s") (str (text " svc ")) end)))
      (text "s")
    ≡ ok (text "svc")
unfolding resolve_identity field_of text_eq is_blank trim_end trim_start
trimmed = refl

publish_found : find_executable environment (text "r1") (text "publish_layer") ≡ ok (native publish)
unfolding find_executable lookup text_eq
publish_found = refl

publish_valid : validate environment (text "r1") (native publish) plan_payload ≡ ok plan_payload
unfolding validate
publish_valid = refl

publish_needs_approval : requires_approval_of (native publish) plan_payload ≡ true
unfolding capability_requires_approval
publish_needs_approval = refl

execute_capability_definition-IsGated_example :
    IsGated environment publish direct_call world
      (execute_capability_definition environment publish plan_payload direct_call world).1
execute_capability_definition-IsGated_example =
    execute_capability_definition-IsGated environment publish plan_payload direct_call world

run_skill-IsRefused_example :
    ((run_skill environment (text "r1") (text "publish_layer") plan_payload none world).0.succeeded
      ≡ false)
    × ((run_skill environment
          (text "r1")
          (text "publish_layer")
          plan_payload
          none
          world).1.executions
        ≡ [])
    × ((run_skill environment
          (text "r1")
          (text "publish_layer")
          plan_payload
          none
          world).1.invocations
        ≡ [])
run_skill-IsRefused_example =
    run_skill-IsRefused environment (text "r1") (text "publish_layer") (native publish) plan_payload
      plan_payload world publish_found publish_valid publish_needs_approval

-- Between the two consumptions another grant is minted, and consumed by the same capability.
abbrev between : List GrantCall
between =
    preflights publish plan_payload (some (text "r1"))
    ∷ consumes (preflight_grant 1) publish plan_payload (some (text "r1"))
    ∷ []

consume_preflight_grant_once_example :
    let used =
      (consume_preflight_grant digest
        (preflight_grant 0)
        publish
        plan_payload
        (some (text "r1"))
        world).1 in
    (consume_preflight_grant digest
      (preflight_grant 0)
      publish
      plan_payload
      (some (text "r1"))
      (run_calls digest between used)).0
    ≡ err invalid_preflight_grant
consume_preflight_grant_once_example =
    consume_preflight_grant_once digest 0 publish publish plan_payload plan_payload
      (some (text "r1")) (some (text "r1")) between world (omega arith)

create_replay-AllExact_example :
    ((AllExact registries stored_steps)
      × (create_replay registries stored_steps (λ n. (ok n, n + 1)) 7 ≡ (ok 7, 8)))
    ⊎ ((¬ AllExact registries stored_steps)
        × ((e : SkillError) × (create_replay registries stored_steps (λ n. (ok n, n + 1)) 7
              ≡ (err e, 7))))
create_replay-AllExact_example =
    create_replay-AllExact registries stored_steps (λ n. (ok n, n + 1)) 7
