-- ===== src/Agent/Tests.antt =====
-- Small runs and replays, for the definitions of agent/executor.ts.
use dymaxion.Prelude.{
  ◌≡◌, refl, text, text_eq, none, some, true, false, [], ◌∷◌, map, ok, err, lookup,
}
use dymaxion.Canonical.{null}
use dymaxion.Approval.Memory.{Records, memory_store}
use dymaxion.Approval.Types.{approved}
use dymaxion.Approval.Target
use dymaxion.Approval.Target.{derive_approval_target, generic_target, visit}
use dymaxion.Skills.Types.{no_target}
use dymaxion.Skills.World.{World, Environment}
use dymaxion.Skills.Dispatch.{derive_binding}
use dymaxion.Skills.Steps.{
  workflow, historical_skill, Registries, create_replay, assert_replay_step_kind,
  resolve_step_approval,
}
use dymaxion.Agent.Types.{
  PlanStep, step_refused, thrown, workflow_summaries, completed, Run, Services,
}
use dymaxion.Agent.Steps.{run_steps}
use dymaxion.Agent.Run.{run_agent, send_final}
use dymaxion.Agent.Ending.{is_over, run_agent_over}
use dymaxion.Agent.Outcome.{IsEnd, run_steps-IsEnd}
use dymaxion.Agent.Replay.{StoredStep, identity, new_row, replay_run, replay_body, replay_steps}
use dymaxion.Agent.ReplayLaws.{IsReplayable, IsLeft, replay_run-IsLeft}

abbrev environment : Environment Records
environment = record {
  store = memory_store;
  sha256 = λ t. t;
  now = 0;
  boundary = λ v. ok tt;
  identities = none;
  parse_json = λ t. none;
  matches = λ p s. true;
  capabilities = [];
  skills = [];
  run_program = λ s v. ok null;
}

abbrev audit_step : PlanStep
audit_step = record {
  skill = text "audit";
  is_workflow = true;
  description = text "audit the layer";
  input = null;
  destructive = false;
  optional = false;
}

abbrev missing_step : PlanStep
missing_step = record audit_step { skill = text "missing"; is_workflow = false }

abbrev services : Services Records
services = record {
  run_id = text "r1";
  now = 0;
  timeout_minutes = 30;
  new_id = λ w. text "a1";
  classify = ok (record { is_trivial = true; is_question = false; summary = text "audit" });
  make_plan = λ i. ok (record { summary = text "audit"; steps = audit_step ∷ missing_step ∷ [] });
  answer_directly = λ p. ok (text "hello");
  draft_skill = λ t. ok (text "drafted");
  should_attempt_authoring = λ t. false;
  send_plan = λ p. ok tt;
  send_progress = λ s r. ok tt;
  send_final = λ n files. err (thrown (text "gateway down"));
  ask = λ q w. (
    ok (record {
      approval_id = q.id;
      approved = true;
      decision = approved;
      decided_by = text "ann";
    }),
    w,
  );
  has_workflow = λ s. text_eq s (text "audit");
  has_skill = λ s. false;
  run_workflow =
      λ s v w. (ok (record { output = null; summary = text "3 layers"; deliveries = [] }), w);
  needs_revision = λ rs. ok false;
  narrate = λ rs. ok (text "done");
  message_of = λ e. text "error";
}

abbrev world : World Records
world = record {
  store = [];
  receipts = record { receipts = []; claimed = []; grants = []; used = [] };
  preflight_grants = [];
  invocations = [];
  executions = [];
}

abbrev started : Run Records
started = new_row environment services world

-- The run whose delivery fails
run_agent_over_example : is_over (run_agent environment services started).status ≡ true
run_agent_over_example = run_agent_over environment services started

-- A workflow that succeeds, and a skill that is not known
run_steps-IsEnd_example :
    IsEnd environment services
      (audit_step ∷ missing_step ∷ [])
      0
      (run_steps environment services (audit_step ∷ missing_step ∷ []) 0 started)
run_steps-IsEnd_example =
    run_steps-IsEnd environment services (audit_step ∷ missing_step ∷ []) 0 started

abbrev registries : Registries
registries = record {
  has_workflow = λ s. text_eq s (text "audit");
  has_capability = λ s. false;
  has_skill = λ s. text_eq s (text "drop_layer");
}

abbrev stored_audit : StoredStep
stored_audit = record {
  skill = text "audit";
  kind = some workflow;
  description = text "audit the layer";
  input = null;
  destructive = false;
}

abbrev stored_drop : StoredStep
stored_drop = record {
  skill = text "drop_layer";
  kind = some historical_skill;
  description = text "drop the layer";
  input = null;
  destructive = true;
}

abbrev audited : Run Records
audited = record started {
  status = completed;
  final_narrative = some (workflow_summaries (text "3 layers" ∷ []));
}

drop_admitted :
    create_replay registries
      (map identity (stored_drop ∷ []))
      (λ v. (ok (new_row environment services v), v))
      world
    ≡ (ok (new_row environment services world), world)
unfolding create_replay assert_replay_step_kind text_eq
drop_admitted = refl

drop_unresolved :
    resolve_step_approval environment
      (record { skill = text "drop_layer"; input = null; destructive = true })
    ≡ err (no_target (Target.no_target (text "drop_layer")))
unfolding resolve_step_approval lookup derive_binding derive_approval_target generic_target visit
    text_eq Target.export_skill
drop_unresolved = refl

drop_leaves_running : replay_run environment services registries (some (stored_drop ∷ [])) world ≡ (
  err (step_refused (no_target (Target.no_target (text "drop_layer")))),
  some (new_row environment services world),
)
unfolding replay_run replay_body replay_steps
drop_leaves_running = rw (replay_run, drop_admitted) (rw (drop_unresolved) refl)

replay_run-IsLeft_example :
    IsLeft
      (IsReplayable registries (some (stored_drop ∷ [])))
      (replay_steps environment services (stored_drop ∷ []) 0 (new_row environment services world))
      (replay_run environment services registries (some (stored_drop ∷ [])) world)
replay_run-IsLeft_example =
    replay_run-IsLeft environment services registries (some (stored_drop ∷ [])) world
