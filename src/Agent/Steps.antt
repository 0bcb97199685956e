-- ===== src/Agent/Steps.antt =====
-- The loop over the plan's steps in `runAgent` of agent/executor.ts.
use dymaxion.Prelude.{
  ℕ, ◌+◌, Text, text, Option, none, some, Bool, true, false, not, ◌&&◌, ◌||◌, if◌then◌else◌, List,
  [], ◌∷◌, ◌++◌, Result, ok, err,
}
use dymaxion.Prelude.Stateful.{◌>>=◌, ◌>>◌, lift}
use dymaxion.Approval.Types.{ApprovalRequest, ApprovalResponse}
use dymaxion.Approval.Requests.{create_approval_request}
use dymaxion.Skills.Types.{SkillError}
use dymaxion.Skills.World.{Environment}
use dymaxion.Skills.Runner.{SkillResult, run_skill}
use dymaxion.Skills.Steps.{StepApprovalResolution, resolve_step_approval}
use dymaxion.Agent.Types.{
  PlanStep, AgentError, registry_mismatch, step_refused, request_refused, StepResult, Narrative,
  stopped, RunStatus, running, awaiting_approval, Act, WorkflowExecution, Services,
}

-- Whether a step may go on, and with which request
pub data Permission : Type 0 where
  permitted : Option ApprovalRequest → Permission
  denied : Narrative → Permission

-- How the loop ends: after a denial, or with the results, the operators' summaries and the
-- attachments, in order, and the cost.
pub record Progress : Type 0 where
  pub results : List StepResult
  pub summaries : List Text
  pub attachments : List Text
  pub cost : ℕ

pub data LoopEnd : Type 0 where
  halted : Narrative → ℕ → LoopEnd
  finished : Progress → LoopEnd

abbrev pub nothing_done : ℕ → Progress
nothing_done cost = record { results = []; summaries = []; attachments = []; cost = cost }

abbrev pub error_text : (SkillError → Text) → Option SkillError → Option Text
error_text message none = none
error_text message (some e) = some (message e)

-- The result of a skill, every cost of which is zero
abbrev pub step_result : (SkillError → Text) → SkillResult → StepResult
step_result message r = record {
  succeeded = r.succeeded;
  output = r.output;
  error = error_text message r.error;
  cost_usd = 0;
}

-- What one step adds to the progress
pub record Contribution : Type 0 where
  pub result : StepResult
  pub summaries : List Text
  pub attachments : List Text

abbrev pub add : Contribution → LoopEnd → LoopEnd
add c (halted n cost) = halted n cost
add c (finished p) = finished (record {
  results = c.result ∷ p.results;
  summaries = c.summaries ++ p.summaries;
  attachments = c.attachments ++ p.attachments;
  cost = p.cost;
})

abbrev pub workflow_contribution : Text → Result AgentError WorkflowExecution → Contribution
workflow_contribution message (ok x) = record {
  result = record { succeeded = true; output = some x.output; error = none; cost_usd = 0 };
  summaries = x.summary ∷ [];
  attachments = x.deliveries;
}
workflow_contribution message (err e) = record {
  result = record { succeeded = false; output = none; error = some message; cost_usd = 0 };
  summaries = [];
  attachments = [];
}

module _ {S : Type 0} (env : Environment S) (services : Services S) where
  abbrev pub set_status : RunStatus → Act S (Unit {0})
  set_status s w = (ok tt, record w { status = s })

  abbrev pub step_error : {A : Type 0} → Result SkillError A → Result AgentError A
  step_error (ok a) = ok a
  step_error (err e) = err (step_refused e)

  -- `plan step registry kind mismatch or workflow slug collision`
  abbrev pub is_mismatch : PlanStep → Bool
  is_mismatch step =
      let w = services.has_workflow step.skill in
      (step.is_workflow && not w)
      || (w && not step.is_workflow)
      || (w && services.has_skill step.skill)

  unfoldable pub create_request : PlanStep → StepApprovalResolution → Act S ApprovalRequest
  create_request step a w =
      let (r, s) =
        create_approval_request env.store env.sha256 (services.new_id w.skills) services.run_id
          step.description a.payload
          (record {
            timeout_minutes = services.timeout_minutes;
            target = a.target;
            credential_identity = a.credential_identity;
          })
          services.now w.skills.store in
      (
        elim r [ ok q ↦ ok q | err e ↦ err (request_refused e) ],
        record w { skills = record w.skills { store = s } },
      )

  unfoldable pub ask : ApprovalRequest → Act S ApprovalResponse
  ask q w = let (r, s) = services.ask q w.skills in (r, record w { skills = s })

  abbrev pub permission : PlanStep → ApprovalRequest → ApprovalResponse → Permission
  permission step q a =
      if a.approved
      then permitted (some q)
      else denied (stopped step.description a.decision a.decided_by)

  abbrev pub seek : PlanStep → Option StepApprovalResolution → Act S Permission
  seek step none = lift (ok (permitted none))
  seek step (some a) = do
    q ← create_request step a
    set_status awaiting_approval
    answer ← ask q
    set_status running
    lift (ok (permission step q answer))

  -- `resolveStepApproval` of a step that is no workflow
  unfoldable pub resolution_of : PlanStep → Result SkillError (Option StepApprovalResolution)
  resolution_of step =
      if services.has_workflow step.skill
      then ok none
      else resolve_step_approval env
          (record { skill = step.skill; input = step.input; destructive = step.destructive })

  unfoldable pub permit : PlanStep → Act S Permission
  permit step =
      if is_mismatch step
      then lift (err registry_mismatch)
      else lift (step_error (resolution_of step)) >>= seek step

  -- A workflow that throws gives a result too. It may ask for approvals of its own, and the run's
  -- status is `running` again behind it.
  abbrev pub perform_workflow : Text → PlanStep → Act S Contribution
  perform_workflow message step w =
      let (r, s) = services.run_workflow step.skill step.input w.skills in
      (ok (workflow_contribution message r), record w { skills = s; status = running })

  abbrev pub perform_skill : PlanStep → Option ApprovalRequest → Act S Contribution
  perform_skill step request w =
      let (r, s) = run_skill env services.run_id step.skill step.input request w.skills in
      (
        ok (record {
          result = step_result services.message_of r;
          summaries = [];
          attachments = [];
        }),
        record w { skills = s },
      )

  unfoldable pub perform : PlanStep → Option ApprovalRequest → Act S Contribution
  perform step request =
      if services.has_workflow step.skill
      then perform_workflow (text "workflow input or execution was rejected") step
      else perform_skill step request

  abbrev pub draft_for : Text → Bool → Act S (Unit {0})
  draft_for description false = lift (ok tt)
  draft_for description true = lift (services.draft_skill description) >>= λ _. lift (ok tt)

  abbrev pub is_authorable : PlanStep → StepResult → Bool
  is_authorable step r =
      not (services.has_workflow step.skill)
      && elim r.error [ none ↦ false | some e ↦ services.should_attempt_authoring e ]

  -- The loop breaks behind a step that failed and is not optional.
  abbrev pub is_fatal : PlanStep → StepResult → Bool
  is_fatal step r = not r.succeeded && not step.optional

  -- The rest of the body, once a step has been permitted
  abbrev pub go_on : (ℕ → Act S LoopEnd) → PlanStep → ℕ → Contribution → Act S LoopEnd
  go_on next step cost c =
      if is_fatal step c.result
      then draft_for step.description (is_authorable step c.result)
        >> lift (ok (add c (finished (nothing_done (cost + c.result.cost_usd)))))
      else next (cost + c.result.cost_usd) >>= λ end. lift (ok (add c end))

  abbrev pub run_permitted : (ℕ → Act S LoopEnd) → PlanStep → ℕ → Permission → Act S LoopEnd
  run_permitted next step cost (denied n) = lift (ok (halted n cost))
  run_permitted next step cost (permitted request) = perform step request >>= λ c.
      lift (services.send_progress step c.result) >> go_on next step cost c

  unfoldable pub run_steps : List PlanStep → ℕ → Act S LoopEnd
  run_steps [] cost = lift (ok (finished (nothing_done cost)))
  run_steps (step ∷ steps) cost = permit step >>= run_permitted (run_steps steps) step cost
