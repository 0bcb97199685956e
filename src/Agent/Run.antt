-- ===== src/Agent/Run.antt =====
-- `runAgent` and `finish` of agent/executor.ts.
use dymaxion.Prelude.{
  ℕ, Text, text, text_eq, Option, none, some, Bool, false, not, ◌&&◌, if◌then◌else◌, List, [], ◌∷◌,
  ◌++◌, Result, ok, err, all, lookup,
}
use dymaxion.Prelude.Stateful.{continue, ◌>>=◌, ◌>>◌, lift}
use dymaxion.Skills.World.{Environment}
use dymaxion.Skills.Runner.{run_skill}
use dymaxion.Agent.Types.{
  PlanStep, Plan, Intent, AgentError, StepResult, Narrative, reply, workflow_summaries,
  workflow_failed, narrated, run_failed, RunStatus, completed, failed, Run, Act, Services,
}
use dymaxion.Agent.Steps.{Progress, LoopEnd, halted, finished, run_steps, step_result}

abbrev pub first_error : List StepResult → Option Text
first_error [] = none
first_error (r ∷ rs) = if not r.succeeded then r.error else first_error rs

abbrev pub all_succeeded : List StepResult → Bool
all_succeeded rs = all (λ r. r.succeeded) rs

module _ {S : Type 0} (env : Environment S) (services : Services S) where
  unfoldable pub finish : RunStatus → Narrative → ℕ → Act S (Unit {0})
  finish s n cost w = (ok tt, record w { status = s; final_narrative = some n; cost_usd = cost })

  unfoldable pub send_final : Narrative → List Text → Act S (Unit {0})
  send_final n files w =
      continue (λ _ w'. (ok tt, record w' { sent = w'.sent ++ (n, files) ∷ [] }))
        (services.send_final n files, w)

  -- `finish`, and then `sendFinal`
  abbrev pub deliver : RunStatus → Narrative → List Text → ℕ → Act S (Unit {0})
  deliver s n files cost = finish s n cost >> send_final n files

  abbrev pub save_plan : Plan → Act S (Unit {0})
  save_plan p w = (ok tt, record w { plan = some p })

  -- An empty plan: a gap in the skills of a task to be done, or a conversation
  abbrev pub is_genuine_gap : Intent → Plan → Bool
  is_genuine_gap intent plan =
      text_eq plan.summary (text "no-skill-gap") && not intent.is_question && not intent.is_trivial

  abbrev pub answer_empty : Intent → Plan → Act S (Unit {0})
  answer_empty intent plan =
      lift (
        if is_genuine_gap intent plan
        then services.draft_skill intent.summary
        else services.answer_directly plan)
      >>= λ t. deliver completed (reply t) [] 0

  abbrev pub show_plan : Intent → Plan → Act S (Unit {0})
  show_plan intent plan = if intent.is_trivial then lift (ok tt) else lift (services.send_plan plan)

  -- Whether the critique's pass runs a failed step again: never a destructive one
  abbrev pub is_retried : PlanStep → StepResult → Bool
  is_retried step r =
      not r.succeeded
      && not step.optional
      && not step.destructive
      && elim (lookup step.skill env.skills) [ none ↦ false | some s ↦ s.available ]

  abbrev pub run_again : PlanStep → Act S StepResult
  run_again step w =
      let (r, s) = run_skill env services.run_id step.skill step.input none w.skills in
      (ok (step_result services.message_of r), record w { skills = s })

  abbrev pub retry_one : PlanStep → StepResult → Act S StepResult
  retry_one step r = if is_retried step r then run_again step else lift (ok r)

  unfoldable pub retry : List PlanStep → List StepResult → Act S (List StepResult)
  retry (step ∷ steps) (r ∷ rs) = do
    again ← retry_one step r
    rest ← retry steps rs
    lift (ok (again ∷ rest))
  retry _ rs = lift (ok rs)

  abbrev pub is_workflow_only : Plan → Bool
  is_workflow_only plan = all (λ step. services.has_workflow step.skill) plan.steps

  abbrev pub revise : Plan → List StepResult → Act S (List StepResult)
  revise plan rs =
      if is_workflow_only plan
      then lift (ok rs)
      else lift (services.needs_revision rs) >>= λ needed.
          if needed then retry plan.steps rs else lift (ok rs)

  abbrev pub workflow_narrative : Progress → List StepResult → Narrative
  workflow_narrative p rs = elim p.summaries [
    | [] ↦ workflow_failed (first_error rs)
    | s ∷ ss ↦ workflow_summaries (s ∷ ss)
  ]

  abbrev pub narrative_of : Plan → Progress → List StepResult → Result AgentError Narrative
  narrative_of plan p rs =
      if is_workflow_only plan
      then ok (workflow_narrative p rs)
      else elim (services.narrate rs) [ ok t ↦ ok (narrated t) | err e ↦ err e ]

  abbrev pub status_of : List StepResult → RunStatus
  status_of rs = if all_succeeded rs then completed else failed

  -- From the end of the loop on
  unfoldable pub conclude : Plan → LoopEnd → Act S (Unit {0})
  conclude plan (halted n cost) = deliver completed n [] cost
  conclude plan (finished p) = do
    rs ← revise plan p.results
    n ← lift (narrative_of plan p rs)
    deliver (status_of rs) n p.attachments p.cost

  -- From the plan on
  unfoldable pub carry_out : Intent → Plan → List PlanStep → Act S (Unit {0})
  carry_out intent plan [] = answer_empty intent plan
  carry_out intent plan (step ∷ steps) = do
    show_plan intent plan
    end ← run_steps env services (step ∷ steps) 0
    conclude plan end

  -- The `try`
  unfoldable pub attempt : Act S (Unit {0})
  attempt = do
    intent ← lift services.classify
    plan ← lift (services.make_plan intent)
    save_plan plan
    carry_out intent plan plan.steps

  -- The `catch`, which ignores an error of the gateway
  abbrev pub recover : Result AgentError (Unit {0}) × Run S → Run S
  recover (ok u, w) = w
  recover (err e, w) = (deliver failed (run_failed e) [] 0 w).1

  unfoldable pub run_agent : Run S → Run S
  run_agent w = recover (attempt w)
