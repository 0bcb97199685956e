-- ===== src/Agent/Replay.antt =====
-- `replayRun` of agent/executor.ts: a stored plan is run again, under a row of its own.
use dymaxion.Prelude.{
  ℕ, ◌+◌, Text, text, Option, none, some, Bool, false, ◌&&◌, if◌then◌else◌, List, [], ◌∷◌, ◌++◌,
  map, Result, ok, err, length,
}
use dymaxion.Prelude.Stateful.{◌>>=◌, lift}
use dymaxion.Canonical.{Json}
use dymaxion.Skills.Types.{SkillError}
use dymaxion.Skills.World.{World, Environment}
use dymaxion.Skills.Steps.{
  ReplayStepKind, workflow, is_kind, ReplayStepIdentity, Registries, create_replay,
  resolve_step_approval,
}
use dymaxion.Agent.Types.{
  PlanStep, AgentError, step_refused, run_not_found, no_replayable_plan, StepResult, Narrative,
  workflow_summaries, replay_summary, running, completed, Run, Act, Services,
}
use dymaxion.Agent.Steps.{
  Permission, permitted, denied, Progress, LoopEnd, halted, finished, nothing_done, Contribution,
  add, step_error, seek, perform_workflow, perform_skill,
}
use dymaxion.Agent.Run.{status_of, deliver}

pub record StoredStep : Type 0 where
  pub skill : Text
  pub kind : Option ReplayStepKind
  pub description : Text
  pub input : Json
  pub destructive : Bool

abbrev pub identity : StoredStep → ReplayStepIdentity
identity s = record { skill = s.skill; kind = s.kind }

-- The step as the approval's request shows it
abbrev pub as_step : StoredStep → PlanStep
as_step s = record {
  skill = s.skill;
  is_workflow = is_kind workflow s.kind;
  description = text "Replay: " ++ s.description;
  input = s.input;
  destructive = s.destructive;
  optional = false;
}

abbrev pub count_succeeded : List StepResult → ℕ
count_succeeded [] = 0
count_succeeded (r ∷ rs) = (if r.succeeded then 1 else 0) + count_succeeded rs

module _ {S : Type 0} (env : Environment S) (services : Services S) where
  abbrev pub permit_again : PlanStep → Act S Permission
  permit_again step =
      lift (
        step_error env services (
          resolve_step_approval env
            (record { skill = step.skill; input = step.input; destructive = step.destructive })))
      >>= seek env services step

  -- The loop goes on behind a step that succeeded.
  abbrev pub go_on_again : (ℕ → Act S LoopEnd) → ℕ → Contribution → Act S LoopEnd
  go_on_again next cost c =
      if c.result.succeeded
      then (next (cost + c.result.cost_usd) >>= λ end. lift (ok (add c end)))
      else lift (ok (add c (finished (nothing_done (cost + c.result.cost_usd)))))

  abbrev pub run_again_permitted : (ℕ → Act S LoopEnd) → PlanStep → ℕ → Permission → Act S LoopEnd
  run_again_permitted next step cost (denied n) = lift (ok (finished (nothing_done cost)))
  run_again_permitted next step cost (permitted request) =
      perform_skill env services step request >>= go_on_again next cost

  unfoldable pub replay_steps : List StoredStep → ℕ → Act S LoopEnd
  replay_steps [] cost = lift (ok (finished (nothing_done cost)))
  replay_steps (s ∷ ss) cost =
      let next = replay_steps ss in
      let step = as_step s in
      if is_kind workflow s.kind && services.has_workflow s.skill
      then perform_workflow env services (text "workflow replay input or execution was rejected")
          step
        >>= go_on_again next cost
      else permit_again step >>= run_again_permitted next step cost

  abbrev pub replay_narrative : ℕ → Progress → Narrative
  replay_narrative total p = elim p.summaries [
    | [] ↦ replay_summary (count_succeeded p.results) total
    | t ∷ ts ↦ workflow_summaries (t ∷ ts)
  ]

  abbrev pub conclude_replay : ℕ → LoopEnd → Act S (Unit {0})
  conclude_replay total (halted n cost) = deliver env services completed n [] cost
  conclude_replay total (finished p) =
      deliver env services (status_of env services p.results) (replay_narrative total p)
        p.attachments p.cost

  -- From the new row on. Nothing here catches what is thrown.
  unfoldable pub replay_body : List StoredStep → Act S (Unit {0})
  replay_body steps = replay_steps steps 0 >>= conclude_replay (length steps)

  abbrev pub new_row : World S → Run S
  new_row w = record {
    skills = w;
    status = running;
    final_narrative = none;
    cost_usd = 0;
    plan = none;
    sent = [];
  }

  -- What has become of the replay: what it returned or threw, and the row, if one was made
  abbrev pub start_replay :
      List StoredStep
      → Result SkillError (Run S) × World S
      → Result AgentError (Unit {0}) × Option (Run S)
  start_replay steps (err e, w) = (err (step_refused e), none)
  start_replay steps (ok row, w) = let (r, row') = replay_body steps row in (r, some row')

  unfoldable pub replay_run :
      Registries
      → Option (List StoredStep)
      → World S
      → Result AgentError (Unit {0}) × Option (Run S)
  replay_run g none w = (err run_not_found, none)
  replay_run g (some []) w = (err no_replayable_plan, none)
  replay_run g (some (s ∷ ss)) w =
      start_replay (s ∷ ss) (create_replay g (map identity (s ∷ ss)) (λ v. (ok (new_row v), v)) w)
