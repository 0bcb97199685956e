-- ===== src/Agent/Types.antt =====
-- The plan and its results (gateways/common.ts), the row of `agent_runs`, and what agent/executor.ts
-- calls.
use dymaxion.Prelude.{ℕ, Text, Option, Bool, List, Result}
use dymaxion.Prelude.Stateful.{Stateful}
use dymaxion.Canonical.{Json}
use dymaxion.Approval.Types.{ApprovalRequest, ApprovalResponse, ApprovalDecision}
use dymaxion.Approval.Requests.{ApprovalError}
use dymaxion.Skills.Types.{SkillError}
use dymaxion.Skills.World.{World}

pub record PlanStep : Type 0 where
  pub skill : Text
  pub is_workflow : Bool  -- `kind === 'workflow'`
  pub description : Text
  pub input : Json
  pub destructive : Bool
  pub optional : Bool

pub record Plan : Type 0 where
  pub summary : Text
  pub steps : List PlanStep

pub record Intent : Type 0 where
  pub is_trivial : Bool  -- `complexity === 'trivial'`
  pub is_question : Bool
  pub summary : Text

pub data AgentError : Type 0 where
  registry_mismatch run_not_found no_replayable_plan : AgentError
  step_refused : SkillError → AgentError
  request_refused : ApprovalError → AgentError
  thrown : Text → AgentError  -- what a service throws

pub record StepResult : Type 0 where
  pub succeeded : Bool  -- `ok`
  pub output : Option Json
  pub error : Option Text
  pub cost_usd : ℕ

-- The texts that a run may end with
pub data Narrative : Type 0 where
  reply : Text → Narrative
  stopped : (step : Text) (decision : ApprovalDecision) (decided_by : Text) → Narrative
  workflow_summaries : List Text → Narrative
  workflow_failed : Option Text → Narrative
  narrated : Text → Narrative
  run_failed : AgentError → Narrative
  replay_summary : (succeeded total : ℕ) → Narrative

pub data RunStatus : Type 0 where
  running awaiting_approval completed failed : RunStatus

-- The run's row, and the final messages with their attachments, over the state of the skills.
pub record Run (S : Type 0) : Type 0 where
  pub skills : World S
  pub status : RunStatus
  pub final_narrative : Option Narrative
  pub cost_usd : ℕ
  pub plan : Option Plan
  pub sent : List (Narrative × List Text)

abbrev pub Act : Type 0 → Type 0 → Type 0
Act S A = Stateful (Run S) AgentError A

-- `execution` of a workflow, its output checked: the output, the summary and the deliveries
pub record WorkflowExecution : Type 0 where
  pub output : Json
  pub summary : Text
  pub deliveries : List Text

-- The language models, the gateway and the workflows. Each may throw; an answer to an approval
-- request, by the gateway or by `awaitDecision` in its place, and a workflow may change the state.
pub record Services (S : Type 0) : Type 0 where
  pub run_id : Text
  pub now : ℕ
  pub timeout_minutes : ℕ
  pub new_id : World S → Text
  pub classify : Result AgentError Intent
  pub make_plan : Intent → Result AgentError Plan
  pub answer_directly : Plan → Result AgentError Text
  pub draft_skill : Text → Result AgentError Text
  pub should_attempt_authoring : Text → Bool
  pub send_plan : Plan → Result AgentError (Unit {0})
  pub send_progress : PlanStep → StepResult → Result AgentError (Unit {0})
  pub send_final : Narrative → List Text → Result AgentError (Unit {0})
  pub ask : ApprovalRequest → World S → Result AgentError ApprovalResponse × World S
  pub has_workflow : Text → Bool
  pub has_skill : Text → Bool
  pub run_workflow : Text → Json → World S → Result AgentError WorkflowExecution × World S
  pub needs_revision : List StepResult → Result AgentError Bool
  pub narrate : List StepResult → Result AgentError Text
  pub message_of : SkillError → Text
