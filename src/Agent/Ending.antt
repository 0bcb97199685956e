-- ===== src/Agent/Ending.antt =====
-- How the runs of agent/executor.ts end.
use dymaxion.Prelude.{
  Text, ℕ, ◌≡◌, refl, ap, ◌∙◌, Bool, true, false, if◌then◌else◌, List, [], ◌∷◌, Result, ok, err,
  arith,
}
use dymaxion.Prelude.Stateful.{continue, lift}
use dymaxion.Skills.World.{Environment}
use dymaxion.Agent.Types.{
  PlanStep, Plan, Intent, AgentError, StepResult, Narrative, reply, run_failed, RunStatus,
  completed, failed, Run, Act, Services,
}
use dymaxion.Agent.Steps.{LoopEnd, halted, finished, run_steps}
use dymaxion.Agent.Run.{
  finish, send_final, deliver, carry_out, conclude, attempt, recover, run_agent, status_of, revise,
  narrative_of, is_genuine_gap, show_plan, save_plan,
}

abbrev pub is_over : RunStatus → Bool
is_over completed = true
is_over failed = true
is_over _ = false

module _ {S : Type 0} (env : Environment S) (services : Services S) where
  -- An action that comes back leaves a run that is over.
  abbrev IsOver : Result AgentError (Unit {0}) × Run S → Type 0
  IsOver (ok a, w) = is_over w.status ≡ true
  IsOver (err e, w) = Unit {0}

  continue-IsOver :
      {A : Type 0} (f : A → Act S (Unit {0})) (x : Result AgentError A × Run S)
      → ((a : A) (w : Run S) → IsOver (f a w))
      → IsOver (continue f x)
  continue-IsOver f (ok a, w) k = k a w
  continue-IsOver f (err e, w) k = tt

  pub deliver-status :
      (s : RunStatus) (n : Narrative) (files : List Text) (cost : ℕ) (w : Run S)
      → (deliver env services s n files cost w).1.status ≡ s
  unfolding finish send_final
  deliver-status s n files cost w = ground arith

  deliver-IsOver :
      (s : RunStatus) (n : Narrative) (files : List Text) (cost : ℕ) (w : Run S)
      → is_over s ≡ true
      → IsOver (deliver env services s n files cost w)
  deliver-IsOver s n files cost w h =
      go (deliver env services s n files cost w) (ap is_over (deliver-status s n files cost w) ∙ h)
    where
      go : (x : Result AgentError (Unit {0}) × Run S) → is_over x.1.status ≡ true → IsOver x
      go (ok a, w') e = e
      go (err t, w') e = tt

  pub status_of-over : (rs : List StepResult) → is_over (status_of env services rs) ≡ true
  status_of-over rs = ground arith

  conclude-IsOver :
      (plan : Plan) (end : LoopEnd) (w : Run S) → IsOver (conclude env services plan end w)
  unfolding conclude
  conclude-IsOver plan (halted n cost) w = deliver-IsOver completed n [] cost w refl
  conclude-IsOver plan (finished p) w =
      continue-IsOver _ (revise env services plan p.results w) λ rs w₁.
        continue-IsOver _ (lift (narrative_of env services plan p rs) w₁) λ n w₂.
          deliver-IsOver (status_of env services rs) n p.attachments p.cost w₂ (status_of-over rs)

  carry_out-IsOver :
      (intent : Intent) (plan : Plan) (steps : List PlanStep) (w : Run S)
      → IsOver (carry_out env services intent plan steps w)
  unfolding carry_out
  carry_out-IsOver intent plan [] w =
      continue-IsOver _
        (lift
          (if is_genuine_gap env services intent plan
            then services.draft_skill intent.summary
            else services.answer_directly plan)
          w)
        λ t w₁. deliver-IsOver completed (reply t) [] 0 w₁ refl
  carry_out-IsOver intent plan (step ∷ steps) w =
      continue-IsOver _ (show_plan env services intent plan w) λ u w₁.
        continue-IsOver _ (run_steps env services (step ∷ steps) 0 w₁)
          λ end w₂. conclude-IsOver plan end w₂

  attempt-IsOver : (w : Run S) → IsOver (attempt env services w)
  unfolding attempt
  attempt-IsOver w = continue-IsOver _ (lift services.classify w) λ intent w₁.
      continue-IsOver _ (lift (services.make_plan intent) w₁) λ plan w₂.
        continue-IsOver _ (save_plan env services plan w₂)
          λ u w₃. carry_out-IsOver intent plan plan.steps w₃

  recover-over :
      (x : Result AgentError (Unit {0}) × Run S)
      → IsOver x
      → is_over (recover env services x).status ≡ true
  recover-over (ok u, w) h = h
  recover-over (err e, w) h = ap is_over (deliver-status failed (run_failed e) [] 0 w)

  -- Whatever the models, the gateway, the approvers, the workflows and the skills do, throwing at
  -- any point included, a run of the agent is `completed` or `failed` when `runAgent` returns, and
  -- neither `running` nor `awaiting_approval`.
  pub run_agent_over : (w : Run S) → is_over (run_agent env services w).status ≡ true
  unfolding run_agent
  run_agent_over w = recover-over (attempt env services w) (attempt-IsOver w)
