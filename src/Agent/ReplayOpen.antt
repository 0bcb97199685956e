-- ===== src/Agent/ReplayOpen.antt =====
-- The row of `replayRun` of agent/executor.ts while the loop over the steps goes on.
use dymaxion.Prelude.{
  ℕ, ◌+◌, ◌≡◌, refl, text, Option, none, some, Bool, true, false, ◌&&◌, if◌then◌else◌, List, [],
  ◌∷◌, Result, ok, err,
}
use dymaxion.Prelude.Stateful.{continue, lift}
use dymaxion.Skills.World.{Environment}
use dymaxion.Skills.Steps.{workflow, is_kind, StepApprovalResolution}
use dymaxion.Agent.Types.{PlanStep, AgentError, awaiting_approval, Run, Act, Services}
use dymaxion.Agent.Steps.{
  Permission, permitted, denied, LoopEnd, Contribution, create_request, ask, seek, perform_workflow,
  perform_skill,
}
use dymaxion.Agent.Ending.{is_over}
use dymaxion.Agent.Replay.{
  StoredStep, as_step, permit_again, go_on_again, run_again_permitted, replay_steps,
}

-- A row of a run that has not ended
abbrev pub IsOpen : {S : Type 0} → Run S → Type 0
IsOpen w = (is_over w.status ≡ false) × (w.final_narrative ≡ none)

module _ {S : Type 0} (env : Environment S) (services : Services S) where
  continue-IsOpen :
      {A B : Type 0} (f : A → Act S B) (x : Result AgentError A × Run S)
      → IsOpen x.1
      → ((a : A) (w : Run S) → IsOpen w → IsOpen (f a w).1)
      → IsOpen (continue f x).1
  continue-IsOpen f (ok a, w) h k = k a w h
  continue-IsOpen f (err e, w) h k = h

  either-IsOpen :
      {B : Type 0} (b : Bool) (x y : Act S B) (w : Run S)
      → IsOpen (x w).1
      → IsOpen (y w).1
      → IsOpen ((if b then x else y) w).1
  either-IsOpen true x y w h k = h
  either-IsOpen false x y w h k = k

  seek-IsOpen :
      (step : PlanStep) (a : Option StepApprovalResolution) (w : Run S)
      → IsOpen w
      → IsOpen (seek env services step a w).1
  unfolding create_request ask
  seek-IsOpen step none w h = h
  seek-IsOpen step (some a) w h =
      continue-IsOpen _ (create_request env services step a w) h λ q w₁ h₁.
        let waiting = record w₁ { status = awaiting_approval } in
        continue-IsOpen _ (ask env services q waiting) (refl, h₁.1) λ answer w₂ h₂. (refl, h₂.1)

  permit_again-IsOpen :
      (step : PlanStep) (w : Run S) → IsOpen w → IsOpen (permit_again env services step w).1
  permit_again-IsOpen step w h = continue-IsOpen _ (lift _ w) h (seek-IsOpen step)

  -- The steps that come next
  abbrev pub KeepsOpen : (ℕ → Act S LoopEnd) → Type 0
  KeepsOpen next = (cost : ℕ) (w : Run S) → IsOpen w → IsOpen (next cost w).1

  go_on_again-IsOpen :
      (next : ℕ → Act S LoopEnd) (cost : ℕ) (c : Contribution) (w : Run S)
      → KeepsOpen next
      → IsOpen w
      → IsOpen (go_on_again env services next cost c w).1
  go_on_again-IsOpen next cost c w k h =
      either-IsOpen c.result.succeeded _ _ w
        (continue-IsOpen _ (next (cost + c.result.cost_usd) w) (k _ w h) λ end w₁ h₁. h₁) h

  run_again_permitted-IsOpen :
      (next : ℕ → Act S LoopEnd) (step : PlanStep) (cost : ℕ) (p : Permission) (w : Run S)
      → KeepsOpen next
      → IsOpen w
      → IsOpen (run_again_permitted env services next step cost p w).1
  run_again_permitted-IsOpen next step cost (denied n) w k h = h
  run_again_permitted-IsOpen next step cost (permitted request) w k h =
      continue-IsOpen (go_on_again env services next cost)
        (perform_skill env services step request w) h
        λ c w₁ h₁. go_on_again-IsOpen next cost c w₁ k h₁

  pub replay_steps-IsOpen : (ss : List StoredStep) → KeepsOpen (replay_steps env services ss)
  unfolding replay_steps
  replay_steps-IsOpen [] cost w h = h
  replay_steps-IsOpen (s ∷ ss) cost w h =
      let next = replay_steps env services ss in
      let k = replay_steps-IsOpen ss in
      either-IsOpen (is_kind workflow s.kind && services.has_workflow s.skill) _ _ w
        (continue-IsOpen (go_on_again env services next cost)
          (perform_workflow env services (text "workflow replay input or execution was rejected")
            (as_step s) w)
          (refl, h.1) λ c w₁ h₁. go_on_again-IsOpen next cost c w₁ k h₁)
        (continue-IsOpen (run_again_permitted env services next (as_step s) cost)
          (permit_again env services (as_step s) w) (permit_again-IsOpen (as_step s) w h)
          λ p w₁ h₁. run_again_permitted-IsOpen next (as_step s) cost p w₁ k h₁)
