-- ===== src/Agent/Outcome.antt =====
-- What the loop over the steps in `runAgent` of agent/executor.ts has done when it ends.
use dymaxion.Prelude.{
  ℕ, ◌+◌, ◌≡◌, refl, true, false, List, [], ◌∷◌, Result, ok, err, ◌⊎◌, inl, inr, Bool-cases, arith,
}
use dymaxion.Prelude.Stateful.{continue, lift}
use dymaxion.Skills.World.{Environment}
use dymaxion.Agent.Types.{PlanStep, AgentError, StepResult, Run, Act, Services}
use dymaxion.Agent.Steps.{
  LoopEnd, halted, finished, Contribution, add, is_fatal, draft_for, is_authorable, permit,
  Permission, permitted, denied, perform, go_on, run_permitted, run_steps,
}

abbrev pub total_cost : List StepResult → ℕ
total_cost [] = 0
total_cost (r ∷ rs) = r.cost_usd + total_cost rs

module _ {S : Type 0} (env : Environment S) (services : Services S) where
  -- The results of the steps in their order, up to the first fatal one or to the last.
  abbrev pub IsOutcome : List PlanStep → List StepResult → Type 0
  IsOutcome [] [] = Unit {0}
  IsOutcome [] (r ∷ rs) = true ≡ false
  IsOutcome (step ∷ steps) [] = true ≡ false
  IsOutcome (step ∷ steps) (r ∷ rs) =
      ((is_fatal env services step r ≡ true) × (rs ≡ []))
      ⊎ ((is_fatal env services step r ≡ false) × IsOutcome steps rs)

  -- A loop that was not halted by a denial or an error has such an outcome, and its cost.
  abbrev pub IsEnd : List PlanStep → ℕ → Result AgentError LoopEnd × Run S → Type 0
  IsEnd steps cost (ok (halted n c), w) = Unit {0}
  IsEnd steps cost (ok (finished p), w) =
      IsOutcome steps p.results × (p.cost ≡ cost + total_cost p.results)
  IsEnd steps cost (err e, w) = Unit {0}

  continue-IsEnd :
      {A : Type 0} (steps : List PlanStep) (cost : ℕ) (f : A → Act S LoopEnd)
      (x : Result AgentError A × Run S)
      → ((a : A) (w : Run S) → IsEnd steps cost (f a w))
      → IsEnd steps cost (continue f x)
  continue-IsEnd steps cost f (ok a, w) k = k a w
  continue-IsEnd steps cost f (err e, w) k = tt

  add-IsEnd :
      (step : PlanStep) (steps : List PlanStep) (cost : ℕ) (c : Contribution)
      (x : Result AgentError LoopEnd × Run S)
      → is_fatal env services step c.result ≡ false
      → IsEnd steps (cost + c.result.cost_usd) x
      → IsEnd (step ∷ steps) cost (continue (λ end. lift (ok (add c end))) x)
  add-IsEnd step steps cost c (ok (halted n d), w) mild h = tt
  add-IsEnd step steps cost c (ok (finished p), w) mild h = (inr (mild, h.0), omega (arith, h.1))
  add-IsEnd step steps cost c (err e, w) mild h = tt

  go_on-IsEnd :
      (next : ℕ → Act S LoopEnd) (step : PlanStep) (steps : List PlanStep) (cost : ℕ)
      (c : Contribution) (w : Run S)
      → ((d : ℕ) (w' : Run S) → IsEnd steps d (next d w'))
      → IsEnd (step ∷ steps) cost (go_on env services next step cost c w)
  go_on-IsEnd next step steps cost c w k = elim (Bool-cases (is_fatal env services step c.result)) [
    | inl fatal ↦ rw fatal (
        continue-IsEnd (step ∷ steps) cost _
          (draft_for env services step.description (is_authorable env services step c.result) w)
          λ u w'. (inl (fatal, refl), omega arith))
    | inr mild ↦ rw mild (
        add-IsEnd step steps cost c (next (cost + c.result.cost_usd) w) mild
          (k (cost + c.result.cost_usd) w))
  ]

  run_permitted-IsEnd :
      (next : ℕ → Act S LoopEnd) (step : PlanStep) (steps : List PlanStep) (cost : ℕ)
      (m : Permission) (w : Run S)
      → ((d : ℕ) (w' : Run S) → IsEnd steps d (next d w'))
      → IsEnd (step ∷ steps) cost (run_permitted env services next step cost m w)
  run_permitted-IsEnd next step steps cost (denied n) w k = tt
  run_permitted-IsEnd next step steps cost (permitted request) w k =
      continue-IsEnd (step ∷ steps) cost _ (perform env services step request w) λ c w₁.
        continue-IsEnd (step ∷ steps) cost _ (lift (services.send_progress step c.result) w₁)
          λ u w₂. go_on-IsEnd next step steps cost c w₂ k

  -- The loop over a plan's steps ends with a denial, with an error, or with one result for each
  -- step in the plan's order, up to the first that failed without being optional, or else for all
  -- of them; its cost is then the sum of the results' costs.
  pub run_steps-IsEnd :
      (steps : List PlanStep) (cost : ℕ) (w : Run S)
      → IsEnd steps cost (run_steps env services steps cost w)
  unfolding run_steps
  run_steps-IsEnd [] cost w = (tt, omega arith)
  run_steps-IsEnd (step ∷ steps) cost w =
      continue-IsEnd (step ∷ steps) cost _ (permit env services step w) λ m w₁.
        run_permitted-IsEnd (run_steps env services steps) step steps cost m w₁
          (run_steps-IsEnd steps)
