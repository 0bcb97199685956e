-- ===== src/Llm/Rounding.antt =====
-- What the ledger of llm/budget.ts loses by rounding each cost, and what llm/middleware.ts estimates.
use dymaxion.Prelude.{ℕ, ◌<◌, ◌≡◌, refl, ◌∙◌, Text, some, List, [], ◌∷◌, arith, lookup}
use dymaxion.Llm.Config.{BudgetTier, BudgetsConfig}
use dymaxion.Llm.Cost.{to_fixed4}
use dymaxion.Llm.World.{World}
use dymaxion.Llm.Budget.{accrue_cost}
use dymaxion.Llm.Ledger.{spent, accrue_cost-charges}
use dymaxion.Llm.Middleware.{LlmCallRequest, estimated_tokens}

-- Costs under half a ten-thousandth of a dollar.
abbrev pub AllSmall : List ℕ → Type 0
AllSmall [] = Unit {0}
AllSmall (c ∷ cs) = (c < 5000) × AllSmall cs

small-to_fixed4 : (c : ℕ) → c < 5000 → to_fixed4 c ≡ 0
unfolding to_fixed4
small-to_fixed4 c h = omega arith

module _ (budgets : BudgetsConfig) (month : Text) where
  abbrev pub accrue_all : Text → List ℕ → World → World
  accrue_all tier [] w = w
  accrue_all tier (c ∷ cs) w = accrue_all tier cs (accrue_cost budgets month tier c w).1

  -- However many calls are accrued, if each costs less than half a ten-thousandth of a dollar, the
  -- tier has spent afterwards what it had spent before.
  pub accrue_all_small :
      (tier : Text) (cfg : BudgetTier) (costs : List ℕ) (w : World)
      → lookup tier budgets.budgets ≡ some cfg
      → AllSmall costs
      → spent tier month (accrue_all tier costs w) ≡ spent tier month w
  accrue_all_small tier cfg [] w known small = refl
  accrue_all_small tier cfg (c ∷ cs) w known small =
      let (charged, _) = accrue_cost-charges budgets month tier cfg c w known in
      accrue_all_small tier cfg cs (accrue_cost budgets month tier c w).1 known small.1
      ∙ omega (arith, charged, small-to_fixed4 c small.0)

-- The estimate of the tokens in `auditPreCall` does not depend on the prompt of a request that has
-- a system text.
pub estimated_tokens-prompt :
    (req : LlmCallRequest) (system prompt : Text)
    → req.system ≡ some system
    → estimated_tokens (record req { prompt = prompt }) ≡ estimated_tokens req
unfolding estimated_tokens
estimated_tokens-prompt req system prompt h = rw (estimated_tokens, h) refl
