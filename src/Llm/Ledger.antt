-- ===== src/Llm/Ledger.antt =====
-- The rows of `budget_ledger` under the statements of llm/budget.ts.
use dymaxion.Prelude.{
  ℕ, ◌+◌, ◌≡◌, refl, leb, Text, text_eq_refl, is_none, some, Bool, true, false, ◌||◌, List, [], ◌∷◌,
  ok, arith, lookup,
}
use dymaxion.Llm.Config.{BudgetTier, BudgetsConfig}
use dymaxion.Llm.Cost.{to_fixed4}
use dymaxion.Llm.World.{World, LedgerRow}
use dymaxion.Llm.Budget.{
  BudgetStatus, find_row, spent_of, frozen_of, add_cost, set_frozen, budget_status, accrue_cost,
  status_of, freeze_spent,
}

module _ (tier month : Text) where
  spent_of-add_cost :
      (cost : ℕ) (rows : List LedgerRow)
      → spent_of (find_row tier month (add_cost tier month cost rows))
        ≡ spent_of (find_row tier month rows) + cost
  unfolding find_row add_cost
  spent_of-add_cost cost [] = ground (arith, text_eq_refl tier, text_eq_refl month)
  spent_of-add_cost cost (r ∷ rs) = ground (arith, spent_of-add_cost cost rs)

  frozen_of-add_cost :
      (cost : ℕ) (rows : List LedgerRow)
      → frozen_of (find_row tier month (add_cost tier month cost rows))
        ≡ frozen_of (find_row tier month rows)
  unfolding find_row add_cost
  frozen_of-add_cost cost [] = ground (arith, text_eq_refl tier, text_eq_refl month)
  frozen_of-add_cost cost (r ∷ rs) = ground (arith, frozen_of-add_cost cost rs)

  is_none-add_cost :
      (cost : ℕ) (rows : List LedgerRow)
      → is_none (find_row tier month (add_cost tier month cost rows)) ≡ false
  unfolding find_row add_cost
  is_none-add_cost cost [] = ground (arith, text_eq_refl tier, text_eq_refl month)
  is_none-add_cost cost (r ∷ rs) = ground (arith, is_none-add_cost cost rs)

  spent_of-set_frozen :
      (b : Bool) (rows : List LedgerRow)
      → spent_of (find_row tier month (set_frozen tier month b rows))
        ≡ spent_of (find_row tier month rows)
  unfolding find_row set_frozen
  spent_of-set_frozen b [] = refl
  spent_of-set_frozen b (r ∷ rs) = ground (arith, spent_of-set_frozen b rs)

  frozen_of-set_frozen :
      (b : Bool) (rows : List LedgerRow)
      → is_none (find_row tier month rows) ≡ false
      → frozen_of (find_row tier month (set_frozen tier month b rows)) ≡ b
  unfolding find_row set_frozen
  frozen_of-set_frozen b [] h = absurd (cc)
  frozen_of-set_frozen b (r ∷ rs) h = ground (arith, frozen_of-set_frozen b rs)

-- What a tier has spent in the month, and whether it is frozen.
abbrev pub spent : Text → Text → World → ℕ
spent tier month w = spent_of (find_row tier month w.ledger)

abbrev pub frozen : Text → Text → World → Bool
frozen tier month w = frozen_of (find_row tier month w.ledger)

module _ (budgets : BudgetsConfig) (month : Text) where
  budget_status_known :
      (tier : Text) (cfg : BudgetTier) (w : World)
      → lookup tier budgets.budgets ≡ some cfg
      → budget_status budgets month tier w
        ≡ (ok (status_of tier cfg (find_row tier month w.ledger)), w)
  unfolding budget_status
  budget_status_known tier cfg w known = rw (budget_status, known) refl

  accrue_cost_known :
      (tier : Text) (cfg : BudgetTier) (cost : ℕ) (w : World)
      → lookup tier budgets.budgets ≡ some cfg
      → let rows = add_cost tier month (to_fixed4 cost) w.ledger in
        accrue_cost budgets month tier cost w
        ≡ freeze_spent budgets month tier
            (status_of tier cfg (find_row tier month rows))
            (record w { ledger = rows })
  unfolding accrue_cost
  accrue_cost_known tier cfg cost w known =
      let rows = add_cost tier month (to_fixed4 cost) w.ledger in
      rw (accrue_cost, budget_status_known tier cfg (record w { ledger = rows }) known) refl

  freeze_spent_ok :
      (tier : Text) (s : BudgetStatus) (w : World) → (freeze_spent budgets month tier s w).0 ≡ ok s
  freeze_spent_ok tier s w = ground arith

  pub accrue_cost_ok :
      (tier : Text) (cfg : BudgetTier) (cost : ℕ) (w : World)
      → lookup tier budgets.budgets ≡ some cfg
      → (s : BudgetStatus) × ((accrue_cost budgets month tier cost w).0 ≡ ok s)
  accrue_cost_ok tier cfg cost w known =
      let rows = add_cost tier month (to_fixed4 cost) w.ledger in
      let s = status_of tier cfg (find_row tier month rows) in
      (
        s,
        rw (accrue_cost_known tier cfg cost w known)
            (freeze_spent_ok tier s (record w { ledger = rows })),
      )

  -- `accrueCost` for a configured tier adds the cost, rounded to a ten-thousandth of a dollar, to
  -- what the tier has spent, and from then on the tier is frozen exactly if it was or if its
  -- spending has reached the cap.
  pub accrue_cost-charges :
      (tier : Text) (cfg : BudgetTier) (cost : ℕ) (w : World)
      → lookup tier budgets.budgets ≡ some cfg
      → let w' = (accrue_cost budgets month tier cost w).1 in
        (spent tier month w' ≡ spent tier month w + to_fixed4 cost)
        × (frozen tier month w'
            ≡ (frozen tier month w || leb cfg.max_usd_per_month (spent tier month w')))
  accrue_cost-charges tier cfg cost w known =
      let c = to_fixed4 cost in
      let rows = add_cost tier month c w.ledger in
      rw (accrue_cost_known tier cfg cost w known) (
        ground (
          arith,
          spent_of-add_cost tier month c w.ledger,
          frozen_of-add_cost tier month c w.ledger,
          is_none-add_cost tier month c w.ledger,
          spent_of-set_frozen tier month true rows,
          frozen_of-set_frozen tier month true rows,
        ))
