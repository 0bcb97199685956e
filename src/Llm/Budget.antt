-- ===== src/Llm/Budget.antt =====
-- llm/budget.ts. One call is within one month, which is an argument.
use dymaxion.Prelude.{
  ℕ, ◌+◌, ◌-◌, ◌==◌, Text, text_eq, Option, none, some, if◌then◌else◌, Bool, true, false, not, ◌&&◌,
  ◌||◌, List, [], ◌∷◌, ok, err, any, lookup,
}
use dymaxion.Llm.Config.{BudgetTier, BudgetsConfig}
use dymaxion.Llm.Cost.{to_fixed4}
use dymaxion.Llm.World.{
  Call, LedgerRow, unknown_tier, provider_not_allowed, model_not_allowed, budget_exceeded,
  budget_block, budget_frozen, return, throw, ◌>>=◌, ◌>>◌, audit_event,
}

pub record BudgetStatus : Type 0 where
  pub tier : Text
  pub cap_usd : ℕ
  pub spent_usd : ℕ
  pub remaining_usd : ℕ
  pub frozen : Bool

abbrev pub is_row : Text → Text → LedgerRow → Bool
is_row tier month r = text_eq r.tier tier && text_eq r.month month

-- The row that a `select` of a tier and a month returns
unfoldable pub find_row : Text → Text → List LedgerRow → Option LedgerRow
find_row tier month [] = none
find_row tier month (r ∷ rs) = elim (is_row tier month r) [
  | true ↦ some r
  | false ↦ find_row tier month rs
]

abbrev pub spent_of : Option LedgerRow → ℕ
spent_of none = 0
spent_of (some r) = r.spent_usd

abbrev pub frozen_of : Option LedgerRow → Bool
frozen_of none = false
frozen_of (some r) = r.frozen

abbrev pub status_of : Text → BudgetTier → Option LedgerRow → BudgetStatus
status_of tier cfg row = record {
  tier = tier;
  cap_usd = cfg.max_usd_per_month;
  spent_usd = spent_of row;
  remaining_usd = cfg.max_usd_per_month - spent_of row;
  frozen = frozen_of row;
}

-- `insert … on conflict do update`: the rows have one key each
unfoldable pub add_cost : Text → Text → ℕ → List LedgerRow → List LedgerRow
add_cost tier month cost [] =
    record { tier = tier; month = month; spent_usd = cost; frozen = false } ∷ []
add_cost tier month cost (r ∷ rs) = elim (is_row tier month r) [
  | true ↦ record r { spent_usd = r.spent_usd + cost } ∷ rs
  | false ↦ r ∷ add_cost tier month cost rs
]

-- `update … set frozen`
unfoldable pub set_frozen : Text → Text → Bool → List LedgerRow → List LedgerRow
set_frozen tier month frozen [] = []
set_frozen tier month frozen (r ∷ rs) = elim (is_row tier month r) [
  | true ↦ record r { frozen = frozen } ∷ set_frozen tier month frozen rs
  | false ↦ r ∷ set_frozen tier month frozen rs
]

abbrev pub over_ledger : (List LedgerRow → List LedgerRow) → Call (Unit {0})
over_ledger f w = (ok tt, record w { ledger = f w.ledger })

module _ (budgets : BudgetsConfig) (month : Text) where
  unfoldable pub budget_status : Text → Call BudgetStatus
  budget_status tier w = elim (lookup tier budgets.budgets) [
    | none ↦ (err unknown_tier, w)
    | some cfg ↦ (ok (status_of tier cfg (find_row tier month w.ledger)), w)
  ]

  -- `model.slice(model.indexOf(':') + 1)`, or the whole without a colon
  unfoldable pub after_colon : Text → Text → Text
  after_colon whole [] = whole
  after_colon whole (c ∷ s) = elim (c == b':') [ true ↦ s | false ↦ after_colon whole s ]

  abbrev pub bare_model : Text → Text
  bare_model model = after_colon model model

  abbrev pub includes : Text → List Text → Bool
  includes t ts = any (λ s. text_eq s t) ts

  abbrev pub is_spent : BudgetStatus → Bool
  is_spent s = s.frozen || (s.remaining_usd == 0)

  -- The last part of `checkBudget`
  abbrev pub refuse_spent : Text → BudgetStatus → Call (Unit {0})
  refuse_spent tier s =
      if is_spent s
      then audit_event (budget_block tier s.spent_usd s.cap_usd)
        >> throw (budget_exceeded tier s.spent_usd s.cap_usd)
      else return tt

  unfoldable pub check_budget : Text → Text → Text → Call (Unit {0})
  check_budget tier model provider = elim (lookup tier budgets.budgets) [
    | none ↦ throw unknown_tier
    | some cfg ↦
        if not (includes provider cfg.allowed_providers)
        then throw provider_not_allowed
        else if not (includes (bare_model model) cfg.allowed_models)
        then throw model_not_allowed
        else budget_status tier >>= refuse_spent tier
  ]

  -- The last part of `accrueCost`, which returns the status from before the freeze
  abbrev pub freeze_spent : Text → BudgetStatus → Call BudgetStatus
  freeze_spent tier s =
      if (s.remaining_usd == 0) && not s.frozen
      then over_ledger (set_frozen tier month true)
        >> audit_event (budget_frozen tier s.spent_usd)
        >> return s
      else return s

  unfoldable pub accrue_cost : Text → ℕ → Call BudgetStatus
  accrue_cost tier cost_usd =
      over_ledger (add_cost tier month (to_fixed4 cost_usd))
      >> budget_status tier
      >>= freeze_spent tier

  unfoldable pub unfreeze_tier : Text → Call (Unit {0})
  unfreeze_tier tier = over_ledger (set_frozen tier month false)
