-- ===== src/Llm/Config.antt =====
-- The parts of config/loader.ts that the model calls read, and llm/routing.ts.
use dymaxion.Prelude.{ℕ, Text, Option, get_or_else, or_else, bind, Bool, List, [], lookup}

pub record ProviderConfig : Type 0 where
  pub enabled : Bool
  pub base_url : Option Text

pub record RetryPolicy : Type 0 where
  pub default_num_retries : Option ℕ
  pub default_retry_after_seconds : Option ℕ

pub record RoutingConfig : Type 0 where
  pub default_model : Text  -- `default`
  pub by_skill_class : List (Text × Text)
  pub by_skill_slug : List (Text × Text)
  pub fallbacks : List (Text × List Text)
  pub retry_policy : Option RetryPolicy

-- Amounts of money are whole ten-thousandths of a US dollar.
pub record BudgetTier : Type 0 where
  pub max_usd_per_month : ℕ
  pub allowed_providers : List Text
  pub allowed_models : List Text

pub record BudgetsConfig : Type 0 where
  pub budgets : List (Text × BudgetTier)
  pub default_tier : Text
  pub tier_by_skill_class : List (Text × Text)

pub record Config : Type 0 where
  pub providers : List (Text × ProviderConfig)
  pub routing : RoutingConfig
  pub budgets : BudgetsConfig
  pub denied_hostnames : List Text

pub record RouteResolution : Type 0 where
  pub primary : Text
  pub fallbacks : List Text
  pub retries : ℕ
  pub retry_after_seconds : ℕ

unfoldable pub route_for : RoutingConfig → Text → Text → Option Text → RouteResolution
route_for routing skill_slug skill_class llm_override =
    let primary =
      get_or_else
        (or_else (lookup skill_slug routing.by_skill_slug)
          (or_else llm_override (lookup skill_class routing.by_skill_class)))
        routing.default_model in
    record {
      primary = primary;
      fallbacks = get_or_else (lookup primary routing.fallbacks) [];
      retries = get_or_else (bind routing.retry_policy (λ p. p.default_num_retries)) 3;
      retry_after_seconds =
          get_or_else (bind routing.retry_policy (λ p. p.default_retry_after_seconds)) 2;
    }

unfoldable pub tier_for_skill_class : BudgetsConfig → Text → Text
tier_for_skill_class budgets skill_class =
    get_or_else (lookup skill_class budgets.tier_by_skill_class) budgets.default_tier
