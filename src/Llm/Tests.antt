-- ===== src/Llm/Tests.antt =====
-- Calls of a configured model, for the definitions of dymaxion-runtime/src/llm.
use dymaxion.Prelude.{
  ◌+◌, ◌≡◌, refl, ◌||◌, leb, Text, text, text_eq, starts_with, is_ok, none, some, true, [], ◌∷◌, ok,
  lookup,
}
use dymaxion.Llm.Config.{Config, BudgetTier, tier_for_skill_class, route_for}
use dymaxion.Llm.Cost.{to_fixed4, compute_cost_usd, price_for}
use dymaxion.Llm.World.{World}
use dymaxion.Llm.Budget.{
  accrue_cost, check_budget, after_colon, budget_status, find_row, add_cost, set_frozen,
}
use dymaxion.Llm.Ledger.{spent, frozen, accrue_cost-charges}
use dymaxion.Llm.Middleware.{
  LlmCallRequest, Services, call_llm, try_chain, attempt, boundary_check, audit_pre_call,
  finish_call, settle_call, estimated_tokens,
}
use dymaxion.Llm.Charges.{IsSettled, call_llm-IsSettled}
use dymaxion.Llm.Providers.{split_colon, resolve_model}

abbrev sonnet : Text
sonnet = text "anthropic:claude-sonnet-5"

abbrev small_tier : BudgetTier
small_tier = record {
  max_usd_per_month = 1000;
  allowed_providers = text "anthropic" ∷ [];
  allowed_models = text "claude-sonnet-5" ∷ [];
}

abbrev config : Config
config = record {
  providers = (text "anthropic", record { enabled = true; base_url = none }) ∷ [];
  routing = record {
    default_model = sonnet;
    by_skill_class = [];
    by_skill_slug = [];
    fallbacks = [];
    retry_policy = none;
  };
  budgets = record {
    budgets = (text "dev", small_tier) ∷ [];
    default_tier = text "dev";
    tier_by_skill_class = [];
  };
  denied_hostnames = [];
}

abbrev services : Services
services = record {
  hostname = λ u. none;
  connect = λ p m. ok tt;
  generate = λ n m.
      ok (record { generated = text "hi"; input_tokens = some 1000; output_tokens = some 100 });
}

abbrev request : LlmCallRequest
request = record {
  skill_slug = text "plan";
  skill_class = text "planner";
  llm_override = none;
  system = some (text "be brief");
  prompt = text "list the layers";
}

abbrev november : Text
november = text "2026-11-01"

abbrev empty_world : World
empty_world = record { ledger = []; audit_log = [] }

cost_of_call : compute_cost_usd sonnet 1000 100 ≡ 450000
unfolding compute_cost_usd price_for starts_with lookup text_eq
cost_of_call = refl

dev_known : lookup (text "dev") config.budgets.budgets ≡ some small_tier
unfolding lookup text_eq
dev_known = refl

call_llm-IsSettled_example :
    IsSettled config november services
      (tier_for_skill_class config.budgets (text "planner"))
      []
      (call_llm config november services request empty_world)
call_llm-IsSettled_example = call_llm-IsSettled config november services request empty_world

accrue_cost-charges_example :
    (spent
        (text "dev")
        november
        (accrue_cost config.budgets november (text "dev") 450000 empty_world).1
      ≡ spent (text "dev") november empty_world + to_fixed4 450000)
    × (frozen
          (text "dev")
          november
          (accrue_cost config.budgets november (text "dev") 450000 empty_world).1
        ≡ (frozen (text "dev") november empty_world
            || leb 1000 (
                spent
                  (text "dev")
                  november
                  (accrue_cost config.budgets november (text "dev") 450000 empty_world).1)))
accrue_cost-charges_example =
    accrue_cost-charges config.budgets november (text "dev") small_tier 450000 empty_world dev_known

request_answered : is_ok (call_llm config november services request empty_world).0 ≡ true
unfolding call_llm try_chain attempt boundary_check split_colon route_for lookup text_eq
    check_budget tier_for_skill_class after_colon budget_status find_row resolve_model
    audit_pre_call finish_call settle_call accrue_cost add_cost set_frozen compute_cost_usd
    price_for to_fixed4 estimated_tokens starts_with
request_answered = refl
