-- ===== src/Llm/Middleware.antt =====
-- llm/middleware.ts: the chain of checks around each call of a model, and the fallbacks.
use dymaxion.Prelude.{
  ℕ, ◌+◌, ◌/◌, Text, Option, none, some, get_or_else, if◌then◌else◌, Bool, true, false, List, [],
  ◌∷◌, Result, ok, err, lookup, length,
}
use dymaxion.Boundary.Glob.{is_hostname_denied}
use dymaxion.Llm.Config.{Config, ProviderConfig, route_for, tier_for_skill_class}
use dymaxion.Llm.Cost.{compute_cost_usd}
use dymaxion.Llm.World.{
  World, Call, LlmError, denied_host, malformed_url, budget_exceeded, all_failed, no_attempt,
  llm_call_pre, llm_call_post, llm_call_failed, return, lift, ◌>>=◌, ◌>>◌, audit_event,
}
use dymaxion.Llm.Budget.{check_budget, accrue_cost}
use dymaxion.Llm.Providers.{split_model_ref, resolve_model}

pub record LlmCallRequest : Type 0 where
  pub skill_slug : Text
  pub skill_class : Text
  pub llm_override : Option Text
  pub system : Option Text
  pub prompt : Text

-- What the provider's call returns: the text and the usage, which may be missing
pub record Generation : Type 0 where
  pub generated : Text
  pub input_tokens : Option ℕ
  pub output_tokens : Option ℕ

pub record LlmCallResult : Type 0 where
  pub generated : Text  -- `text`
  pub model_ref : Text
  pub input_tokens : ℕ
  pub output_tokens : ℕ
  pub cost_usd : ℕ

-- `Math.ceil((req.system?.length ?? 0 + req.prompt.length) / 4)`, where `+` binds before `??`
unfoldable pub estimated_tokens : LlmCallRequest → ℕ
estimated_tokens req = elim req.system [
  | none ↦ (0 + length req.prompt + 3) / 4
  | some s ↦ (length s + 3) / 4
]

-- The library and the services that are called: `new URL(base).hostname`, the connection of a
-- provider, and `generateText` of the place in the chain and the model.
pub record Services : Type 0 where
  pub hostname : Text → Option Text
  pub connect : Text → Text → Result LlmError (Unit {0})
  pub generate : ℕ → Text → Result LlmError Generation

module _ (config : Config) (month : Text) (services : Services) where
  abbrev pub check_host : Option Text → Result LlmError (Unit {0})
  check_host none = err malformed_url
  check_host (some host) =
      if is_hostname_denied config.denied_hostnames host then err denied_host else ok tt

  abbrev pub check_base : Option ProviderConfig → Result LlmError (Unit {0})
  check_base none = ok tt
  check_base (some cfg) = elim (get_or_else cfg.base_url []) [
    | [] ↦ ok tt
    | c ∷ s ↦ check_host (services.hostname (c ∷ s))
  ]

  unfoldable pub boundary_check : Text → Call (Unit {0})
  boundary_check model_ref = lift (split_model_ref model_ref) >>= λ (provider, _).
      lift (check_base (lookup provider config.providers))

  unfoldable pub audit_pre_call : LlmCallRequest → Text → Call (Unit {0})
  audit_pre_call req model_ref =
      audit_event (llm_call_pre req.skill_slug model_ref (estimated_tokens req))

  unfoldable pub settle_call : LlmCallRequest → Text → Text → ℕ → ℕ → Call ℕ
  settle_call req tier model_ref input output =
      let cost = compute_cost_usd model_ref input output in
      do
        status ← accrue_cost config.budgets month tier cost
        audit_event (llm_call_post req.skill_slug model_ref input output cost status.remaining_usd)
        return cost

  -- From the provider's answer on
  unfoldable pub finish_call : LlmCallRequest → Text → Text → Generation → Call LlmCallResult
  finish_call req tier model_ref gen =
      let input = get_or_else gen.input_tokens 0 in
      let output = get_or_else gen.output_tokens 0 in
      settle_call req tier model_ref input output >>= λ cost. return (record {
        generated = gen.generated;
        model_ref = model_ref;
        input_tokens = input;
        output_tokens = output;
        cost_usd = cost;
      })

  -- The body of the `try`
  unfoldable pub attempt : LlmCallRequest → Text → ℕ → Text → Call LlmCallResult
  attempt req tier place model_ref = do
    boundary_check model_ref
    (provider, _) ← lift (split_model_ref model_ref)
    check_budget config.budgets month tier model_ref provider
    lift (resolve_model config.providers services.connect model_ref)
    audit_pre_call req model_ref
    gen ← lift (services.generate place model_ref)
    finish_call req tier model_ref gen

  abbrev pub is_budget_exceeded : LlmError → Bool
  is_budget_exceeded (budget_exceeded tier spent cap) = true
  is_budget_exceeded _ = false

  -- What follows an attempt: a spent budget is thrown on, any other error is logged and the loop
  -- goes on.
  abbrev pub after_attempt :
      LlmCallRequest
      → Text
      → (LlmError → Call LlmCallResult)
      → Result LlmError LlmCallResult × World
      → Result LlmError LlmCallResult × World
  after_attempt req model_ref next (ok r, w) = (ok r, w)
  after_attempt req model_ref next (err e, w) =
      if is_budget_exceeded e
      then (err e, w)
      else (audit_event (llm_call_failed req.skill_slug model_ref e) >> next e) w

  -- The loop over the chain, with `lastError`
  unfoldable pub try_chain : LlmCallRequest → Text → ℕ → LlmError → List Text → Call LlmCallResult
  try_chain req tier place last [] w = (err (all_failed last), w)
  try_chain req tier place last (model_ref ∷ rest) w =
      after_attempt req model_ref (λ e. try_chain req tier (place + 1) e rest)
        (attempt req tier place model_ref w)

  unfoldable pub call_llm : LlmCallRequest → Call LlmCallResult
  call_llm req =
      let route = route_for config.routing req.skill_slug req.skill_class req.llm_override in
      try_chain req (tier_for_skill_class config.budgets req.skill_class) 0 no_attempt
        (route.primary ∷ route.fallbacks)
