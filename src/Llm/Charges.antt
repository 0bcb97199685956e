-- ===== src/Llm/Charges.antt =====
-- What a call through llm/middleware.ts does to the budget ledger.
use dymaxion.Prelude.{
  ℕ, ◌+◌, ◌<◌, ◌≡◌, refl, ap, ◌∙◌, leb, Text, some, false, ◌||◌, List, [], ◌∷◌, Result, ok, err,
  arith, Bool-cases, inl, inr, lookup, get_or_else, Option-cases, Result-cases,
}
use dymaxion.Llm.Config.{Config, BudgetTier, BudgetsConfig, tier_for_skill_class}
use dymaxion.Llm.Cost.{to_fixed4, compute_cost_usd}
use dymaxion.Llm.World.{
  llm_call_post, World, Call, LedgerRow, LlmError, continue, lift, return, ◌>>◌, audit_event,
}
use dymaxion.Llm.Budget.{
  BudgetStatus, find_row, spent_of, frozen_of, budget_status, check_budget, accrue_cost,
}
use dymaxion.Llm.Ledger.{spent, frozen, accrue_cost-charges, accrue_cost_ok}
use dymaxion.Llm.Providers.{split_model_ref, resolve_model}
use dymaxion.Llm.Middleware.{
  LlmCallRequest, LlmCallResult, Generation, Services, boundary_check, audit_pre_call, settle_call,
  finish_call, attempt, try_chain, after_attempt, call_llm, is_budget_exceeded,
}

-- The tier is configured, and in the ledger neither frozen nor at its cap.
pub record IsOpen (budgets : BudgetsConfig) (month tier : Text) (rows : List LedgerRow)
    : Type 0 where
  pub cfg : BudgetTier
  pub known : lookup tier budgets.budgets ≡ some cfg
  pub thawed : frozen_of (find_row tier month rows) ≡ false
  pub within : spent_of (find_row tier month rows) < cfg.max_usd_per_month

module _ (budgets : BudgetsConfig) (month : Text) where
  check_budget-keeps :
      (tier model provider : Text) (w : World)
      → (check_budget budgets month tier model provider w).1.ledger ≡ w.ledger
  unfolding check_budget budget_status
  check_budget-keeps tier model provider w = ground arith

  check_budget-IsOpen :
      (tier model provider : Text) (w w' : World)
      → check_budget budgets month tier model provider w ≡ (ok tt, w')
      → IsOpen budgets month tier w.ledger
  unfolding check_budget budget_status
  check_budget-IsOpen tier model provider w w' h =
      elim (Option-cases (lookup tier budgets.budgets)) [
        | inl e ↦ absurd (ground arith)
        | inr (cfg, e) ↦ record {
          cfg = cfg;
          known = e;
          thawed = ground arith;
          within = ground arith;
        }
      ]

module _ (config : Config) (month : Text) (services : Services) where
  -- The ledger after a call that cost so much, from an open tier.
  pub record IsCharged (tier : Text) (rows : List LedgerRow) (r : LlmCallResult) (w : World)
      : Type 0 where
    pub opened : IsOpen config.budgets month tier rows
    pub priced : r.cost_usd ≡ compute_cost_usd r.model_ref r.input_tokens r.output_tokens
    pub charged : spent tier month w ≡ spent_of (find_row tier month rows) + to_fixed4 r.cost_usd
    pub capped : frozen tier month w ≡ leb opened.cfg.max_usd_per_month (spent tier month w)

  -- What a call from a ledger may come to: a charged result, or an error and the ledger as it was.
  abbrev pub IsSettled : Text → List LedgerRow → Result LlmError LlmCallResult × World → Type 0
  IsSettled tier rows (ok r, w) = IsCharged tier rows r w
  IsSettled tier rows (err e, w) = w.ledger ≡ rows

  continue-IsSettled :
      {A : Type 0} (tier : Text) (rows : List LedgerRow) (f : A → Call LlmCallResult)
      (x : Result LlmError A × World)
      → x.1.ledger ≡ rows
      → ((a : A) (w : World) → x ≡ (ok a, w) → w.ledger ≡ rows → IsSettled tier rows (f a w))
      → IsSettled tier rows (continue f x)
  continue-IsSettled tier rows f (ok a, w) h k = k a w refl h
  continue-IsSettled tier rows f (err e, w) h k = h

  boundary_check-keeps :
      (model_ref : Text) (w : World)
      → (boundary_check config month services model_ref w).1.ledger ≡ w.ledger
  unfolding boundary_check
  boundary_check-keeps model_ref w = elim (Result-cases (split_model_ref model_ref)) [
    | inl (p, e) ↦ rw (boundary_check, e) refl
    | inr (x, e) ↦ rw (boundary_check, e) refl
  ]

  -- From the ledger with the cost in it on
  settled_lem :
      (req : LlmCallRequest) (tier model_ref : Text) (gen : Generation) (rows : List LedgerRow)
      → (opened : IsOpen config.budgets month tier rows)
      → (x : Result LlmError BudgetStatus × World)
      → let input = get_or_else gen.input_tokens 0 in
        let output = get_or_else gen.output_tokens 0 in
        let cost = compute_cost_usd model_ref input output in
        (s : BudgetStatus)
        → x.0 ≡ ok s
        → spent tier month x.1 ≡ spent_of (find_row tier month rows) + to_fixed4 cost
        → frozen tier month x.1 ≡ leb opened.cfg.max_usd_per_month (spent tier month x.1)
        → IsSettled tier rows (
            continue
              (λ cost'. return (record {
                generated = gen.generated;
                model_ref = model_ref;
                input_tokens = input;
                output_tokens = output;
                cost_usd = cost';
              }))
              (continue
                (λ status.
                  audit_event
                    (llm_call_post req.skill_slug model_ref input output cost status.remaining_usd)
                  >> return cost)
                x))
  settled_lem req tier model_ref gen rows opened (ok s', w') s h charged capped = record {
    opened = opened;
    priced = refl;
    charged = charged;
    capped = capped;
  }
  settled_lem req tier model_ref gen rows opened (err e, w') s h charged capped = absurd (cc)

  finish_call-IsSettled :
      (req : LlmCallRequest) (tier model_ref : Text) (gen : Generation) (rows : List LedgerRow)
      (w : World)
      → IsOpen config.budgets month tier rows
      → w.ledger ≡ rows
      → IsSettled tier rows (finish_call config month services req tier model_ref gen w)
  unfolding finish_call settle_call
  finish_call-IsSettled req tier model_ref gen rows w opened same =
      let cost =
        compute_cost_usd model_ref (get_or_else gen.input_tokens 0)
          (get_or_else gen.output_tokens 0) in
      let (status, returned) =
        accrue_cost_ok config.budgets month tier opened.cfg cost w opened.known in
      let (charged, capped) =
        accrue_cost-charges config.budgets month tier opened.cfg cost w opened.known in
      settled_lem req tier model_ref gen rows opened (accrue_cost config.budgets month tier cost w)
        status returned (charged ∙ ap (λ l. spent_of (find_row tier month l) + to_fixed4 cost) same)
        (capped
          ∙ ap
              (λ b.
                b
                || leb opened.cfg.max_usd_per_month
                    (spent tier month (accrue_cost config.budgets month tier cost w).1))
              (ap (λ l. frozen_of (find_row tier month l)) same ∙ opened.thawed))

  attempt-IsSettled :
      (req : LlmCallRequest) (tier : Text) (place : ℕ) (model_ref : Text) (w : World)
      → IsSettled tier w.ledger (attempt config month services req tier place model_ref w)
  unfolding attempt audit_pre_call
  attempt-IsSettled req tier place model_ref w =
      continue-IsSettled tier w.ledger _ (boundary_check config month services model_ref w)
        (boundary_check-keeps model_ref w)
        λ _ w₁ _ h₁.
          continue-IsSettled tier w.ledger _ (lift (split_model_ref model_ref) w₁) h₁
            λ (provider, _) w₂ _ h₂.
              continue-IsSettled tier w.ledger _
                (check_budget config.budgets month tier model_ref provider w₂)
                (check_budget-keeps config.budgets month tier model_ref provider w₂ ∙ h₂)
                λ _ w₃ e₃ h₃.
                  let opened : IsOpen config.budgets month tier w.ledger =
                    rw (← h₂)
                      (check_budget-IsOpen config.budgets month tier model_ref provider w₂ w₃ e₃) in
                  continue-IsSettled tier w.ledger _
                    (lift (resolve_model config.providers services.connect model_ref) w₃) h₃
                    λ _ w₄ _ h₄.
                      continue-IsSettled tier w.ledger _
                        (lift (services.generate place model_ref) _) h₄
                        λ gen w₅ _ h₅.
                          finish_call-IsSettled req tier model_ref gen w.ledger w₅ opened h₅

  after_attempt-IsSettled :
      (req : LlmCallRequest) (tier model_ref : Text) (rows : List LedgerRow)
      (next : LlmError → Call LlmCallResult)
      → ((e : LlmError) (w : World) → w.ledger ≡ rows → IsSettled tier rows (next e w))
      → (x : Result LlmError LlmCallResult × World) → IsSettled tier rows x
      → IsSettled tier rows (after_attempt config month services req model_ref next x)
  after_attempt-IsSettled req tier model_ref rows next k (ok r, w) h = h
  after_attempt-IsSettled req tier model_ref rows next k (err e, w) h =
      elim (Bool-cases (is_budget_exceeded config month services e)) [
        | inl hard ↦ rw hard h
        | inr soft ↦ rw soft (k e (record w { audit_log = _ }) h)
      ]

  try_chain-IsSettled :
      (req : LlmCallRequest) (tier : Text) (place : ℕ) (last : LlmError) (chain : List Text)
      (w : World)
      → IsSettled tier w.ledger (try_chain config month services req tier place last chain w)
  unfolding try_chain
  try_chain-IsSettled req tier place last [] w = refl
  try_chain-IsSettled req tier place last (model_ref ∷ rest) w =
      after_attempt-IsSettled req tier model_ref w.ledger
        (λ e. try_chain config month services req tier (place + 1) e rest)
        (λ e w' same. rw (← same) (try_chain-IsSettled req tier (place + 1) e rest w'))
        (attempt config month services req tier place model_ref w)
        (attempt-IsSettled req tier place model_ref w)

  -- `callLLM` either fails and leaves the budget ledger as it was, or the tier of the skill's class
  -- was configured, not frozen and below its cap when it began; then exactly one call has been
  -- charged, that of the model which answered and at its price, and the tier is frozen from then
  -- on exactly if its spending has reached the cap.
  pub call_llm-IsSettled :
      (req : LlmCallRequest) (w : World)
      → IsSettled
          (tier_for_skill_class config.budgets req.skill_class)
          w.ledger
          (call_llm config month services req w)
  unfolding call_llm
  call_llm-IsSettled req w =
      try_chain-IsSettled req (tier_for_skill_class config.budgets req.skill_class) 0 _ _ w
