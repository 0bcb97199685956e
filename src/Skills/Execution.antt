-- ===== src/Skills/Execution.antt =====
-- `executeCapabilityDefinition` of capabilities/registry.ts: one covered execution at most.
use dymaxion.Prelude.{
  ℕ, ◌≡◌, refl, ap, ◌∙◌, Text, Option, Bool, [], ◌∷◌, ◌++◌, Result, ok, err, ◌⊎◌, inl, inr, arith,
}
use dymaxion.Canonical.{Json}
use dymaxion.Skills.Types.{SkillError, Capability}
use dymaxion.Skills.World.{
  World, Environment, Context, Execution, GrantValue, Action, lift, continue,
}
use dymaxion.Skills.Grants.{consume_preflight_grant}
use dymaxion.Skills.Dispatch.{
  claim, authorize, preflight_unless, perform, execute_capability_definition,
}
use dymaxion.Skills.Gate.{IsCovered, authorize-IsCovered}

module _ {S : Type 0} (env : Environment S) where
  -- Nothing more was executed, or this capability once, on an input that was covered.
  abbrev pub IsGated : Capability → Context → World S → World S → Type 0
  IsGated c context w w' =
      (w'.executions ≡ w.executions)
      ⊎ ((x : Execution) × (w'.executions ≡ w.executions ++ x ∷ [])
          × (x.slug ≡ c.slug)
          × (x.agent_run_id ≡ context.agent_run_id)
          × IsCovered env c context w.receipts x.input)

  -- The executions and the receipts are as they were.
  abbrev IsStill : World S → World S → Type 0
  IsStill w w' = (w'.executions ≡ w.executions) × (w'.receipts ≡ w.receipts)

  -- By a relation of the world before an action to the one after it, which keeps the executions
  continue-IsGated :
      {A B : Type 0} (K : World S → World S → Type 0) (c : Capability) (context : Context)
      (w : World S) (f : A → Action S B) (x : Result SkillError A × World S)
      → ((w' : World S) → K w w' → w'.executions ≡ w.executions)
      → K w x.1
      → ((a : A) (w' : World S) → x ≡ (ok a, w') → K w w' → IsGated c context w (f a w').1)
      → IsGated c context w (continue f x).1
  continue-IsGated K c context w f (ok a, w') keeps h k = k a w' refl h
  continue-IsGated K c context w f (err e, w') keeps h k = inl (keeps w' h)

  -- A pure step after an action
  continue-lift :
      {A B : Type 0} (f : A → Result SkillError B) (x : Result SkillError A × World S)
      → (continue (λ a. lift (f a)) x).1 ≡ x.1
  continue-lift f (ok a, w) = refl
  continue-lift f (err e, w) = refl

  consume-IsStill :
      (v : GrantValue) (c : Capability) (input : Json) (run : Option Text) (w : World S)
      → IsStill w (consume_preflight_grant env.sha256 v c input run w).1
  unfolding consume_preflight_grant
  consume-IsStill v c input run w = ground arith

  preflight_unless-IsSame :
      (c : Capability) (input : Json) (proven : Bool) (w : World S)
      → (preflight_unless env c input proven w).1 ≡ w
  preflight_unless-IsSame c input proven w = ground arith

  authorize-unexecuted :
      (c : Capability) (input : Json) (context : Context) (w : World S)
      → (authorize env c input context w).1.executions ≡ w.executions
  unfolding authorize claim
  authorize-unexecuted c input context w = ground arith

  perform_adds :
      (c : Capability) (input : Json) (context : Context) (grant : Option ℕ) (w : World S)
      → (perform env c input context grant w).1.executions
        ≡ w.executions
          ++ record {
            slug = c.slug;
            agent_run_id = context.agent_run_id;
            input = input;
            grant = grant;
          }
            ∷ []
  unfolding perform
  perform_adds c input context grant w = ap (λ w'. w'.executions) (continue-lift c.parse_output _)

  -- Every run of `executeCapabilityDefinition`, on whatever input and context, executes the
  -- capability at most once, on an input for which it requires no approval, or for which the
  -- context holds an issued receipt whose snapshot is of the context's run, the hash of that very
  -- input, and the target and identity that the capability resolves for it.
  pub execute_capability_definition-IsGated :
      (c : Capability) (raw_input : Json) (context : Context) (w : World S)
      → IsGated c context w (execute_capability_definition env c raw_input context w).1
  unfolding execute_capability_definition
  execute_capability_definition-IsGated c raw_input context w =
      let step : (w' : World S) → IsStill w w' → w'.executions ≡ w.executions = λ w' h. h.0 in
      continue-IsGated IsStill c context w _ (lift (c.parse_input raw_input) w) step (refl, refl)
        λ input w₁ _ h₁.
          continue-IsGated IsStill c context w _
            (consume_preflight_grant env.sha256 context.capability_preflight_grant c input
              context.agent_run_id w₁)
            step
            (let s =
                consume-IsStill context.capability_preflight_grant c input context.agent_run_id
                  w₁ in
              (s.0 ∙ h₁.0, s.1 ∙ h₁.1))
            λ proven w₂ _ h₂.
              continue-IsGated IsStill c context w _ (preflight_unless env c input proven w₂) step
                (rw (preflight_unless-IsSame c input proven w₂) h₂)
                λ _ w₃ _ h₃.
                  continue-IsGated (λ u v. v.executions ≡ u.executions) c context w _
                    (authorize env c input context w₃) (λ w' h. h)
                    (authorize-unexecuted c input context w₃ ∙ h₃.0)
                    λ grant w₄ e₄ h₄.
                      let covered : IsCovered env c context w.receipts input =
                        rw (← h₃.1) (authorize-IsCovered env c input context w₃ w₄ grant e₄) in
                      let x : Execution = record {
                        slug = c.slug;
                        agent_run_id = context.agent_run_id;
                        input = input;
                        grant = grant;
                      } in
                      inr (
                        x,
                        perform_adds c input context grant w₄ ∙ ap (λ xs. xs ++ x ∷ []) h₄,
                        refl,
                        refl,
                        covered,
                      )
