-- ===== src/Skills/Refusal.antt =====
-- What `runSkill` of skills/executor.ts refuses without a request, and which stored plans
-- agent/replay-contract.ts refuses.
use dymaxion.Prelude.{
  ◌≡◌, refl, ◌∙◌, Text, none, some, true, false, List, [], ◌∷◌, Result, ok, err, is_ok, ◌⊎◌, inl,
  inr, Result-cases, arith,
}
use dymaxion.Canonical.{Json}
use dymaxion.Skills.Types.{SkillError, approval_required}
use dymaxion.Skills.World.{World, Environment, Action, lift, continue}
use dymaxion.Skills.Grants.{preflight_capability_definition, mint_grant}
use dymaxion.Skills.Runner.{
  Executable, native, legacy, requires_approval_of, validate, scanned, preflight, approve,
  approve_if, Admitted, admit, invoke_admitted, find_executable, run_skill,
}
use dymaxion.Skills.Steps.{
  ReplayStepKind, historical_skill, native_capability, workflow, ReplayStepIdentity, Registries,
  assert_replay_step_kind, create_replay,
}

module _ {S : Type 0} (env : Environment S) (run : Text) where
  -- An error, with nothing begun or executed.
  abbrev pub IsRefused : {A : Type 0} → World S → Result SkillError A × World S → Type 0
  IsRefused w (r, w') =
      (is_ok r ≡ false) × (w'.executions ≡ w.executions) × (w'.invocations ≡ w.invocations)

  abbrev IsSame : World S → World S → Type 0
  IsSame w w' = (w'.executions ≡ w.executions) × (w'.invocations ≡ w.invocations)

  continue-IsRefused :
      {A B : Type 0} (w : World S) (f : A → Action S B) (x : Result SkillError A × World S)
      → IsSame w x.1
      → ((a : A) (w' : World S) → x ≡ (ok a, w') → IsSame w w' → IsRefused w (f a w'))
      → IsRefused w (continue f x)
  continue-IsRefused w f (ok a, w') h k = k a w' refl h
  continue-IsRefused w f (err e, w') h k = (refl, h.0, h.1)

  preflight-IsSame :
      (x : Executable) (input : Json) (w : World S) → IsSame w (preflight env run x input w).1
  unfolding preflight_capability_definition mint_grant
  preflight-IsSame (native c) input w = ground arith
  preflight-IsSame (legacy s) input w = (refl, refl)

  admit-IsRefused :
      (x : Executable) (slug : Text) (input valid : Json) (w : World S)
      → validate env run x input ≡ ok valid
      → requires_approval_of x valid ≡ true
      → IsRefused w (admit env run x slug input none w)
  unfolding admit approve
  admit-IsRefused x slug input valid w parsed needed =
      continue-IsRefused w _ (lift (validate env run x input) w) (refl, refl)
        λ v w₁ e₁ h₁.
          let same : valid ≡ v = cc in
          continue-IsRefused w _ (lift (env.boundary (scanned env run x v)) w₁) h₁ λ _ w₂ _ h₂.
            continue-IsRefused w _ (preflight env run x v w₂)
              (let s = preflight-IsSame x v w₂ in (s.0 ∙ h₂.0, s.1 ∙ h₂.1))
              λ grant w₃ _ h₃.
                let refused : approve_if env run x slug v none ≡ lift (err approval_required) =
                  rw (← same) (rw needed refl) in
                rw refused (refl, h₃.0, h₃.1)

  invoke_admitted-refused :
      (x : Executable) (slug : Text) (w : World S) (r : Result SkillError Admitted × World S)
      → IsRefused w r
      → ((invoke_admitted env run x slug r).0.succeeded ≡ false)
        × ((invoke_admitted env run x slug r).1.executions ≡ w.executions)
        × ((invoke_admitted env run x slug r).1.invocations ≡ w.invocations)
  invoke_admitted-refused x slug w (ok a, w') h = absurd (cc)
  invoke_admitted-refused x slug w (err e, w') h = (refl, h.1, h.2)

  -- Without an approval request `runSkill` neither records nor executes a skill or capability that
  -- requires approval for its validated input, and reports a failure.
  pub run_skill-IsRefused :
      (slug : Text) (x : Executable) (input valid : Json) (w : World S)
      → find_executable env run slug ≡ ok x
      → validate env run x input ≡ ok valid
      → requires_approval_of x valid ≡ true
      → ((run_skill env run slug input none w).0.succeeded ≡ false)
        × ((run_skill env run slug input none w).1.executions ≡ w.executions)
        × ((run_skill env run slug input none w).1.invocations ≡ w.invocations)
  unfolding run_skill
  run_skill-IsRefused slug x input valid w found parsed needed =
      rw (run_skill, found)
        (invoke_admitted-refused x slug w (admit env run x slug input none w)
          (admit-IsRefused x slug input valid w parsed needed))

-- The step's stored kind is that of the one registry that has its slug.
abbrev pub IsExact : Registries → ReplayStepIdentity → ReplayStepKind → Type 0
IsExact g step k =
    (step.kind ≡ some k)
    × (g.has_workflow step.skill ≡ (elim k [ workflow ↦ true | _ ↦ false ]))
    × (g.has_capability step.skill ≡ (elim k [ native_capability ↦ true | _ ↦ false ]))
    × (g.has_skill step.skill ≡ (elim k [ historical_skill ↦ true | _ ↦ false ]))

abbrev pub AllExact : Registries → List ReplayStepIdentity → Type 0
AllExact g [] = Unit {0}
AllExact g (step ∷ steps) = ((k : ReplayStepKind) × IsExact g step k) × AllExact g steps

assert_replay_step_kind-IsExact :
    (g : Registries) (step : ReplayStepIdentity) (k : ReplayStepKind)
    → assert_replay_step_kind g step ≡ ok k
    → IsExact g step k
unfolding assert_replay_step_kind
assert_replay_step_kind-IsExact g step k h = ground arith

exact_admitted :
    (g : Registries) (step : ReplayStepIdentity) (k : ReplayStepKind)
    → IsExact g step k
    → assert_replay_step_kind g step ≡ ok k
unfolding assert_replay_step_kind
exact_admitted g step workflow (kind, w, c, h) = ground arith
exact_admitted g step native_capability (kind, w, c, h) = ground arith
exact_admitted g step historical_skill (kind, w, c, h) = ground arith

-- A replay is created, by the creation on the state as it was, exactly when every step of the
-- stored plan has the kind of the one registry that has its slug: it is created and they all have,
-- or it is refused with the state as it was and not all of them have.
pub create_replay-AllExact :
    {W A : Type 0} (g : Registries) (steps : List ReplayStepIdentity)
    (create : W → Result SkillError A × W) (w : W)
    → ((AllExact g steps) × (create_replay g steps create w ≡ create w))
      ⊎ ((¬ AllExact g steps) × ((e : SkillError) × (create_replay g steps create w ≡ (err e, w))))
unfolding create_replay
create_replay-AllExact g [] create w = inl (tt, refl)
create_replay-AllExact g (step ∷ steps) create w =
    elim (Result-cases (assert_replay_step_kind g step)) [
      | inr (e, bad) ↦ inr (
        λ ((k, exact), rest). let good = exact_admitted g step k exact in cc,
        (e, rw (create_replay, bad) refl),
      )
      | inl (k, good) ↦ elim (create_replay-AllExact g steps create w) [
        | inl (all_exact, same) ↦ inl (
          ((k, assert_replay_step_kind-IsExact g step k good), all_exact),
          rw (create_replay, good) same,
        )
        | inr (other, (e, same)) ↦
            inr (λ (first, rest). other rest, (e, rw (create_replay, good) same))
      ]
    ]
