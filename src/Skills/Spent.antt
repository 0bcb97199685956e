-- ===== src/Skills/Spent.antt =====
-- The preflight grants of capabilities/registry.ts over every sequence of preflights and
-- consumptions, by whoever and in whatever order.
use dymaxion.Prelude.{
  ℕ, zero, suc, ◌<◌, ◌≡◌, refl, Text, Option, none, some, List, [], ◌∷◌, ◌++◌, err, inl, inr,
  Result-cases, get_elem?, length, arith,
}
use dymaxion.Canonical.{Json}
use dymaxion.Skills.Types.{Capability, invalid_preflight_grant}
use dymaxion.Skills.World.{
  World, GrantRecord, GrantValue, absent, not_an_object, other_object, preflight_grant,
}
use dymaxion.Skills.Grants.{
  consume_preflight_grant, match_grant, grant_record, clear, delete_grant, preflight_of,
  preflight_capability_definition, mint_grant, hash_input,
}

pub data GrantCall : Type 0 where
  preflights : (c : Capability) (input : Json) (run : Option Text) → GrantCall
  consumes : (v : GrantValue) (c : Capability) (input : Json) (run : Option Text) → GrantCall

abbrev pub Grants : Type 0
Grants = List (Option GrantRecord)

-- The grant has been minted, and consumed since.
abbrev IsSpent : ℕ → Grants → Type 0
IsSpent n gs = get_elem? gs n ≡ some none

get_elem?-left :
    (n : ℕ) (gs hs : Grants) (g : Option GrantRecord)
    → get_elem? gs n ≡ some g
    → get_elem? (gs ++ hs) n ≡ some g
get_elem?-left n [] hs g h = cc
get_elem?-left zero (x ∷ gs) hs g h = h
get_elem?-left (suc n) (x ∷ gs) hs g h = get_elem?-left n gs hs g h

clear-IsSpent : (n : ℕ) (gs : Grants) → n < length gs → IsSpent n (clear n gs)
unfolding clear
clear-IsSpent n [] h = absurd (omega arith)
clear-IsSpent zero (g ∷ gs) h = refl
clear-IsSpent (suc n) (g ∷ gs) h = clear-IsSpent n gs (omega arith)

clear-keeps : (n k : ℕ) (gs : Grants) → IsSpent n gs → IsSpent n (clear k gs)
unfolding clear
clear-keeps n k [] h = cc
clear-keeps zero zero (g ∷ gs) h = refl
clear-keeps zero (suc k) (g ∷ gs) h = h
clear-keeps (suc n) zero (g ∷ gs) h = h
clear-keeps (suc n) (suc k) (g ∷ gs) h = clear-keeps n k gs h

module _ {S : Type 0} (sha256 : Text → Text) where
  -- What a call leaves
  unfoldable pub step : GrantCall → World S → World S
  step (preflights c input run) w = (preflight_capability_definition sha256 c input run w).1
  step (consumes v c input run) w = (consume_preflight_grant sha256 v c input run w).1

  unfoldable pub run_calls : List GrantCall → World S → World S
  run_calls [] w = w
  run_calls (call ∷ calls) w = run_calls calls (step call w)

  mint-IsSpent :
      (n : ℕ) (c : Capability) (input : Json) (run : Option Text) (w : World S)
      → IsSpent n w.preflight_grants
      → IsSpent n (mint_grant sha256 c input run w).1.preflight_grants
  unfolding mint_grant
  mint-IsSpent n c input run w h = elim (Result-cases (hash_input sha256 input)) [
    | inr (e, bad) ↦ rw (mint_grant, bad) h
    | inl (t, good) ↦ rw (mint_grant, good) (get_elem?-left n w.preflight_grants _ none h)
  ]

  step-IsSpent :
      (n : ℕ) (call : GrantCall) (w : World S)
      → IsSpent n w.preflight_grants
      → IsSpent n (step call w).preflight_grants
  unfolding step preflight_capability_definition consume_preflight_grant delete_grant
  step-IsSpent n (preflights c input run) w h = elim (Result-cases (preflight_of c input)) [
    | inr (e, bad) ↦ rw (step, preflight_capability_definition, bad) h
    | inl (u, good) ↦
        rw (step, preflight_capability_definition, good) (mint-IsSpent n c input run w h)
  ]
  step-IsSpent n (consumes absent c input run) w h = h
  step-IsSpent n (consumes not_an_object c input run) w h = h
  step-IsSpent n (consumes other_object c input run) w h = h
  step-IsSpent n (consumes (preflight_grant k) c input run) w h =
      clear-keeps n k w.preflight_grants h

  run_calls-IsSpent :
      (n : ℕ) (calls : List GrantCall) (w : World S)
      → IsSpent n w.preflight_grants
      → IsSpent n (run_calls calls w).preflight_grants
  unfolding run_calls
  run_calls-IsSpent n [] w h = h
  run_calls-IsSpent n (call ∷ calls) w h =
      run_calls-IsSpent n calls (step call w) (step-IsSpent n call w h)

  spent_refused :
      (n : ℕ) (c : Capability) (input : Json) (run : Option Text) (w : World S)
      → IsSpent n w.preflight_grants
      → (consume_preflight_grant sha256 (preflight_grant n) c input run w).0
        ≡ err invalid_preflight_grant
  unfolding consume_preflight_grant match_grant grant_record
  spent_refused n c input run w h = rw h refl

  -- Once a preflight grant that has been minted is consumed, for whatever capability, input and run
  -- and whether or not it fitted them, every later consumption of it is refused, for every
  -- capability, input and run: over every sequence of preflights, which mint other grants, and of
  -- consumptions of any grants in between.
  pub consume_preflight_grant_once :
      (n : ℕ) (c c' : Capability) (input input' : Json) (run run' : Option Text)
      (calls : List GrantCall) (w : World S)
      → n < length w.preflight_grants
      → let spent = (consume_preflight_grant sha256 (preflight_grant n) c input run w).1 in
        (consume_preflight_grant sha256
          (preflight_grant n)
          c'
          input'
          run'
          (run_calls calls spent)).0
        ≡ err invalid_preflight_grant
  unfolding consume_preflight_grant delete_grant
  consume_preflight_grant_once n c c' input input' run run' calls w minted =
      let spent = (consume_preflight_grant sha256 (preflight_grant n) c input run w).1 in
      spent_refused n c' input' run' (run_calls calls spent)
        (run_calls-IsSpent n calls spent (clear-IsSpent n w.preflight_grants minted))
