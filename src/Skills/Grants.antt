-- ===== src/Skills/Grants.antt =====
-- The preflight grants of capabilities/registry.ts, each the proof of one preflight of one input.
use dymaxion.Prelude.{
  ℕ, zero, suc, Text, text_eq, Option, none, some, bind, option_text_eq, Bool, true, false, not,
  ◌||◌, if◌then◌else◌, List, [], ◌∷◌, ◌++◌, Result, ok, err, length, get_elem?,
}
use dymaxion.Canonical.{Json, sha256_canonical}
use dymaxion.Skills.Types.{SkillError, Capability, invalid_preflight_grant, not_canonical}
use dymaxion.Skills.World.{
  GrantRecord, GrantValue, absent, not_an_object, preflight_grant, Action, ◌>>◌, lift,
}

unfoldable pub hash_input : (Text → Text) → Json → Result SkillError Text
hash_input sha256 input = elim (sha256_canonical sha256 input) [
  | ok t ↦ ok t
  | err e ↦ err (not_canonical e)
]

-- `capability.preflight?.(input)`
abbrev pub preflight_of : Capability → Json → Result SkillError (Unit {0})
preflight_of c input = elim c.preflight [ none ↦ ok tt | some f ↦ f input ]

-- `capabilityPreflightGrants.get(grant) ?? undefined`
unfoldable pub grant_record : GrantValue → List (Option GrantRecord) → Option GrantRecord
grant_record (preflight_grant n) gs = bind (get_elem? gs n) (λ g. g)
grant_record _ gs = none

-- `capabilityPreflightGrants.delete(grant)`
unfoldable pub clear : ℕ → List (Option GrantRecord) → List (Option GrantRecord)
clear n [] = []
clear zero (g ∷ gs) = none ∷ gs
clear (suc n) (g ∷ gs) = g ∷ clear n gs

unfoldable pub delete_grant : GrantValue → List (Option GrantRecord) → List (Option GrantRecord)
unfolding clear
delete_grant (preflight_grant n) gs = clear n gs
delete_grant _ gs = gs

module _ (sha256 : Text → Text) where
  unfoldable pub mint_grant : {S : Type 0} → Capability → Json → Option Text → Action S GrantValue
  unfolding hash_input
  mint_grant c input run w = elim (hash_input sha256 input) [
    | err e ↦ (err e, w)
    | ok h ↦ (
      ok (preflight_grant (length w.preflight_grants)),
      record w {
        preflight_grants =
            w.preflight_grants
            ++ some (record { slug = c.slug; input_sha256 = h; agent_run_id = run }) ∷ [];
      },
    )
  ]

  unfoldable pub preflight_capability_definition :
      {S : Type 0} → Capability → Json → Option Text → Action S GrantValue
  unfolding mint_grant
  preflight_capability_definition c input run =
      lift (preflight_of c input) >> mint_grant c input run

  -- The comparison of the record, whose last two tests need the hash
  unfoldable pub match_grant :
      Option GrantRecord → Capability → Json → Option Text → Result SkillError Bool
  match_grant none c input run = err invalid_preflight_grant
  match_grant (some g) c input run =
      if not (text_eq g.slug c.slug)
      then err invalid_preflight_grant
      else elim (hash_input sha256 input) [
        | err e ↦ err e
        | ok h ↦
            if not (text_eq g.input_sha256 h) || not (option_text_eq g.agent_run_id run)
            then err invalid_preflight_grant
            else ok true
      ]

  unfoldable pub consume_preflight_grant :
      {S : Type 0} → GrantValue → Capability → Json → Option Text → Action S Bool
  unfolding match_grant delete_grant grant_record
  consume_preflight_grant absent c input run w = (ok false, w)
  consume_preflight_grant not_an_object c input run w = (err invalid_preflight_grant, w)
  consume_preflight_grant v c input run w = (
    match_grant (grant_record v w.preflight_grants) c input run,
    record w { preflight_grants = delete_grant v w.preflight_grants },
  )
