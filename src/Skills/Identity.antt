-- ===== src/Skills/Identity.antt =====
-- `resolveExecutionCredentialIdentity` of security/execution-identity.ts. The variable of the
-- environment and `JSON.parse` are arguments.
use dymaxion.Prelude.{
  Text, Option, none, some, true, false, if◌then◌else◌, [], ◌∷◌, Result, ok, err,
}
use dymaxion.Canonical.{Json, str, obj}
use dymaxion.Approval.Requests.{is_white, is_blank}
use dymaxion.Approval.Target.{payload_field}
use dymaxion.Skills.Types.{
  SkillError, identity_not_configured, identity_not_json, identity_not_object, identity_missing,
}

unfoldable pub trim_start : Text → Text
trim_start [] = []
trim_start (c ∷ s) = elim (is_white c) [ true ↦ trim_start s | false ↦ c ∷ s ]

unfoldable pub trim_end : Text → Text
trim_end [] = []
trim_end (c ∷ s) = elim (trim_end s) [ [] ↦ if is_white c then [] else c ∷ [] | d ∷ t ↦ c ∷ d ∷ t ]

abbrev pub trim : Text → Text
trim s = trim_end (trim_start s)

abbrev pub identity_of : Json → Result SkillError Text
identity_of (str s) = if is_blank s then err identity_missing else ok (trim s)
identity_of _ = err identity_missing

abbrev pub identity_in : Option Json → Text → Result SkillError Text
identity_in none skill = err identity_not_json
identity_in (some (obj fs)) skill = identity_of (payload_field skill (obj fs))
identity_in (some _) skill = err identity_not_object

unfoldable pub resolve_identity : Option Text → (Text → Option Json) → Text → Result SkillError Text
resolve_identity none parse skill = err identity_not_configured
resolve_identity (some []) parse skill = err identity_not_configured
resolve_identity (some (c ∷ s)) parse skill = identity_in (parse (c ∷ s)) skill
