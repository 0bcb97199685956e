-- ===== src/Approval/Target.antt =====
-- `deriveApprovalTarget` of approval.ts: the exact target that an approval of a step names. The
-- payload comes from JSON, so no object of it occurs twice; a foreign object has no entries here.
pub mod Words
pub mod Laws
use dymaxion.Prelude.{
  ℕ, zero, suc, ◌+◌, ◌/◌, ◌%◌, Text, text, text_eq, starts_with, leb, ltb, ◌==◌, if◌then◌else◌,
  Bool, true, false, not, ◌&&◌, ◌||◌, Option, none, some, List, [], ◌∷◌, ◌++◌, Result, ok, err,
  ◌>>=◌, all, any, length, drop,
}
use dymaxion.Canonical.{
  Json, str, arr, obj, Items, nil, cons, Fields, end, field, CanonicalError, undefined,
  canonical_json,
}
use dymaxion.Approval.Target.Words.{is_uuid, is_sha256_hex, is_target_key, decimal}

pub data TargetError : Type 0 where
  no_target : Text → TargetError
  not_canonical : CanonicalError → TargetError

-- `payload.key`; the last field of a name is the object's
unfoldable pub field_of : Text → Fields → Json
field_of k end = undefined
field_of k (field j v fs) = elim (field_of k fs) [
  | undefined ↦ if text_eq j k then v else undefined
  | w ↦ w
]

abbrev pub payload_field : Text → Json → Json
payload_field k (obj fs) = field_of k fs
payload_field k _ = undefined

abbrev pub Target : Type 0
Target = Text × Json

abbrev is_present : Json → Bool
is_present undefined = false
is_present _ = true

-- `visit`: the entries in order, each before those inside it
unfoldable mutual
  pub visit : Text → Json → List Target
  visit path (arr xs) = visit_items path 0 xs
  visit path (obj fs) = visit_fields path fs
  visit path _ = []

  pub visit_items : Text → ℕ → Items → List Target
  visit_items path i nil = []
  visit_items path i (cons x xs) = visit (path ++ b'.' ∷ decimal i) x ++ visit_items path (i + 1) xs

  pub visit_fields : Text → Fields → List Target
  visit_fields path end = []
  visit_fields path (field k v fs) =
      (if is_target_key k && is_present v then (path ++ b'.' ∷ k, v) ∷ [] else [])
      ++ (visit (path ++ b'.' ∷ k) v ++ visit_fields path fs)

abbrev pub target_items : List Target → Items
target_items [] = nil
target_items ((p, v) ∷ ts) =
    cons (obj (field (text "path") (str p) (field (text "value") v end))) (target_items ts)

unfoldable pub export_skill : Text
export_skill = text "export_evidence_bundle"

abbrev pub is_str : Text → Json → Bool
is_str s (str t) = text_eq t s
is_str s _ = false

abbrev pub string_of : Json → Option Text
string_of (str t) = some t
string_of _ = none

unfoldable pub export_target : Json → Result TargetError Text
export_target payload = elim (string_of (payload_field (text "project_id") payload)) [
  | none ↦ err (no_target export_skill)
  | some project ↦ elim (string_of (payload_field (text "target_bundle_sha256") payload)) [
    | none ↦ err (no_target export_skill)
    | some bundle ↦
        if not (is_str (text "persist") (payload_field (text "operation") payload))
          || not (is_uuid project)
          || not (is_sha256_hex bundle)
        then err (no_target export_skill)
        else ok (
            text "capability:export_evidence_bundle|project:"
            ++ (project ++ (text "|bundle:" ++ bundle)))
  ]
]

unfoldable pub generic_target : Text → Json → Result TargetError Text
generic_target skill payload = elim (visit (text "$") payload) [
  | [] ↦ err (no_target skill)
  | t ∷ ts ↦ elim (canonical_json (arr (target_items (t ∷ ts)))) [
    | err e ↦ err (not_canonical e)
    | ok s ↦ ok (text "skill:" ++ (skill ++ b'|' ∷ s))
  ]
]

unfoldable pub derive_approval_target : Text → Json → Result TargetError Text
unfolding export_target generic_target
derive_approval_target skill payload =
    if text_eq skill export_skill then export_target payload else generic_target skill payload
