-- ===== src/Query/Page.antt =====
-- `validateFeaturePage` of query-feature-service.ts. Warnings are left out. The effective fields
-- differ in more than the case of their letters, so that the last and the first of `fieldByLower`
-- agree.
use dymaxion.Prelude.{
  ℕ, Text, text, text_eq, Option, none, some, is_none, Bool, true, false, not, if◌then◌else◌, List,
  [], ◌∷◌, ◌++◌, map, Result, ok, err, lookup, ◌>>=◌, ◌>>◌, throw_if,
}
use dymaxion.Prelude.Int.{ℤ}
use dymaxion.Boundary.Url.{to_lower}
use dymaxion.ArcGis.Json.{
  Json, null, bool, string, whole, fraction, infinite, object, Fields, get, array_items, entries_of,
}
use dymaxion.ArcGis.Session.{
  Failure, exception, page_exceeded_not_boolean, missing_wkid, missing_features, malformed_feature,
  object_id_count, unsafe_feature_id, unrequested_id, duplicate_in_batch, colliding_attributes,
  not_finite, not_primitive, geometry_not_object, omitted_ids,
}
use dymaxion.Query.Metadata.{Sanitizers, spatial_reference_wkid}
use dymaxion.Query.Ids.{has_id, exceeded_flag, safe_integer}

-- `CollectedFeature`, under its object identifier
pub record Feature : Type 0 where
  pub id : ℤ
  pub attributes : List (Text × Json)
  pub geometry : Option Fields

-- `FeaturePage`
pub record FeaturePage : Type 0 where
  pub exceeded : Bool
  pub features : List Feature
  pub wkid : Option ℕ

abbrev pub ids_of_features : List Feature → List ℤ
ids_of_features = map (λ f. f.id)

-- What the server is asked for
pub record PageQuery : Type 0 where
  pub batch : List ℤ
  pub effective_fields : List Text
  pub object_id_field : Text
  pub return_geometry : Bool

-- The attributes whose name is that of the object identifier
unfoldable pub own_ids : Text → List (Text × Json) → List Json
own_ids field [] = []
own_ids field ((key, v) ∷ rest) =
    let others = own_ids field rest in
    if text_eq (to_lower key) (to_lower field) then v ∷ others else others

abbrev pub the_id : List Json → Result Failure ℤ
the_id (v ∷ []) = elim (safe_integer v) [ none ↦ err (exception unsafe_feature_id) | some i ↦ ok i ]
the_id _ = err (exception object_id_count)

-- `fieldByLower.get(key.toLowerCase())`
unfoldable pub canonical_field : List Text → Text → Option Text
canonical_field [] key = none
canonical_field (f ∷ fs) key =
    let rest = canonical_field fs key in
    if text_eq (to_lower f) (to_lower key) then some f else rest

-- `matchedKeys`, with the values that stand under the keys
unfoldable pub match_keys :
    List Text → List (Text × Json) → List (Text × Json) → Result Failure (List (Text × Json))
match_keys fields matched [] = ok matched
match_keys fields matched ((key, v) ∷ rest) = elim (canonical_field fields key) [
  | none ↦ match_keys fields matched rest
  | some f ↦
      if not (is_none (lookup f matched))
      then err (exception colliding_attributes)
      else match_keys fields (matched ++ (f, v) ∷ []) rest
]

module _ (sanitizers : Sanitizers) where
  -- The value of an attribute, of which texts are redacted
  abbrev pub attribute_value : Json → Result Failure Json
  attribute_value null = ok null
  attribute_value (bool b) = ok (bool b)
  attribute_value (whole n) = ok (whole n)
  attribute_value (fraction t) = ok (fraction t)
  attribute_value infinite = err (exception not_finite)
  attribute_value (string t) = ok (string (sanitizers.redact_secrets t))
  attribute_value _ = err (exception not_primitive)

  abbrev pub attribute_of : List (Text × Json) → Text → Result Failure Json
  attribute_of matched field = elim (lookup field matched) [
    | none ↦ ok null
    | some v ↦ attribute_value v
  ]

  -- `canonicalAttributes`, in the order of the effective fields
  unfoldable pub attributes_of :
      List (Text × Json) → List Text → Result Failure (List (Text × Json))
  attributes_of matched [] = ok []
  attributes_of matched (f ∷ fs) =
      attribute_of matched f >>= λ v. attributes_of matched fs >>= λ rest. ok ((f, v) ∷ rest)

  abbrev pub geometry_value : Bool → Option Json → Result Failure (Option Fields)
  geometry_value false raw = ok none
  geometry_value true none = ok none
  geometry_value true (some null) = ok none
  geometry_value true (some (object fs)) = sanitizers.sanitize_geometry fs >>= λ g. ok (some g)
  geometry_value true (some other) = err (exception geometry_not_object)

  -- The object and its attributes
  abbrev pub feature_parts : Json → Result Failure (Fields × Fields)
  feature_parts (object fs) = elim (get (text "attributes") fs) [
    | some v ↦ elim v [
      | object attributes ↦ ok (fs, attributes)
      | _ ↦ err (exception malformed_feature)
    ]
    | none ↦ err (exception malformed_feature)
  ]
  feature_parts _ = err (exception malformed_feature)

  module _ (query : PageQuery) where
    unfoldable pub take_feature : List Feature → Json → Result Failure Feature
    take_feature collected raw = do
      (fs, attributes) ← feature_parts raw
      oid ← the_id (own_ids query.object_id_field (entries_of attributes))
      throw_if (not (has_id query.batch oid)) (exception unrequested_id)
      throw_if (has_id (ids_of_features collected) oid) (exception duplicate_in_batch)
      matched ← match_keys query.effective_fields [] (entries_of attributes)
      values ← attributes_of matched query.effective_fields
      geometry ← geometry_value query.return_geometry (get (text "geometry") fs)
      ok (record { id = oid; attributes = values; geometry = geometry })

    unfoldable pub take_features : List Feature → List Json → Result Failure (List Feature)
    take_features collected [] = ok collected
    take_features collected (raw ∷ rest) =
        take_feature collected raw >>= λ f. take_features (collected ++ f ∷ []) rest

    -- The last loop: every requested identifier has come.
    unfoldable pub check_omitted : List Feature → List ℤ → Result Failure (Unit {0})
    check_omitted features [] = ok tt
    check_omitted features (i ∷ is) =
        throw_if (not (has_id (ids_of_features features) i)) (exception omitted_ids)
        >> check_omitted features is

    abbrev pub required_wkid : Fields → Result Failure (Option ℕ)
    required_wkid json =
        if query.return_geometry
        then elim (spatial_reference_wkid (get (text "spatialReference") json)) [
          | none ↦ err (exception missing_wkid)
          | some n ↦ ok (some n)
        ]
        else ok none

    abbrev pub page_features : Fields → Option ℕ → Result Failure FeaturePage
    page_features json wkid = elim (array_items (get (text "features") json)) [
      | none ↦ err (exception missing_features)
      | some raw ↦ take_features [] raw >>= λ features.
          check_omitted features query.batch
          >> ok (record { exceeded = false; features = features; wkid = wkid })
    ]

    unfoldable pub validate_feature_page : Fields → Result Failure FeaturePage
    validate_feature_page json = elim (exceeded_flag (get (text "exceededTransferLimit") json)) [
      | none ↦ err (exception page_exceeded_not_boolean)
      | some exceeded ↦ required_wkid json >>= λ wkid.
          if exceeded
          then ok (record { exceeded = true; features = []; wkid = wkid })
          else page_features json wkid
    ]
