-- ===== src/Query/Metadata.antt =====
-- `validateLayerMetadata` of query-feature-service.ts. `redactSecrets` and the test for a name of
-- credentials are arguments; warnings are left out, and letters have the case of ASCII.
use dymaxion.Prelude.{
  ℕ, suc, Text, text, text_eq, Option, none, some, is_none, get_or_else, or_else, Bool, true, false,
  not, ◌&&◌, ◌||◌, if◌then◌else◌, leb, ltb, ◌==◌, List, [], ◌∷◌, ◌++◌, any, all, length, take,
  Result, ok, err, lookup, ◌>>=◌, ◌>>◌, throw_if,
}
use mathlib.Core.List.{reverse}
use dymaxion.Prelude.Int.{pos}
use dymaxion.Boundary.Url.{to_lower}
use dymaxion.Boundary.Payload.{is_letter}
use dymaxion.ArcGis.Json.{
  Json, whole, fraction, infinite, string, bool, object, Fields, get, array_items,
}
use dymaxion.ArcGis.Session.{
  Failure, exception, layer_mismatch, layer_type, no_capabilities, not_queryable, no_fields,
  malformed_field, field_name, duplicate_field, unusable_object_id, not_an_object_id,
  ambiguous_object_id,
}

abbrev pub max_metadata_chars : ℕ
max_metadata_chars = 300

abbrev pub max_field_name_chars : ℕ
max_field_name_chars = 128

abbrev pub fallback_max_record_count : ℕ
fallback_max_record_count = 1_000

pub record MetadataField : Type 0 where
  pub name : Text
  pub field_type : Text
  pub nullable : Bool

-- `LayerMetadataSummary`; the fields are keyed by their names in small letters.
pub record LayerMetadata : Type 0 where
  pub name : Option Text
  pub is_table : Bool
  pub geometry_type : Option Text
  pub object_id_field : Text
  pub fields : List (Text × MetadataField)
  pub max_record_count : ℕ
  pub source_wkid : Option ℕ

pub record Sanitizers : Type 0 where
  pub redact_secrets : Text → Text
  pub is_credential_name : Text → Bool
  pub sanitize_geometry : Fields → Result Failure Fields  -- `sanitizeUntrustedJson`

abbrev pub is_word_unit : ℕ → Bool
is_word_unit c = is_letter c || (leb b'0' c && leb c b'9') || (c == b'_')

-- `FIELD_NAME`
unfoldable pub is_field_name : Text → Bool
is_field_name [] = false
is_field_name (c ∷ s) = (is_letter c || (c == b'_')) && all is_word_unit s

-- What `trim` takes off
abbrev pub is_space : ℕ → Bool
is_space c =
    (leb 9 c && leb c 13)
    || (c == 32)
    || (c == 0xa0)
    || (c == 0x1680)
    || (leb 0x2000 c && leb c 0x200a)
    || (c == 0x2028)
    || (c == 0x2029)
    || (c == 0x202f)
    || (c == 0x205f)
    || (c == 0x3000)
    || (c == 0xfeff)

unfoldable pub trim_start : Text → Text
trim_start [] = []
trim_start (c ∷ s) = elim (is_space c) [ true ↦ trim_start s | false ↦ c ∷ s ]

unfoldable pub trim : Text → Text
trim s = reverse (trim_start (reverse (trim_start s)))

-- `split(',')`: the part so far, and the rest
unfoldable pub split_commas : Text → Text → List Text
split_commas part [] = part ∷ []
split_commas part (c ∷ s) = elim (c == b',') [
  | true ↦ part ∷ split_commas [] s
  | false ↦ split_commas (part ++ c ∷ []) s
]

-- A whole number from 1 on, in a value that is a number
abbrev pub positive : Option Json → Option ℕ
positive (some (whole (pos (suc n)))) = some (suc n)
positive _ = none

unfoldable pub spatial_reference_wkid : Option Json → Option ℕ
spatial_reference_wkid (some (object fs)) =
    or_else (positive (get (text "latestWkid") fs)) (positive (get (text "wkid") fs))
spatial_reference_wkid _ = none

-- One of the two candidates of `metadataWkid`
unfoldable pub candidate_wkid : Option Json → Option ℕ
candidate_wkid (some (object fs)) = elim (get (text "spatialReference") fs) [
  | some holder ↦ spatial_reference_wkid (some holder)
  | none ↦ spatial_reference_wkid (some (object fs))
]
candidate_wkid _ = none

unfoldable pub metadata_wkid : Fields → Option ℕ
metadata_wkid metadata =
    or_else (candidate_wkid (get (text "sourceSpatialReference") metadata))
      (candidate_wkid (get (text "extent") metadata))

-- The echo of the layer's number
abbrev pub check_layer_id : ℕ → Option Json → Result Failure (Unit {0})
check_layer_id layer (some (whole (pos n))) = throw_if (not (n == layer)) (exception layer_mismatch)
check_layer_id layer (some (whole other)) = err (exception layer_mismatch)
check_layer_id layer (some (fraction t)) = err (exception layer_mismatch)
check_layer_id layer (some infinite) = err (exception layer_mismatch)
check_layer_id layer _ = ok tt

-- Whether it is a table
abbrev pub layer_kind : Option Json → Result Failure Bool
layer_kind (some (string t)) =
    if text_eq t (text "Feature Layer")
    then ok false
    else if text_eq t (text "Table")
    then ok true
    else err (exception layer_type)
layer_kind _ = err (exception layer_type)

abbrev pub check_capabilities : Option Json → Result Failure (Unit {0})
check_capabilities (some (string t)) =
    throw_if
      (not (any (λ token. text_eq (to_lower (trim token)) (text "query")) (split_commas [] t)))
      (exception not_queryable)
check_capabilities _ = err (exception no_capabilities)

abbrev pub nonempty_items : Option (List Json) → Result Failure (List Json)
nonempty_items (some (x ∷ xs)) = ok (x ∷ xs)
nonempty_items _ = err (exception no_fields)

-- The object and the name of an entry of `fields`
abbrev pub named : Json → Result Failure (Fields × Text)
named (object fs) = elim (get (text "name") fs) [
  | some v ↦ elim v [ string name ↦ ok (fs, name) | _ ↦ err (exception malformed_field) ]
  | none ↦ err (exception malformed_field)
]
named _ = err (exception malformed_field)

module _ (sanitizers : Sanitizers) where
  abbrev pub redacted : Text → Text
  redacted t = take max_metadata_chars (sanitizers.redact_secrets t)

  abbrev pub type_of : Option Json → Text
  type_of (some (string t)) = redacted t
  type_of _ = text "unknown"

  abbrev pub is_true : Option Json → Bool
  is_true (some (bool b)) = b
  is_true _ = false

  -- One entry of `fields`, into the map
  unfoldable pub take_field :
      List (Text × MetadataField) → Json → Result Failure (List (Text × MetadataField))
  take_field fields entry = named entry >>= λ (fs, name).
      throw_if (not (is_field_name name) || ltb max_field_name_chars (length name))
        (exception field_name)
      >> throw_if (not (is_none (lookup (to_lower name) fields))) (exception duplicate_field)
      >> (if sanitizers.is_credential_name name
          then ok fields
          else ok (
              fields
              ++ (
                to_lower name,
                record {
                  name = name;
                  field_type = type_of (get (text "type") fs);
                  nullable = is_true (get (text "nullable") fs);
                },
              )
                ∷ []))

  unfoldable pub take_fields :
      List (Text × MetadataField) → List Json → Result Failure (List (Text × MetadataField))
  take_fields fields [] = ok fields
  take_fields fields (entry ∷ entries) =
      take_field fields entry >>= λ fields'. take_fields fields' entries

  abbrev pub is_object_id : MetadataField → Bool
  is_object_id f = text_eq f.field_type (text "esriFieldTypeOID")

  unfoldable pub object_id_fields : List (Text × MetadataField) → List MetadataField
  object_id_fields [] = []
  object_id_fields ((key, f) ∷ fields) =
      let rest = object_id_fields fields in if is_object_id f then f ∷ rest else rest

  abbrev pub the_only : List MetadataField → Result Failure Text
  the_only (f ∷ []) = ok f.name
  the_only _ = err (exception ambiguous_object_id)

  abbrev pub declared_object_id : List (Text × MetadataField) → Text → Result Failure Text
  declared_object_id fields declared = elim (lookup (to_lower declared) fields) [
    | none ↦ err (exception unusable_object_id)
    | some f ↦ if is_object_id f then ok f.name else err (exception not_an_object_id)
  ]

  unfoldable pub object_id_of : List (Text × MetadataField) → Option Json → Result Failure Text
  object_id_of fields (some (string (c ∷ s))) = declared_object_id fields (c ∷ s)
  object_id_of fields _ = the_only (object_id_fields fields)

  abbrev pub geometry_of : Option Json → Option Text
  geometry_of (some (string (c ∷ s))) = some (redacted (c ∷ s))
  geometry_of _ = none

  abbrev pub capped : Text → Text
  capped t =
      if ltb max_metadata_chars (length t) then take max_metadata_chars t ++ 0x2026 ∷ [] else t

  -- `sanitizeMetadataString`
  unfoldable pub sanitize_metadata_string : Option Json → Option Text
  sanitize_metadata_string (some (string (c ∷ s))) =
      some (capped (sanitizers.redact_secrets (c ∷ s)))
  sanitize_metadata_string _ = none

  unfoldable pub validate_layer_metadata : Fields → ℕ → Result Failure LayerMetadata
  validate_layer_metadata metadata layer = do
    check_layer_id layer (get (text "id") metadata)
    is_table ← layer_kind (get (text "type") metadata)
    check_capabilities (get (text "capabilities") metadata)
    raw ← nonempty_items (array_items (get (text "fields") metadata))
    fields ← take_fields [] raw
    object_id ← object_id_of fields (get (text "objectIdField") metadata)
    ok (record {
      name = sanitize_metadata_string (get (text "name") metadata);
      is_table = is_table;
      geometry_type = geometry_of (get (text "geometryType") metadata);
      object_id_field = object_id;
      fields = fields;
      max_record_count =
          get_or_else (positive (get (text "maxRecordCount") metadata)) fallback_max_record_count;
      source_wkid = metadata_wkid metadata;
    })
