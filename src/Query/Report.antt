-- ===== src/Query/Report.antt =====
-- What `executeFeatureServiceQuery` reports, whatever the server answers.
use dymaxion.Prelude.{
  ℕ, zero, suc, ◌≤◌, ◌≡◌, refl, Text, Option, none, some, get_or_else, List, [], length, take, ok,
  arith, Among, text, >>=-eq-ok, ok_injective,
}
use mathlib.Core.Path.{subst}
use dymaxion.Prelude.Int.{ℤ, pos, negsuc}
use dymaxion.Prelude.Stateful.{continue-eq-ok, lift}
use dymaxion.ArcGis.Json.{Json, whole, Fields, get, array_items}
use dymaxion.ArcGis.Session.{Outside, Session, throw_if_aborted}
use dymaxion.Query.Metadata.{
  Sanitizers, LayerMetadata, fallback_max_record_count, positive, check_layer_id, layer_kind,
  check_capabilities, nonempty_items, take_fields, object_id_of, validate_layer_metadata,
}
use dymaxion.Query.Ids.{validate_object_ids}
use dymaxion.Query.Page.{Feature, ids_of_features}
use dymaxion.Query.PageLaws.{names_of}
use dymaxion.Query.Collect.{
  QueryInput, QueryReport, Collection, no_features, batches, collect, retrieve, finish_collection,
  rounds_of, page_size_of, dispatch, require_geometry, requested_fields, effective_fields,
  execute_feature_service_query,
}
use dymaxion.Query.Kept.{IsOnce}
use dymaxion.Query.Rounds.{Completes, collect-batches-Completes}
use dymaxion.Query.Ascending.{
  IsAscending, IsAscending-IsOnce, IsAscending-take, validate_object_ids-IsAscending,
}
use dymaxion.Query.Exact.{finish-exact}

module _ (outside : Outside) (sanitizers : Sanitizers) (input : QueryInput) where
  -- A report with just the lowest matching identifiers, in ascending order, and for each of them a
  -- feature with just the effective fields
  pub record IsExact (report : QueryReport) : Type 0 where
    pub matched : IsAscending report.matched
    pub selected : report.selected ≡ take input.max_records report.matched
    pub features : ids_of_features report.features ≡ report.selected
    pub names : (f : Feature) → Among f report.features → names_of f ≡ report.effective

  -- What the retrieval returns has just the selected identifiers.
  retrieve-exact :
      (metadata : LayerMetadata) (fields : List Text) (selected : List ℤ) (s : Session)
      (features : List Feature)
      → IsOnce selected
      → 1 ≤ page_size_of input metadata
      → (retrieve outside sanitizers input metadata fields selected s).0 ≡ ok features
      → (ids_of_features features ≡ selected)
        × ((f : Feature) → Among f features → names_of f ≡ fields)
  unfolding retrieve
  retrieve-exact metadata fields selected s features once positive h =
      let (c, e, k) =
        continue-eq-ok
          (collect outside sanitizers input metadata fields (rounds_of s)
            (batches (length selected) (page_size_of input metadata) selected) no_features s)
          _ h in
      from_collection c
        (subst (Completes outside sanitizers input metadata fields selected) e (
          collect-batches-Completes outside sanitizers input metadata fields selected
            (page_size_of input metadata) s once positive))
        k
    where
      from_collection :
          (c : Option Collection)
          → Completes outside sanitizers input metadata fields selected (ok c)
          → finish_collection selected c ≡ ok features
          → (ids_of_features features ≡ selected)
            × ((f : Feature) → Among f features → names_of f ≡ fields)
      from_collection none completes k = absurd completes
      from_collection (some c) kept k =
          let (made, finished, ids, names) = finish-exact fields selected c.collected kept in
          let same : made ≡ features = cc in
          subst
            (λ (l : List Feature).
              (ids_of_features l ≡ selected) × ((f : Feature) → Among f l → names_of f ≡ fields))
            same (ids, names)

  positive_pos : (value : Option Json) → 1 ≤ get_or_else (positive value) fallback_max_record_count
  positive_pos none = omega arith
  positive_pos (some (whole (pos zero))) = omega arith
  positive_pos (some (whole (pos (suc n)))) = omega arith
  positive_pos (some (whole (negsuc n))) = omega arith
  positive_pos (some other) = omega arith

  -- A layer whose metadata is accepted allows one record or more at a time.
  max_record_count_pos :
      (json : Fields) (layer : ℕ) (metadata : LayerMetadata)
      → validate_layer_metadata sanitizers json layer ≡ ok metadata
      → 1 ≤ metadata.max_record_count
  unfolding validate_layer_metadata
  max_record_count_pos json layer metadata h =
      let (u, e₁, h₁) = >>=-eq-ok (check_layer_id layer (get (text "id") json)) _ h in
      let (t, e₂, h₂) = >>=-eq-ok (layer_kind (get (text "type") json)) _ h₁ in
      let (v, e₃, h₃) = >>=-eq-ok (check_capabilities (get (text "capabilities") json)) _ h₂ in
      let (raw, e₄, h₄) =
        >>=-eq-ok (nonempty_items (array_items (get (text "fields") json))) _ h₃ in
      let (fields, e₅, h₅) = >>=-eq-ok (take_fields sanitizers [] raw) _ h₄ in
      let (oid, e₆, h₆) =
        >>=-eq-ok (object_id_of sanitizers fields (get (text "objectIdField") json)) _ h₅ in
      let same : get_or_else (positive (get (text "maxRecordCount") json)) fallback_max_record_count
          ≡ metadata.max_record_count =
        cc in
      subst (λ (n : ℕ). 1 ≤ n) same (positive_pos (get (text "maxRecordCount") json))

  page_size_pos :
      (metadata : LayerMetadata)
      → 1 ≤ get_or_else input.page_size 1
      → 1 ≤ metadata.max_record_count
      → 1 ≤ page_size_of input metadata
  page_size_pos metadata given counted = ground arith

  -- Whatever the server, the network, the clock and the cancellation do, what
  -- `executeFeatureServiceQuery` reports for a positive page size, or none, is exact: the matched
  -- identifiers ascend, each once; the selected ones are the lowest of them, as many as `max_records`
  -- allows; the features are those of just these identifiers, in this order, although pages may
  -- have been split and may have come in any order; and each has just the effective fields.
  pub execute_feature_service_query-IsExact :
      (s : Session) (report : QueryReport)
      → 1 ≤ get_or_else input.page_size 1
      → (execute_feature_service_query outside sanitizers input s).0 ≡ ok report
      → IsExact report
  unfolding execute_feature_service_query
  execute_feature_service_query-IsExact s report given h =
      let (u, e₁, h₁) = continue-eq-ok (throw_if_aborted outside s) _ h in
      let (layer, e₂, h₂) =
        continue-eq-ok (dispatch outside sanitizers input.metadata_call _) _ h₁ in
      let (metadata, e₃, h₃) =
        continue-eq-ok (lift (validate_layer_metadata sanitizers layer.json input.layer) _) _ h₂ in
      let (v, e₄, h₄) = continue-eq-ok (lift (require_geometry input metadata) _) _ h₃ in
      let (requested, e₅, h₅) =
        continue-eq-ok (lift (requested_fields metadata input.out_fields) _) _ h₄ in
      let (ids, e₆, h₆) = continue-eq-ok (dispatch outside sanitizers input.ids_call _) _ h₅ in
      let (matched, e₇, h₇) =
        continue-eq-ok (lift (validate_object_ids ids.json metadata.object_id_field) _) _ h₆ in
      let selected = take input.max_records matched in
      let fields = effective_fields metadata requested in
      let (features, e₈, h₈) =
        continue-eq-ok (retrieve outside sanitizers input metadata fields selected _) _ h₇ in
      let ascending : IsAscending matched =
        validate_object_ids-IsAscending ids.json metadata.object_id_field matched e₇ in
      let exact =
        retrieve-exact metadata fields selected _ features
          (IsAscending-IsOnce selected (IsAscending-take input.max_records matched ascending))
          (page_size_pos metadata given (max_record_count_pos layer.json input.layer metadata e₃))
          e₈ in
      subst IsExact (ok_injective h₈)
        (record { matched = ascending; selected = refl; features = exact.0; names = exact.1 })
