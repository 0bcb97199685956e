-- ===== src/Query/Tests.antt =====
-- A query of three features in pages of two, of which the first is split, for the definitions of
-- query-feature-service.ts.
use dymaxion.Prelude.{
  ℕ, ◌+◌, ◌≡◌, refl, Text, text, text_eq, text_lt, starts_with, none, some, true, false, [], ◌∷◌,
  List, ok, lookup, arith,
}
use dymaxion.Prelude.Int.{ℤ, pos, int_eq, int_lt}
use dymaxion.Boundary.Glob.{glob_match, after_star, lower, is_hostname_denied, is_line_end}
use dymaxion.Boundary.Url.{
  assert_url_allowed, check_url, check_addresses, is_private_address, is_private_v4, octets,
  without_dot, ends_local,
}
use dymaxion.ArcGis.Json.{Json, bool, string, get, items_of, entries_of}
use dymaxion.ArcGis.Session.{Outside, throw_if_aborted, request_timeout_ms, request_max_bytes}
use dymaxion.ArcGis.Rest.{includes, judge, check_form, check_boundary, send, request_arcgis_json}
use dymaxion.ArcGis.Counted.{Call, request_limited, request_counted}
use dymaxion.ArcGis.Samples.{server, session, at, obj, arr, number}
use dymaxion.Query.Metadata.{
  Sanitizers, LayerMetadata, is_field_name, trim, trim_start, split_commas, spatial_reference_wkid,
  candidate_wkid, metadata_wkid, take_field, take_fields, object_id_fields, object_id_of,
  sanitize_metadata_string, validate_layer_metadata,
}
use dymaxion.Query.Ids.{has_id, insert_id, sort_ids, take_ids, validate_object_ids}
use dymaxion.Query.Page.{
  Feature, own_ids, canonical_field, match_keys, attributes_of, take_feature, take_features,
  check_omitted, validate_feature_page,
}
use dymaxion.Query.Collect.{
  QueryInput, QueryReport, insert_name, sort_names, requested_fields, without_name, batches,
  collect_page, after_page, find_feature, pick, finish, dispatch, take_batch, request_batch,
  collect, retrieve, execute_feature_service_query, no_features, rounds_of,
}
use dymaxion.Query.Kept.{IsOnce}
use dymaxion.Query.Ascending.{IsAscending-IsOnce}
use dymaxion.Query.Rounds.{Completes, collect-batches-Completes}
use dymaxion.Query.Report.{IsExact, execute_feature_service_query-IsExact}

abbrev layer_json : Json
layer_json = obj (
    (text "id", number 0)
    ∷ (text "type", string (text "Table"))
    ∷ (text "capabilities", string (text "Query"))
    ∷ (
      text "fields",
      arr (
          obj (
            (text "name", string (text "OID"))
            ∷ (text "type", string (text "esriFieldTypeOID"))
            ∷ [])
          ∷ obj ((text "name", string (text "A")) ∷ [])
          ∷ []),
    )
    ∷ (text "maxRecordCount", number 2)
    ∷ [])

abbrev row : ℕ → Json
row n = obj ((text "attributes", obj ((text "oid", number n) ∷ (text "A", number n) ∷ [])) ∷ [])

abbrev page_of : List Json → Json
page_of rows = obj ((text "features", arr rows) ∷ [])

abbrev layer_server : Outside
layer_server = server (
    (text "meta", layer_json)
    ∷ (text "ids", obj ((text "objectIds", arr (number 3 ∷ number 1 ∷ number 2 ∷ [])) ∷ []))
    ∷ (text "f1", obj ((text "exceededTransferLimit", bool true) ∷ []))
    ∷ (text "f2", page_of (row 1 ∷ []))
    ∷ (text "f3", page_of (row 2 ∷ []))
    ∷ (text "f4", page_of (row 3 ∷ []))
    ∷ [])

abbrev call : Text → Call
call t = record { name = t; url = at t; authorization = none; form = some t }

abbrev sanitizers : Sanitizers
sanitizers = record {
  redact_secrets = λ t. t;
  is_credential_name = λ t. false;
  sanitize_geometry = λ fs. ok fs;
}

abbrev input : QueryInput
input = record {
  layer = 0;
  out_fields = text "a" ∷ [];
  return_geometry = false;
  out_sr = none;
  page_size = none;
  max_records = 5;
  metadata_call = call (text "meta");
  ids_call = call (text "ids");
  features_call = λ attempt query. call (b'f' ∷ (b'0' + attempt) ∷ []);
}

abbrev metadata : LayerMetadata
metadata = record {
  name = none;
  is_table = true;
  geometry_type = none;
  object_id_field = text "OID";
  fields =
      (
        text "oid",
        record { name = text "OID"; field_type = text "esriFieldTypeOID"; nullable = false },
      )
      ∷ (text "a", record { name = text "A"; field_type = text "unknown"; nullable = false })
      ∷ [];
  max_record_count = 2;
  source_wkid = none;
}

abbrev feature : ℕ → Feature
feature n = record {
  id = pos n;
  attributes = (text "OID", number n) ∷ (text "A", number n) ∷ [];
  geometry = none;
}

abbrev three : List ℤ
three = pos 1 ∷ pos 2 ∷ pos 3 ∷ []

abbrev report : QueryReport
report = record {
  metadata = metadata;
  effective = text "OID" ∷ text "A" ∷ [];
  matched = three;
  selected = three;
  features = feature 1 ∷ feature 2 ∷ feature 3 ∷ [];
  request_count = 6;
}

reported : (execute_feature_service_query layer_server sanitizers input session).0 ≡ ok report
unfolding execute_feature_service_query dispatch request_counted request_limited request_timeout_ms
    request_max_bytes request_arcgis_json throw_if_aborted check_form check_boundary send judge
    includes get items_of entries_of lookup text_eq text_lt starts_with assert_url_allowed check_url
    check_addresses is_private_address is_private_v4 octets without_dot ends_local lower glob_match
    after_star is_line_end is_hostname_denied validate_layer_metadata is_field_name trim trim_start
    split_commas spatial_reference_wkid candidate_wkid metadata_wkid take_field take_fields
    object_id_fields object_id_of sanitize_metadata_string validate_object_ids has_id insert_id
    sort_ids take_ids own_ids canonical_field match_keys attributes_of take_feature take_features
    check_omitted validate_feature_page insert_name sort_names requested_fields without_name batches
    collect_page after_page find_feature pick finish take_batch request_batch collect retrieve
    int_eq int_lt
reported = refl

execute_feature_service_query-IsExact_example : IsExact layer_server sanitizers input report
execute_feature_service_query-IsExact_example =
    execute_feature_service_query-IsExact layer_server sanitizers input session report (omega arith)
      reported

three-IsOnce : IsOnce three
unfolding int_lt
three-IsOnce = IsAscending-IsOnce three ((refl, (refl, tt)), ((refl, tt), (tt, tt)))

collect-batches-Completes_example :
    Completes layer_server sanitizers input metadata
      (text "OID" ∷ text "A" ∷ [])
      three
      (collect layer_server sanitizers input metadata
        (text "OID" ∷ text "A" ∷ [])
        (rounds_of session)
        (batches 3 2 three)
        no_features
        session).0
collect-batches-Completes_example =
    collect-batches-Completes layer_server sanitizers input metadata (text "OID" ∷ text "A" ∷ [])
      three 2 session three-IsOnce (omega arith)
