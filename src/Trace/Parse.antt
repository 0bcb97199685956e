-- ===== src/Trace/Parse.antt =====
-- The references in an item's data: `acceptItemReference`, `classifyServicePath`,
-- `acceptServiceReference`, `parseWebMappingApplicationData` and `parseWebMapData` of
-- trace-arcgis-dependencies.ts. Warnings are left out.
use dymaxion.Prelude.{
  ℕ, zero, suc, Text, text, text_eq, Option, none, some, Bool, true, false, not, ◌&&◌, ◌||◌,
  if◌then◌else◌, leb, ◌==◌, List, [], ◌∷◌, ◌++◌, all, length,
}
use dymaxion.Boundary.Url.{to_lower, is_empty}
use dymaxion.ArcGis.Json.{Json, string, array, object, Fields, get, items_of}
use dymaxion.Trace.Types.{
  Relationship, web_map, operational_layer, table, basemap_layer, Locator, map_item, values_webmap,
  layer_item, layer_url, table_item, table_url, basemap_item, basemap_url, Reference,
  UnresolvedReason, malformed_item_id, unparseable_url, unsupported_url_scheme,
  credential_bearing_url,
}

-- A `URL`, with its text once the query and the fragment are dropped
pub record ServiceUrl : Type 0 where
  pub protocol : Text
  pub username : Text
  pub password : Text
  pub pathname : Text
  pub bare_href : Text

-- `new URL`, `decodeURIComponent`, and the tests and redactions of arcgis-rest.ts
pub record Texts : Type 0 where
  pub parse_url : Text → Option ServiceUrl
  pub decode : Text → Option Text
  pub contains_credentials : Text → Bool
  pub redact_secrets : Text → Text
  pub sha256 : Text → Text

abbrev pub is_hex : ℕ → Bool
is_hex c = (leb b'0' c && leb c b'9') || (leb b'a' c && leb c b'f')

-- `ITEM_ID`
unfoldable pub is_item_id : Text → Bool
is_item_id t = (length t == 32) && all is_hex t

abbrev pub is_raw_hex : ℕ → Bool
is_raw_hex c = is_hex c || (leb b'A' c && leb c b'F')

-- `RAW_ITEM_ID`
unfoldable pub is_raw_item_id : Text → Bool
is_raw_item_id t = (length t == 32) && all is_raw_hex t

-- What a `ReferenceSink` has received
pub record Sink : Type 0 where
  pub refs : List Reference
  pub unresolved : List (Locator × Bool × UnresolvedReason)

abbrev pub add_unresolved : Locator → Bool → UnresolvedReason → Sink → Sink
add_unresolved locator is_service reason sink = record sink {
  unresolved = sink.unresolved ++ (locator, is_service, reason) ∷ [];
}

abbrev pub add_reference : Reference → Sink → Sink
add_reference r sink = record sink { refs = sink.refs ++ r ∷ [] }

unfoldable pub accept_item_reference : Json → Relationship → Locator → Sink → Sink
accept_item_reference (string t) relationship locator sink =
    if is_raw_item_id t
    then add_reference
        (record {
          is_service = false;
          target = to_lower t;
          relationship = relationship;
          locator = locator;
        })
        sink
    else add_unresolved locator false malformed_item_id sink
accept_item_reference _ relationship locator sink =
    add_unresolved locator false malformed_item_id sink

abbrev pub max_path_decode_passes : ℕ
max_path_decode_passes = 3

pub data PathVerdict : Type 0 where
  credential malformed nested clean : PathVerdict

module _ (texts : Texts) where
  -- The loop, with how many passes may still follow
  unfoldable pub decode_passes : ℕ → Text → PathVerdict
  decode_passes zero current = nested
  decode_passes (suc passes) current = elim (texts.decode current) [
    | none ↦ malformed
    | some decoded ↦ elim (texts.contains_credentials decoded) [
      | true ↦ credential
      | false ↦ elim (text_eq decoded current) [
        | true ↦ clean
        | false ↦ decode_passes passes decoded
      ]
    ]
  ]

  unfoldable pub classify_service_path : Text → PathVerdict
  classify_service_path pathname =
      if texts.contains_credentials pathname
      then credential
      else decode_passes max_path_decode_passes pathname

  -- The outcome of the path's verdict
  abbrev pub accept_path : PathVerdict → Text → Relationship → Locator → Sink → Sink
  accept_path credential href relationship locator sink =
      add_unresolved locator true credential_bearing_url sink
  accept_path clean href relationship locator sink =
      add_reference
        (record {
          is_service = true;
          target = href;
          relationship = relationship;
          locator = locator;
        })
        sink
  accept_path _ href relationship locator sink = add_unresolved locator true unparseable_url sink

  abbrev pub accept_url : Option ServiceUrl → Relationship → Locator → Sink → Sink
  accept_url none relationship locator sink = add_unresolved locator true unparseable_url sink
  accept_url (some url) relationship locator sink =
      if not (text_eq url.protocol (text "https:")) && not (text_eq url.protocol (text "http:"))
      then add_unresolved locator true unsupported_url_scheme sink
      else if not (is_empty url.username) || not (is_empty url.password)
      then add_unresolved locator true credential_bearing_url sink
      else accept_path (classify_service_path url.pathname) url.bare_href relationship locator sink

  unfoldable pub accept_service_reference : Json → Relationship → Locator → Sink → Sink
  accept_service_reference (string (c ∷ t)) relationship locator sink =
      accept_url (texts.parse_url (c ∷ t)) relationship locator sink
  accept_service_reference _ relationship locator sink =
      add_unresolved locator true unparseable_url sink

  abbrev pub accept_map : Option Json → Sink → Sink
  accept_map (some (object fs)) sink = elim (get (text "itemId") fs) [
    | none ↦ sink
    | some v ↦ accept_item_reference v web_map map_item sink
  ]
  accept_map _ sink = sink

  unfoldable pub accept_webmaps : List Json → Sink → Sink
  accept_webmaps [] sink = sink
  accept_webmaps (v ∷ vs) sink =
      accept_webmaps vs (accept_item_reference v web_map values_webmap sink)

  -- `Array.isArray(webmap) ? webmap : [webmap]`
  abbrev pub candidates : Json → List Json
  candidates (array vs) = items_of vs
  candidates v = v ∷ []

  abbrev pub accept_values : Option Json → Sink → Sink
  accept_values (some (object fs)) sink = elim (get (text "webmap") fs) [
    | none ↦ sink
    | some v ↦ accept_webmaps (candidates v) sink
  ]
  accept_values _ sink = sink

  unfoldable pub parse_web_mapping_application_data : Fields → Sink → Sink
  parse_web_mapping_application_data json sink =
      accept_values (get (text "values") json) (accept_map (get (text "map") json) sink)

  abbrev pub accept_some :
      Option Json
      → (Json → Relationship → Locator → Sink → Sink)
      → Relationship
      → Locator
      → Sink
      → Sink
  accept_some none accept relationship locator sink = sink
  accept_some (some v) accept relationship locator sink = accept v relationship locator sink

  -- One entry of a section
  abbrev pub accept_entry : Json → Relationship → Locator → Locator → Sink → Sink
  accept_entry (object fs) relationship item_locator url_locator sink =
      accept_some (get (text "url") fs) accept_service_reference relationship url_locator
        (accept_some (get (text "itemId") fs) accept_item_reference relationship item_locator sink)
  accept_entry _ relationship item_locator url_locator sink = sink

  unfoldable pub accept_entries : List Json → Relationship → Locator → Locator → Sink → Sink
  accept_entries [] relationship item_locator url_locator sink = sink
  accept_entries (v ∷ vs) relationship item_locator url_locator sink =
      accept_entries vs relationship item_locator url_locator
        (accept_entry v relationship item_locator url_locator sink)

  abbrev pub accept_section : Option Json → Relationship → Locator → Locator → Sink → Sink
  accept_section (some (array vs)) relationship item_locator url_locator sink =
      accept_entries (items_of vs) relationship item_locator url_locator sink
  accept_section _ relationship item_locator url_locator sink = sink

  abbrev pub base_map_layers : Option Json → Option Json
  base_map_layers (some (object fs)) = get (text "baseMapLayers") fs
  base_map_layers _ = none

  unfoldable pub parse_web_map_data : Fields → Sink → Sink
  parse_web_map_data json sink =
      accept_section (base_map_layers (get (text "baseMap") json)) basemap_layer basemap_item
        basemap_url
        (accept_section (get (text "tables") json) table table_item table_url (
          accept_section (get (text "operationalLayers") json) operational_layer layer_item
            layer_url sink))
