-- ===== src/Trace/Items.antt =====
-- The items that an item's data refers to are identifiers of 32 small hexadecimal digits.
use dymaxion.Prelude.{
  ℕ, suc, ◌≡◌, refl, ap, Text, text, Option, none, some, Bool, true, false, ◌||◌, List, [], ◌∷◌,
  ◌++◌, all, length, arith, inl, inr, Bool-cases, Option-cases,
}
use dymaxion.Boundary.Glob.{lower}
use dymaxion.Boundary.Url.{to_lower}
use dymaxion.ArcGis.Json.{Json, string, object, array, Fields, get, items_of}
use dymaxion.Trace.Types.{Reference, Relationship, Locator}
use dymaxion.Trace.Parse.{
  ServiceUrl, Texts, Sink, PathVerdict, credential, clean, is_hex, is_raw_hex, is_item_id,
  is_raw_item_id, accept_item_reference, accept_path, accept_url, classify_service_path,
  accept_service_reference, accept_map, accept_webmaps, accept_values, accept_entry, accept_entries,
  accept_section, accept_some, base_map_layers, parse_web_mapping_application_data,
  parse_web_map_data, candidates,
}

lower-is_hex : (c : ℕ) → is_raw_hex c ≡ true → is_hex (lower c) ≡ true
unfolding lower
lower-is_hex c h = ground arith

to_lower-hex : (t : Text) → all is_raw_hex t ≡ true → all is_hex (to_lower t) ≡ true
to_lower-hex [] h = refl
to_lower-hex (c ∷ t) h = ground (arith, lower-is_hex c, to_lower-hex t)

length-lower : (t : Text) → length (to_lower t) ≡ length t
length-lower [] = refl
length-lower (c ∷ t) = ap suc (length-lower t)

to_lower-is_item_id : (t : Text) → is_raw_item_id t ≡ true → is_item_id (to_lower t) ≡ true
unfolding is_raw_item_id is_item_id
to_lower-is_item_id t h = ground (arith, to_lower-hex t, length-lower t)

-- A reference of an item is by such an identifier.
abbrev pub is_good : Reference → Bool
is_good r = r.is_service || is_item_id r.target

abbrev pub IsGoodSink : Sink → Type 0
IsGoodSink sink = all is_good sink.refs ≡ true

all-snoc :
    (rs : List Reference) (r : Reference)
    → all is_good rs ≡ true
    → is_good r ≡ true
    → all is_good (rs ++ r ∷ []) ≡ true
all-snoc [] r h g = ground arith
all-snoc (q ∷ rs) r h g = ground (arith, all-snoc rs r)

accept_item-IsGood :
    (v : Json) (relationship : Relationship) (locator : Locator) (sink : Sink)
    → IsGoodSink sink
    → IsGoodSink (accept_item_reference v relationship locator sink)
unfolding accept_item_reference
accept_item-IsGood (string t) relationship locator sink g = elim (Bool-cases (is_raw_item_id t)) [
  | inl raw ↦ rw raw (
      all-snoc sink.refs
        (record {
          is_service = false;
          target = to_lower t;
          relationship = relationship;
          locator = locator;
        })
        g (to_lower-is_item_id t raw))
  | inr other ↦ rw other g
]
accept_item-IsGood _ relationship locator sink g = g

module _ (texts : Texts) where
  accept_path-IsGood :
      (verdict : PathVerdict) (href : Text) (relationship : Relationship) (locator : Locator)
      (sink : Sink)
      → IsGoodSink sink
      → IsGoodSink (accept_path texts verdict href relationship locator sink)
  accept_path-IsGood credential href relationship locator sink g = g
  accept_path-IsGood clean href relationship locator sink g =
      all-snoc sink.refs
        (record {
          is_service = true;
          target = href;
          relationship = relationship;
          locator = locator;
        })
        g refl
  accept_path-IsGood _ href relationship locator sink g = g

  accept_url-IsGood :
      (url : Option ServiceUrl) (relationship : Relationship) (locator : Locator) (sink : Sink)
      → IsGoodSink sink
      → IsGoodSink (accept_url texts url relationship locator sink)
  accept_url-IsGood none relationship locator sink g = g
  accept_url-IsGood (some url) relationship locator sink g = ground (
    arith,
    accept_path-IsGood (classify_service_path texts url.pathname) url.bare_href relationship locator
        sink g,
  )

  accept_service-IsGood :
      (v : Json) (relationship : Relationship) (locator : Locator) (sink : Sink)
      → IsGoodSink sink
      → IsGoodSink (accept_service_reference texts v relationship locator sink)
  unfolding accept_service_reference
  accept_service-IsGood (string []) relationship locator sink g = g
  accept_service-IsGood (string (c ∷ t)) relationship locator sink g =
      accept_url-IsGood (texts.parse_url (c ∷ t)) relationship locator sink g
  accept_service-IsGood _ relationship locator sink g = g

  accept_webmaps-IsGood :
      (vs : List Json) (sink : Sink) → IsGoodSink sink → IsGoodSink (accept_webmaps texts vs sink)
  unfolding accept_webmaps
  accept_webmaps-IsGood [] sink g = g
  accept_webmaps-IsGood (v ∷ vs) sink g =
      accept_webmaps-IsGood vs _ (accept_item-IsGood v _ _ sink g)

  accept_map-IsGood :
      (v : Option Json) (sink : Sink) → IsGoodSink sink → IsGoodSink (accept_map texts v sink)
  accept_map-IsGood (some (object fs)) sink g = elim (Option-cases (get (text "itemId") fs)) [
    | inl missing ↦ rw (accept_map, missing) g
    | inr (v, e) ↦ rw (accept_map, e) (accept_item-IsGood v _ _ sink g)
  ]
  accept_map-IsGood none sink g = g
  accept_map-IsGood (some other) sink g = g

  accept_values-IsGood :
      (v : Option Json) (sink : Sink) → IsGoodSink sink → IsGoodSink (accept_values texts v sink)
  accept_values-IsGood (some (object fs)) sink g = elim (Option-cases (get (text "webmap") fs)) [
    | inl missing ↦ rw (accept_values, missing) g
    | inr (v, e) ↦ rw (accept_values, e) (accept_webmaps-IsGood (candidates texts v) sink g)
  ]
  accept_values-IsGood none sink g = g
  accept_values-IsGood (some other) sink g = g

  pub parse_application-IsGood :
      (json : Fields) (sink : Sink)
      → IsGoodSink sink
      → IsGoodSink (parse_web_mapping_application_data texts json sink)
  unfolding parse_web_mapping_application_data
  parse_application-IsGood json sink g =
      accept_values-IsGood (get (text "values") json) _
        (accept_map-IsGood (get (text "map") json) sink g)

  accept_entry-IsGood :
      (v : Json) (relationship : Relationship) (item_locator url_locator : Locator) (sink : Sink)
      → IsGoodSink sink
      → IsGoodSink (accept_entry texts v relationship item_locator url_locator sink)
  accept_entry-IsGood (object fs) relationship item_locator url_locator sink g =
      url-IsGood (get (text "url") fs) _ (item-IsGood (get (text "itemId") fs))
    where
      item-IsGood :
          (v : Option Json)
          → IsGoodSink (accept_some texts v accept_item_reference relationship item_locator sink)
      item-IsGood none = g
      item-IsGood (some v) = accept_item-IsGood v relationship item_locator sink g

      url-IsGood :
          (v : Option Json) (s : Sink)
          → IsGoodSink s
          → IsGoodSink
              (accept_some texts v (accept_service_reference texts) relationship url_locator s)
      url-IsGood none s h = h
      url-IsGood (some v) s h = accept_service-IsGood v relationship url_locator s h
  accept_entry-IsGood _ relationship item_locator url_locator sink g = g

  accept_entries-IsGood :
      (vs : List Json) (relationship : Relationship) (item_locator url_locator : Locator)
      (sink : Sink)
      → IsGoodSink sink
      → IsGoodSink (accept_entries texts vs relationship item_locator url_locator sink)
  unfolding accept_entries
  accept_entries-IsGood [] relationship item_locator url_locator sink g = g
  accept_entries-IsGood (v ∷ vs) relationship item_locator url_locator sink g =
      accept_entries-IsGood vs relationship item_locator url_locator _
        (accept_entry-IsGood v relationship item_locator url_locator sink g)

  accept_section-IsGood :
      (v : Option Json) (relationship : Relationship) (item_locator url_locator : Locator)
      (sink : Sink)
      → IsGoodSink sink
      → IsGoodSink (accept_section texts v relationship item_locator url_locator sink)
  accept_section-IsGood (some (array vs)) relationship item_locator url_locator sink g =
      accept_entries-IsGood (items_of vs) relationship item_locator url_locator sink g
  accept_section-IsGood none relationship item_locator url_locator sink g = g
  accept_section-IsGood (some other) relationship item_locator url_locator sink g = g

  pub parse_web_map-IsGood :
      (json : Fields) (sink : Sink)
      → IsGoodSink sink
      → IsGoodSink (parse_web_map_data texts json sink)
  unfolding parse_web_map_data
  parse_web_map-IsGood json sink g =
      accept_section-IsGood (base_map_layers texts (get (text "baseMap") json)) _ _ _ _ (
        accept_section-IsGood (get (text "tables") json) _ _ _ _
          (accept_section-IsGood (get (text "operationalLayers") json) _ _ _ sink g))
