-- ===== src/Trace/Tests.antt =====
-- A web map with a layer that is an item and a service, for trace-arcgis-dependencies.ts.
use dymaxion.Prelude.{
  ◌↔◌, ℕ, zero, suc, ◌≡◌, refl, Text, text, text_eq, text_lt, some, true, false, if◌then◌else◌,
  Bool, [], ◌∷◌, ◌++◌, List, ok, length, arith, Result, err,
}
use dymaxion.Boundary.Glob.{lower}
use dymaxion.ArcGis.Json.{string, object, Fields, get, items_of}
use dymaxion.ArcGis.Session.{Outside, Failure}
use dymaxion.ArcGis.Rest.{Target}
use dymaxion.ArcGis.Samples.{server, session, at, obj, arr, fields}
use dymaxion.Trace.Parse.{
  Texts, is_item_id, is_raw_item_id, accept_item_reference, accept_service_reference,
  accept_entries, parse_web_map_data, classify_service_path, decode_passes,
}
use dymaxion.Trace.Graph.{
  Ceilings, Graph, find_node, item_node_id, add_edge, ensure_item_node, ensure_service_node,
}
use dymaxion.Trace.Expand.{
  take_references, take_reference, take_service_reference, take_item_reference, sort_references,
  insert_reference, update_node, expand,
}
use dymaxion.Trace.Walk.{Tracing, trace_graph}
use dymaxion.Trace.Bounded.{IsBounded}
use dymaxion.Trace.Nodes.{KeepsReady}
use dymaxion.Trace.Expanded.{expand-Ready}
use dymaxion.Trace.Types.{Edge, operational_layer, layer_item, reference_sort_key}
use dymaxion.Trace.Impact.{reachable_count, search, neighbours, unseen, has_member, delete_member}
use dymaxion.Trace.Reach.{AreOnce}
use dymaxion.Trace.Reachable.{Reaches, reachable_count-Counts}
use dymaxion.Trace.Sound.{IsTraced, trace_graph-IsTraced}

abbrev repeated : ℕ → ℕ → Text
repeated zero c = []
repeated (suc n) c = c ∷ repeated n c

abbrev map_id : Text
map_id = repeated 32 b'a'

abbrev layer_id : Text
layer_id = repeated 32 b'b'

abbrev map_data : Fields
map_data = fields (
    (
      text "operationalLayers",
      arr (
          obj
            ((text "itemId", string layer_id) ∷ (text "url", string (text "x/FeatureServer")) ∷ [])
          ∷ []),
    )
    ∷ [])

abbrev portal : Outside
portal = server (
    (map_id, obj ((text "type", string (text "Web Map")) ∷ []))
    ∷ (map_id ++ text "/data", object map_data)
    ∷ (layer_id, obj ((text "type", string (text "Feature Service")) ∷ []))
    ∷ [])

abbrev item_url : Text → Bool → Target
item_url item with_data = at (if with_data then item ++ text "/data" else item)

abbrev texts : Texts
texts = record {
  parse_url = λ t. some (record {
    protocol = text "https:";
    username = [];
    password = [];
    pathname = text "/arcgis/rest/services/x/FeatureServer";
    bare_href = t;
  });
  decode = λ t. some t;
  contains_credentials = λ t. false;
  redact_secrets = λ t. t;
  sha256 = λ t. t;
}

abbrev ceilings : Ceilings
ceilings = record { max_depth = 2; max_nodes = 5; max_edges = 5 }

abbrev begun : Tracing
begun = record {
  session = session;
  succeeded = 0;
  graph = record { nodes = []; edges = []; unresolved = []; truncations = [] };
}

trace_graph-IsTraced_example :
    IsTraced texts ceilings portal item_url
      (λ item with_data. item)
      session
      (trace_graph texts ceilings portal item_url (λ item with_data. item) (map_id ∷ []) begun)
unfolding is_item_id
trace_graph-IsTraced_example =
    trace_graph-IsTraced texts ceilings portal item_url (λ item with_data. item) (map_id ∷ []) begun
      refl (omega arith)

-- A graph with the node of the map
abbrev map_only : Graph
map_only = (ensure_item_node ceilings map_id 0 true begun.graph).1

map_only-IsBounded : IsBounded ceilings map_only
unfolding ensure_item_node find_node
map_only-IsBounded = record { nodes = omega arith; edges = omega arith; ends = λ e a. absurd a }

expand-Ready_example :
    (out : Graph × List Text) × (expand texts ceilings
        (item_node_id map_id)
        0
        (some (text "Web Map"))
        map_data
        map_only
      ≡ ok out)
    × KeepsReady ceilings map_only out
unfolding ensure_item_node find_node text_eq
expand-Ready_example =
    expand-Ready texts ceilings (item_node_id map_id) 0 (some (text "Web Map")) map_data map_only
      map_only-IsBounded refl

-- The layer comes into the next level, with its service beside it.
abbrev reached_items : Result Failure (Graph × List Text) → List Text × ℕ × ℕ
reached_items (ok (g, items)) = (items, length g.nodes, length g.edges)
reached_items (err e) = ([], 0, 0)

expand_reaches :
    reached_items
      (expand texts ceilings (item_node_id map_id) 0 (some (text "Web Map")) map_data map_only)
    ≡ (layer_id ∷ [], 3, 2)
unfolding expand take_references take_reference take_service_reference take_item_reference
    sort_references insert_reference update_node text_eq text_lt reference_sort_key
    parse_web_map_data accept_entries accept_service_reference accept_item_reference is_raw_item_id
    classify_service_path decode_passes get items_of lower add_edge ensure_item_node
    ensure_service_node find_node
expand_reaches = refl

abbrev joined : Text → Text → Edge
joined from to = record {
  from = from;
  to = to;
  relationship = operational_layer;
  locator = layer_item;
}

-- A cycle through the start, and a tail
abbrev cyclic : List Edge
cyclic =
    joined (text "a") (text "b")
    ∷ joined (text "b") (text "a")
    ∷ joined (text "b") (text "c")
    ∷ joined (text "d") (text "c")
    ∷ []

reachable_count_runs : reachable_count (λ e. e.from) (λ e. e.to) cyclic (text "a") ≡ some 2
unfolding reachable_count search neighbours unseen has_member delete_member text_eq
reachable_count_runs = refl

reachable_count-Counts_example :
    (found : List Text) × (reachable_count (λ e. e.from) (λ e. e.to) cyclic (text "a")
      ≡ some (length found))
    × AreOnce found
    × ((v : Text)
        → (has_member found v ≡ true) ↔ (
            Reaches (λ e. e.from) (λ e. e.to) cyclic (text "a") v × (text_eq (text "a") v ≡ false)))
reachable_count-Counts_example = reachable_count-Counts (λ e. e.from) (λ e. e.to) cyclic (text "a")
