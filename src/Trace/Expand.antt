-- ===== src/Trace/Expand.antt =====
-- What the data of an item does to the graph in `executeTraceArcgisDependencies` of
-- trace-arcgis-dependencies.ts. A node that the source holds on to is its item's identifier; warnings
-- are left out.
use dymaxion.Prelude.{
  ℕ, ◌+◌, Text, text, text_eq, text_lt, Option, none, some, Bool, true, false, not, ◌||◌,
  if◌then◌else◌, leb, ltb, List, [], ◌∷◌, ◌++◌, map, length, take, Result, ok, err,
}
use dymaxion.Boundary.Url.{to_lower}
use dymaxion.ArcGis.Json.{Json, string, Fields, get, optional_string}
use dymaxion.ArcGis.Session.{Failure}
use dymaxion.Trace.Types.{
  GraphNode, Reference, reference_sort_key, Unresolved, Sharing, public, org, shared, private,
  unknown, expandable, terminal,
}
use dymaxion.Trace.Parse.{Texts, Sink, parse_web_mapping_application_data, parse_web_map_data}
use dymaxion.Trace.Graph.{
  Graph, Ceilings, edge_ceiling, find_node, truncate, item_node_id, ensure_item_node,
  ensure_service_node, add_edge,
}

abbrev pub max_metadata_chars : ℕ
max_metadata_chars = 300

-- `sort`, by the keys of the references
unfoldable pub insert_reference : Reference → List Reference → List Reference
insert_reference r [] = r ∷ []
insert_reference r (q ∷ qs) =
    let later = q ∷ insert_reference r qs in
    if text_lt (reference_sort_key q) (reference_sort_key r) then later else r ∷ q ∷ qs

unfoldable pub sort_references : List Reference → List Reference
sort_references [] = []
sort_references (r ∷ rs) = insert_reference r (sort_references rs)

-- A change of one node
unfoldable pub update_node : Text → (GraphNode → GraphNode) → List GraphNode → List GraphNode
update_node id change [] = []
update_node id change (n ∷ ns) =
    (if text_eq n.id id then change n else n) ∷ update_node id change ns

abbrev pub change_node : Text → (GraphNode → GraphNode) → Graph → Graph
change_node id change g = record g { nodes = update_node id change g.nodes }

-- `normalizeSharing`
abbrev pub normalize_sharing : Option Json → Sharing
normalize_sharing (some (string t)) =
    if text_eq t (text "public")
    then public
    else if text_eq t (text "org")
    then org
    else if text_eq t (text "shared")
    then shared
    else if text_eq t (text "private")
    then private
    else unknown
normalize_sharing _ = unknown

abbrev pub shortened : Text → Text
shortened t =
    if ltb max_metadata_chars (length t) then take max_metadata_chars t ++ 0x2026 ∷ [] else t

abbrev pub is_application : Option Text → Bool
is_application none = false
is_application (some t) = text_eq t (text "Web Mapping Application")

-- `EXPANDABLE_ITEM_TYPES.has(node.type)`
abbrev pub is_expandable : Option Text → Bool
is_expandable none = false
is_expandable (some t) = text_eq t (text "Web Mapping Application") || text_eq t (text "Web Map")

module _ (texts : Texts) where
  -- `sanitizeMetadataString`
  unfoldable pub sanitize_metadata_string : Option Json → Option Text
  sanitize_metadata_string value = elim (optional_string value) [
    | none ↦ none
    | some t ↦ some (shortened (texts.redact_secrets t))
  ]

  -- The node once its metadata has come
  abbrev pub described : Fields → GraphNode → GraphNode
  described json n = record n {
    item_type = sanitize_metadata_string (get (text "type") json);
    title = sanitize_metadata_string (get (text "title") json);
    owner = sanitize_metadata_string (get (text "owner") json);
    access = normalize_sharing (get (text "access") json);
    support =
        if is_expandable (sanitize_metadata_string (get (text "type") json))
        then expandable
        else terminal;
  }

  -- Where the item's metadata echoes another identifier
  abbrev pub echoes_other : Text → Fields → Bool
  echoes_other item json = elim (optional_string (get (text "id") json)) [
    | none ↦ false
    | some echoed ↦ not (text_eq (to_lower echoed) item)
  ]

  abbrev pub parse_data : Option Text → Fields → Sink
  parse_data kind json =
      if is_application kind
      then parse_web_mapping_application_data texts json (record { refs = []; unresolved = [] })
      else parse_web_map_data texts json (record { refs = []; unresolved = [] })

  module _ (ceilings : Ceilings) where
    -- An edge from a node, and whether its target comes into the next level
    abbrev pub connect : Text → Reference → Text → Graph → Bool × Graph
    connect from r to g =
        add_edge ceilings
          (record { from = from; to = to; relationship = r.relationship; locator = r.locator }) g

    abbrev pub reached : Text → Bool × Graph → Graph × List Text
    reached item (true, g) = (g, item ∷ [])
    reached item (false, g) = (g, [])

    abbrev pub connect_new : Text → Reference → Option Text × Graph → Graph × List Text
    connect_new from r (none, g) = (g, [])
    connect_new from r (some to, g) = reached r.target (connect from r to g)

    unfoldable pub take_item_reference : Text → ℕ → Reference → Graph → Graph × List Text
    take_item_reference from depth r g = elim (find_node (item_node_id r.target) g.nodes) [
      | some n ↦ ((connect from r n.id g).1, [])
      | none ↦
          if leb ceilings.max_edges (length g.edges)
          then (truncate edge_ceiling g, [])
          else connect_new from r (ensure_item_node ceilings r.target (depth + 1) false g)
    ]

    abbrev pub connect_service : Text → Reference → Option Text × Graph → Graph
    connect_service from r (none, g) = g
    connect_service from r (some to, g) = (connect from r to g).1

    unfoldable pub take_service_reference : Text → ℕ → Reference → Graph → Result Failure Graph
    take_service_reference from depth r g =
        elim (find_node (text "service:" ++ texts.sha256 r.target) g.nodes) [
          | some n ↦ ok (connect from r n.id g).1
          | none ↦
              if leb ceilings.max_edges (length g.edges)
              then ok (truncate edge_ceiling g)
              else elim (ensure_service_node ceilings texts.sha256 r.target (depth + 1) g) [
                | err e ↦ err e
                | ok made ↦ ok (connect_service from r made)
              ]
        ]

    unfoldable pub take_reference :
        Text → ℕ → Reference → Graph → Result Failure (Graph × List Text)
    take_reference from depth r g =
        if r.is_service
        then elim (take_service_reference from depth r g) [ err e ↦ err e | ok g' ↦ ok (g', []) ]
        else ok (take_item_reference from depth r g)

    unfoldable pub take_references :
        Text → ℕ → List Reference → Graph → Result Failure (Graph × List Text)
    take_references from depth [] g = ok (g, [])
    take_references from depth (r ∷ rs) g = elim (take_reference from depth r g) [
      | err e ↦ err e
      | ok (g', reached) ↦ elim (take_references from depth rs g') [
        | err e ↦ err e
        | ok (g'', rest) ↦ ok (g'', reached ++ rest)
      ]
    ]

    abbrev pub unresolved_of : Text → Sink → List Unresolved
    unresolved_of from sink =
        map (λ u. record { from = from; locator = u.0; is_service = u.1; reason = u.2 })
          sink.unresolved

    -- What the data of an item does to the graph
    unfoldable pub expand :
        Text → ℕ → Option Text → Fields → Graph → Result Failure (Graph × List Text)
    expand id depth kind json g =
        let sink = parse_data kind json in
        let g' : Graph = record g {
          nodes = update_node id (λ n. record n { expanded = true }) g.nodes;
          unresolved = g.unresolved ++ unresolved_of id sink;
        } in
        take_references id depth (sort_references sink.refs) g'
