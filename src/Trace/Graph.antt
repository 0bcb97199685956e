-- ===== src/Trace/Graph.antt =====
-- `ensureItemNode`, `ensureServiceNode` and `addEdge` of trace-arcgis-dependencies.ts.
use dymaxion.Prelude.{
  ℕ, Text, text, text_eq, option_text_eq, Option, none, some, Bool, true, false, not, if◌then◌else◌,
  leb, List, [], ◌∷◌, ◌++◌, any, length, Result, ok, err,
}
use dymaxion.ArcGis.Session.{Failure, exception, identity_collision}
use dymaxion.Trace.Types.{
  GraphNode, Edge, Unresolved, unfetched, service_reference, unknown, same_edge,
}

pub data Truncation : Type 0 where
  node_ceiling edge_ceiling request_ceiling_reached : Truncation
  depth_ceiling : (item : Text) (depth : ℕ) → Truncation

pub record Graph : Type 0 where
  pub nodes : List GraphNode
  pub edges : List Edge
  pub unresolved : List Unresolved  -- and the truncations: the members, with repetitions
  pub truncations : List Truncation

pub record Ceilings : Type 0 where
  pub max_depth : ℕ
  pub max_nodes : ℕ
  pub max_edges : ℕ

unfoldable pub find_node : Text → List GraphNode → Option GraphNode
find_node id [] = none
find_node id (n ∷ ns) = let rest = find_node id ns in if text_eq n.id id then some n else rest

abbrev pub truncate : Truncation → Graph → Graph
truncate t g = record g { truncations = g.truncations ++ t ∷ [] }

abbrev pub item_node_id : Text → Text
item_node_id item = text "item:" ++ item

abbrev pub new_item : Text → ℕ → Bool → GraphNode
new_item item depth is_root = record {
  id = item_node_id item;
  is_service = false;
  item_id = some item;
  service_url = none;
  item_type = none;
  title = none;
  owner = none;
  access = unknown;
  support = unfetched;
  expanded = false;
  depth = depth;
  is_root = is_root;
}

-- The depth is set when the first edge is made.
abbrev pub new_service : Text → Text → ℕ → GraphNode
new_service id url depth = record {
  id = id;
  is_service = true;
  item_id = none;
  service_url = some url;
  item_type = none;
  title = none;
  owner = none;
  access = unknown;
  support = service_reference;
  expanded = false;
  depth = depth;
  is_root = false;
}

abbrev pub add_node : GraphNode → Graph → Graph
add_node n g = record g { nodes = g.nodes ++ n ∷ [] }

module _ (ceilings : Ceilings) where
  -- The node's identifier, or none at the ceiling
  unfoldable pub ensure_item_node : Text → ℕ → Bool → Graph → Option Text × Graph
  ensure_item_node item depth is_root g = elim (find_node (item_node_id item) g.nodes) [
    | some n ↦ (some n.id, g)
    | none ↦
        if leb ceilings.max_nodes (length g.nodes)
        then (none, truncate node_ceiling g)
        else (some (item_node_id item), add_node (new_item item depth is_root) g)
  ]

  unfoldable pub ensure_service_node :
      (Text → Text) → Text → ℕ → Graph → Result Failure (Option Text × Graph)
  ensure_service_node sha256 url depth g =
      let id = text "service:" ++ sha256 url in
      elim (find_node id g.nodes) [
        | some n ↦
            if not (option_text_eq n.service_url (some url))
            then err (exception identity_collision)
            else ok (some id, g)
        | none ↦
            if leb ceilings.max_nodes (length g.nodes)
            then ok (none, truncate node_ceiling g)
            else ok (some id, add_node (new_service id url depth) g)
      ]

  unfoldable pub add_edge : Edge → Graph → Bool × Graph
  add_edge e g =
      if any (same_edge e) g.edges
      then (true, g)
      else if leb ceilings.max_edges (length g.edges)
      then (false, truncate edge_ceiling g)
      else (true, record g { edges = g.edges ++ e ∷ [] })
