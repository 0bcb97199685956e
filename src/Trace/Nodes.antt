-- ===== src/Trace/Nodes.antt =====
-- The nodes that trace-arcgis-dependencies.ts finds, changes and adds.
use dymaxion.Prelude.{
  ℕ, suc, ◌≡◌, refl, ap, Text, text, text_eq, text_eq_iff, Option, none, some, is_none, Bool, true,
  false, leb, List, [], ◌∷◌, ◌++◌, length, ok, arith, inl, inr, Bool-cases, Option-cases, Among,
}
use dymaxion.Trace.Types.{GraphNode}
use dymaxion.Trace.Parse.{is_item_id}
use dymaxion.Trace.Graph.{
  Graph, Ceilings, truncate, find_node, item_node_id, new_item, new_service, add_node,
  ensure_item_node, ensure_service_node, node_ceiling,
}
use dymaxion.Trace.Expand.{update_node, change_node}
use dymaxion.Trace.Bounded.{Known, IsBounded, Keeps, find_node-new, truncate-Keeps, add_node-Keeps}

-- Items that the next level may visit
abbrev pub AreReady : Graph → List Text → Type 0
AreReady g items =
    (item : Text) → Among item items → (is_item_id item ≡ true) × Known (item_node_id item) g

find_node-id :
    (id : Text) (ns : List GraphNode) (n : GraphNode) → find_node id ns ≡ some n → n.id ≡ id
unfolding find_node
find_node-id id [] n e = cc
find_node-id id (m ∷ ns) n e = ground (arith, text_eq_iff m.id id, find_node-id id ns n)

pub found-Known :
    (id : Text) (g : Graph) (n : GraphNode) → find_node id g.nodes ≡ some n → Known n.id g
found-Known id g n e = rw (find_node-id id g.nodes n e, e) refl

length-update :
    (id : Text) (change : GraphNode → GraphNode) (ns : List GraphNode)
    → length (update_node id change ns) ≡ length ns
unfolding update_node
length-update id change [] = refl
length-update id change (n ∷ ns) = ap suc (length-update id change ns)

update-known :
    (at : Text) (change : GraphNode → GraphNode)
    → ((n : GraphNode) → (change n).id ≡ n.id)
    → (id : Text) (ns : List GraphNode) → is_none (find_node id ns) ≡ false
    → is_none (find_node id (update_node at change ns)) ≡ false
unfolding update_node find_node
update-known at change same id [] h = h
update-known at change same id (n ∷ ns) h = elim (Bool-cases (text_eq n.id at)) [
  | inl here ↦ ground (arith, same n, update-known at change same id ns)
  | inr other ↦ ground (arith, update-known at change same id ns)
]

module _ (ceilings : Ceilings) where
  pub change_node-Keeps :
      (at : Text) (change : GraphNode → GraphNode)
      → ((n : GraphNode) → (change n).id ≡ n.id)
      → (g : Graph) → IsBounded ceilings g
      → Keeps ceilings g (change_node at change g)
  change_node-Keeps at change same g b = record {
    bounded = record {
      nodes = rw (length-update at change g.nodes) b.nodes;
      edges = b.edges;
      ends = λ e a.
          let (from, to) = b.ends e a in
          (
            update-known at change same e.from g.nodes from,
            update-known at change same e.to g.nodes to,
          );
    };
    known = λ id k. update-known at change same id g.nodes k;
  }

  pub same-Keeps : (g : Graph) → IsBounded ceilings g → Keeps ceilings g g
  same-Keeps g b = record { bounded = b; known = λ id k. k }

  -- What a reference leaves: the graph, and the items of the next level
  abbrev pub KeepsReady : Graph → Graph × List Text → Type 0
  KeepsReady g (g', items) = Keeps ceilings g g' × AreReady g' items

  pub none_ready : (g : Graph) → AreReady g []
  none_ready g item a = absurd a

  -- A node that is to hand, or none at the ceiling
  abbrev pub Has : Text → Graph → Option Text × Graph → Type 0
  Has id g (none, g') = Keeps ceilings g g'
  Has id g (some made, g') = Keeps ceilings g g' × Known id g' × (made ≡ id)

  pub ensure_item_node-Has :
      (item : Text) (depth : ℕ) (is_root : Bool) (g : Graph)
      → IsBounded ceilings g
      → Has (item_node_id item) g (ensure_item_node ceilings item depth is_root g)
  unfolding ensure_item_node
  ensure_item_node-Has item depth is_root g b =
      elim (Option-cases (find_node (item_node_id item) g.nodes)) [
        | inl absent ↦ elim (Bool-cases (leb ceilings.max_nodes (length g.nodes))) [
          | inl full ↦
              rw (ensure_item_node, absent, full) (truncate-Keeps ceilings node_ceiling g b)
          | inr room ↦
              rw (ensure_item_node, absent, room)
                (
                  add_node-Keeps ceilings (new_item item depth is_root) g b room,
                  find_node-new g.nodes (new_item item depth is_root),
                  refl,
                )
        ]
        | inr (n, e) ↦
            rw (ensure_item_node, e)
              (same-Keeps g b, rw e refl, find_node-id (item_node_id item) g.nodes n e)
      ]

  pub ensure_service_node-Has :
      (sha256 : Text → Text) (url : Text) (depth : ℕ) (g : Graph)
      → IsBounded ceilings g
      → find_node (text "service:" ++ sha256 url) g.nodes ≡ none
      → (made : Option Text × Graph) × (ensure_service_node ceilings sha256 url depth g ≡ ok made)
        × Has (text "service:" ++ sha256 url) g made
  unfolding ensure_service_node
  ensure_service_node-Has sha256 url depth g b absent =
      let id = text "service:" ++ sha256 url in
      let n = new_service id url depth in
      elim (Bool-cases (leb ceilings.max_nodes (length g.nodes))) [
        | inl full ↦ (
          (none, truncate node_ceiling g),
          rw (ensure_service_node, absent, full) refl,
          truncate-Keeps ceilings node_ceiling g b,
        )
        | inr room ↦ (
          (some id, add_node n g),
          rw (ensure_service_node, absent, room) refl,
          (add_node-Keeps ceilings n g b room, find_node-new g.nodes n, refl),
        )
      ]
