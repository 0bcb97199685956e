-- ===== src/Trace/Connected.antt =====
-- The nodes and edges that the references of an item add in trace-arcgis-dependencies.ts.
use dymaxion.Prelude.{
  ℕ, ◌+◌, ◌≡◌, refl, Text, text, Option, none, some, Bool, true, false, leb, List, [], ◌∷◌, ◌++◌,
  length, ok, inl, inr, Bool-cases, Option-cases,
}
use mathlib.Core.Path.{subst}
use dymaxion.Trace.Types.{Reference}
use dymaxion.Trace.Parse.{Texts, is_item_id}
use dymaxion.Trace.Graph.{
  Graph, Ceilings, truncate, find_node, item_node_id, ensure_item_node, edge_ceiling,
}
use dymaxion.Trace.Expand.{
  connect, reached, connect_new, take_item_reference, connect_service, take_service_reference,
}
use dymaxion.Trace.Bounded.{Known, IsBounded, Keeps, Keeps-trans, truncate-Keeps, add_edge-Keeps}
use dymaxion.Trace.Nodes.{
  AreReady, found-Known, KeepsReady, none_ready, Has, ensure_item_node-Has, ensure_service_node-Has,
}

module _ (texts : Texts) (ceilings : Ceilings) where
  connect-Keeps :
      (from : Text) (r : Reference) (to : Text) (g : Graph)
      → IsBounded ceilings g
      → Known from g
      → Known to g
      → Keeps ceilings g (connect texts ceilings from r to g).1
  connect-Keeps from r to g b k l = add_edge-Keeps ceilings _ g b k l

  -- The target is in the graph, and comes into the next level where the edge was made.
  reached-Ready :
      (item : Text) (g : Graph) (made : Bool × Graph)
      → Keeps ceilings g made.1
      → Known (item_node_id item) g
      → is_item_id item ≡ true
      → KeepsReady ceilings g (reached texts ceilings item made)
  reached-Ready item g (false, g') keeps l is_id = (keeps, none_ready ceilings g')
  reached-Ready item g (true, g') keeps l is_id = (keeps, ready)
    where
      ready : AreReady g' (item ∷ [])
      ready other (inl same) =
          subst (λ i. (is_item_id i ≡ true) × Known (item_node_id i) g') same
            (is_id, keeps.known (item_node_id item) l)
      ready other (inr a) = absurd a

  pub Ready-after :
      {f g : Graph} (out : Graph × List Text)
      → Keeps ceilings f g
      → KeepsReady ceilings g out
      → KeepsReady ceilings f out
  Ready-after out before (keeps, ready) = (Keeps-trans before keeps, ready)

  connect_new-Ready :
      (from : Text) (r : Reference) (g : Graph) (made : Option Text × Graph)
      → Known from g
      → is_item_id r.target ≡ true
      → Has ceilings (item_node_id r.target) g made
      → KeepsReady ceilings g (connect_new texts ceilings from r made)
  connect_new-Ready from r g (none, g') k is_id has = (has, none_ready ceilings g')
  connect_new-Ready from r g (some to, g') k is_id (keeps, here, same) =
      let there : Known to g' = rw same here in
      Ready-after _ keeps (
        reached-Ready r.target g' (connect texts ceilings from r to g')
          (connect-Keeps from r to g' keeps.bounded (keeps.known from k) there) here is_id)

  pub take_item-Ready :
      (from : Text) (depth : ℕ) (r : Reference) (g : Graph)
      → IsBounded ceilings g
      → Known from g
      → is_item_id r.target ≡ true
      → KeepsReady ceilings g (take_item_reference texts ceilings from depth r g)
  unfolding take_item_reference
  take_item-Ready from depth r g b k is_id =
      elim (Option-cases (find_node (item_node_id r.target) g.nodes)) [
        | inl absent ↦ elim (Bool-cases (leb ceilings.max_edges (length g.edges))) [
          | inl full ↦
              rw (take_item_reference, absent, full)
                (
                  truncate-Keeps ceilings edge_ceiling g b,
                  none_ready ceilings (truncate edge_ceiling g),
                )
          | inr room ↦
              rw (take_item_reference, absent, room)
                (connect_new-Ready from r g (ensure_item_node ceilings r.target (depth + 1) false g)
                  k is_id (ensure_item_node-Has ceilings r.target (depth + 1) false g b))
        ]
        | inr (n, e) ↦
            rw (take_item_reference, e)
              (
                connect-Keeps from r n.id g b k (found-Known (item_node_id r.target) g n e),
                none_ready ceilings (connect texts ceilings from r n.id g).1,
              )
      ]

  connect_service-Keeps :
      (from : Text) (r : Reference) (id : Text) (g : Graph) (made : Option Text × Graph)
      → Known from g
      → Has ceilings id g made
      → Keeps ceilings g (connect_service texts ceilings from r made)
  connect_service-Keeps from r id g (none, g') k has = has
  connect_service-Keeps from r id g (some to, g') k (keeps, here, same) =
      let there : Known to g' = rw same here in
      Keeps-trans keeps (connect-Keeps from r to g' keeps.bounded (keeps.known from k) there)

  pub take_service-Keeps :
      (from : Text) (depth : ℕ) (r : Reference) (g : Graph)
      → IsBounded ceilings g
      → Known from g
      → (g' : Graph) × (take_service_reference texts ceilings from depth r g ≡ ok g')
        × Keeps ceilings g g'
  unfolding take_service_reference
  take_service-Keeps from depth r g b k =
      let id = text "service:" ++ texts.sha256 r.target in
      elim (Option-cases (find_node id g.nodes)) [
        | inl absent ↦ elim (Bool-cases (leb ceilings.max_edges (length g.edges))) [
          | inl full ↦ (
            truncate edge_ceiling g,
            rw (take_service_reference, absent, full) refl,
            truncate-Keeps ceilings edge_ceiling g b,
          )
          | inr room ↦
              let (made, e, has) =
                ensure_service_node-Has ceilings texts.sha256 r.target (depth + 1) g b absent in
              (
                connect_service texts ceilings from r made,
                rw (take_service_reference, absent, room, e) refl,
                connect_service-Keeps from r id g made k has,
              )
        ]
        | inr (n, e) ↦ (
          (connect texts ceilings from r n.id g).1,
          rw (take_service_reference, e) refl,
          connect-Keeps from r n.id g b k (found-Known id g n e),
        )
      ]
