-- ===== src/Trace/Bounded.antt =====
-- The graph of trace-arcgis-dependencies.ts keeps its ceilings, and its edges join its nodes.
use dymaxion.Prelude.{
  ◌≤◌, ◌≡◌, Text, text_eq_refl, is_none, false, leb, List, [], ◌∷◌, ◌++◌, any, length,
  length-append, arith, inl, inr, Bool-cases, Among, Among-append,
}
use mathlib.Core.Path.{subst}
use dymaxion.Trace.Types.{GraphNode, Edge, same_edge}
use dymaxion.Trace.Graph.{Graph, Ceilings, Truncation, truncate, find_node, add_node, add_edge}

-- There is a node of that identifier.
abbrev pub Known : Text → Graph → Type 0
Known id g = is_none (find_node id g.nodes) ≡ false

pub record IsBounded (ceilings : Ceilings) (g : Graph) : Type 0 where
  pub nodes : length g.nodes ≤ ceilings.max_nodes
  pub edges : length g.edges ≤ ceilings.max_edges
  pub ends : (e : Edge) → Among e g.edges → Known e.from g × Known e.to g

find_node-append :
    (id : Text) (ns : List GraphNode) (n : GraphNode)
    → is_none (find_node id ns) ≡ false
    → is_none (find_node id (ns ++ n ∷ [])) ≡ false
unfolding find_node
find_node-append id [] n h = cc
find_node-append id (m ∷ ns) n h = ground (arith, find_node-append id ns n)

pub find_node-new :
    (ns : List GraphNode) (n : GraphNode) → is_none (find_node n.id (ns ++ n ∷ [])) ≡ false
unfolding find_node
find_node-new [] n = ground (arith, text_eq_refl n.id)
find_node-new (m ∷ ns) n = ground (arith, find_node-new ns n)

-- What a step of the graph leaves: the bounds, and every node that was known
pub record Keeps (ceilings : Ceilings) (g g' : Graph) : Type 0 where
  pub bounded : IsBounded ceilings g'
  pub known : (id : Text) → Known id g → Known id g'

pub Keeps-trans :
    {ceilings : Ceilings} {f g h : Graph}
    → Keeps ceilings f g
    → Keeps ceilings g h
    → Keeps ceilings f h
Keeps-trans k l = record { bounded = l.bounded; known = λ id known. l.known id (k.known id known) }

module _ (ceilings : Ceilings) where
  pub truncate-Keeps :
      (t : Truncation) (g : Graph) → IsBounded ceilings g → Keeps ceilings g (truncate t g)
  truncate-Keeps t g b = record {
    bounded = record { nodes = b.nodes; edges = b.edges; ends = b.ends };
    known = λ id k. k;
  }

  pub add_node-Keeps :
      (n : GraphNode) (g : Graph)
      → IsBounded ceilings g
      → leb ceilings.max_nodes (length g.nodes) ≡ false
      → Keeps ceilings g (add_node n g)
  add_node-Keeps n g b room = record {
    bounded = record {
      nodes = ground (arith, length-append g.nodes (n ∷ []), b.nodes);
      edges = b.edges;
      ends = λ e a.
          let (from, to) = b.ends e a in
          (find_node-append e.from g.nodes n from, find_node-append e.to g.nodes n to);
    };
    known = λ id k. find_node-append id g.nodes n k;
  }

  pub add_edge-Keeps :
      (e : Edge) (g : Graph)
      → IsBounded ceilings g
      → Known e.from g
      → Known e.to g
      → Keeps ceilings g (add_edge ceilings e g).1
  unfolding add_edge
  add_edge-Keeps e g b from to = elim (Bool-cases (any (same_edge e) g.edges)) [
    | inl old ↦ rw old (record { bounded = b; known = λ id k. k })
    | inr new ↦ elim (Bool-cases (leb ceilings.max_edges (length g.edges))) [
      | inl full ↦ rw (new, full) (truncate-Keeps _ g b)
      | inr room ↦
          rw (new, room)
            (record {
              bounded = record {
                nodes = b.nodes;
                edges = ground (arith, length-append g.edges (e ∷ []), b.edges);
                ends = λ d a. elim (Among-append d g.edges (e ∷ []) a) [
                  | inl before ↦ b.ends d before
                  | inr (inl same) ↦
                      subst (λ (d : Edge). Known d.from g × Known d.to g) same (from, to)
                  | inr (inr absent) ↦ absurd absent
                ];
              };
              known = λ id k. k;
            })
    ]
  ]
