-- ===== src/Trace/Expanded.antt =====
-- What the data of an item does to the graph in trace-arcgis-dependencies.ts.
use dymaxion.Prelude.{
  ℕ, ◌≡◌, refl, Text, Option, true, List, [], ◌∷◌, ◌++◌, all, ok, arith, inl, inr, Bool-cases,
  Among-append, text_lt,
}
use dymaxion.ArcGis.Json.{Fields}
use dymaxion.Trace.Types.{Reference, reference_sort_key}
use dymaxion.Trace.Parse.{Texts}
use dymaxion.Trace.Items.{is_good, IsGoodSink, parse_application-IsGood, parse_web_map-IsGood}
use dymaxion.Trace.Graph.{Graph, Ceilings}
use dymaxion.Trace.Expand.{
  insert_reference, sort_references, change_node, take_item_reference, take_reference,
  take_references, expand, parse_data, is_application, unresolved_of,
}
use dymaxion.Trace.Bounded.{Known, IsBounded, Keeps, Keeps-trans}
use dymaxion.Trace.Nodes.{AreReady, KeepsReady, none_ready, same-Keeps, change_node-Keeps}
use dymaxion.Trace.Connected.{take_item-Ready, take_service-Keeps}

insert-good :
    (r : Reference) (rs : List Reference)
    → is_good r ≡ true
    → all is_good rs ≡ true
    → all is_good (insert_reference r rs) ≡ true
unfolding insert_reference
insert-good r [] g h = ground arith
insert-good r (q ∷ qs) g h =
    elim (Bool-cases (text_lt (reference_sort_key q) (reference_sort_key r))) [
      | inl later ↦ ground (arith, insert-good r qs)
      | inr sooner ↦ ground arith
    ]

sort-good : (rs : List Reference) → all is_good rs ≡ true → all is_good (sort_references rs) ≡ true
unfolding sort_references
sort-good [] h = refl
sort-good (r ∷ rs) h =
    insert-good r (sort_references rs) (ground arith) (sort-good rs (ground arith))

pub AreReady-append :
    (g : Graph) (xs ys : List Text) → AreReady g xs → AreReady g ys → AreReady g (xs ++ ys)
AreReady-append g xs ys left right item a = elim (Among-append item xs ys a) [
  | inl l ↦ left item l
  | inr r ↦ right item r
]

module _ (texts : Texts) where
  parse_data-IsGood : (kind : Option Text) (json : Fields) → IsGoodSink (parse_data texts kind json)
  parse_data-IsGood kind json = elim (Bool-cases (is_application kind)) [
    | inl application ↦ rw application (parse_application-IsGood texts json _ refl)
    | inr web_map ↦ rw web_map (parse_web_map-IsGood texts json _ refl)
  ]

  module _ (ceilings : Ceilings) where
    take_reference-Ready :
        (from : Text) (depth : ℕ) (r : Reference) (g : Graph)
        → IsBounded ceilings g
        → Known from g
        → is_good r ≡ true
        → (out : Graph × List Text) × (take_reference texts ceilings from depth r g ≡ ok out)
          × KeepsReady ceilings g out
    unfolding take_reference
    take_reference-Ready from depth r g b k good = elim (Bool-cases r.is_service) [
      | inl service ↦
          let (g', e, keeps) = take_service-Keeps texts ceilings from depth r g b k in
          ((g', []), simp (take_reference, service, e), (keeps, none_ready ceilings g'))
      | inr item ↦ (
        take_item_reference texts ceilings from depth r g,
        rw (take_reference, item) refl,
        take_item-Ready texts ceilings from depth r g b k (ground arith),
      )
    ]

    take_references-Ready :
        (from : Text) (depth : ℕ) (rs : List Reference) (g : Graph)
        → IsBounded ceilings g
        → Known from g
        → all is_good rs ≡ true
        → (out : Graph × List Text) × (take_references texts ceilings from depth rs g ≡ ok out)
          × KeepsReady ceilings g out
    unfolding take_references
    take_references-Ready from depth [] g b k good =
        ((g, []), refl, (same-Keeps ceilings g b, none_ready ceilings g))
    take_references-Ready from depth (r ∷ rs) g b k good =
        let ((g', items), e, (keeps, ready)) =
          take_reference-Ready from depth r g b k (ground arith) in
        let ((g'', rest), e', (keeps', ready')) =
          take_references-Ready from depth rs g' keeps.bounded (keeps.known from k)
            (ground arith) in
        let left : AreReady g'' items =
          λ item a. let (is_id, known) = ready item a in (is_id, keeps'.known _ known) in
        (
          (g'', items ++ rest),
          rw (take_references, e, e') refl,
          (Keeps-trans keeps keeps', AreReady-append g'' items rest left ready'),
        )

    -- In a graph within its ceilings, where each edge joins two of its nodes, and which has the
    -- item's node, the data of the item, whatever it is, is taken in without an error. Afterwards
    -- the graph is within its ceilings and each edge joins two of its nodes, no node is lost, and
    -- the items for the next level have identifiers of 32 small hexadecimal digits, and nodes.
    pub expand-Ready :
        (id : Text) (depth : ℕ) (kind : Option Text) (json : Fields) (g : Graph)
        → IsBounded ceilings g
        → Known id g
        → (out : Graph × List Text) × (expand texts ceilings id depth kind json g ≡ ok out)
          × KeepsReady ceilings g out
    unfolding expand
    expand-Ready id depth kind json g b k =
        let sink = parse_data texts kind json in
        let g' = change_node id (λ n. record n { expanded = true }) g in
        let h : Graph = record g' {
          unresolved = g.unresolved ++ unresolved_of texts ceilings id sink;
        } in
        let changed =
          change_node-Keeps ceilings id (λ n. record n { expanded = true }) (λ n. refl) g b in
        let keeps : Keeps ceilings g h = record {
          bounded = record {
            nodes = changed.bounded.nodes;
            edges = changed.bounded.edges;
            ends = changed.bounded.ends;
          };
          known = changed.known;
        } in
        let (out, e, (keeps', ready)) =
          take_references-Ready id depth (sort_references sink.refs) h keeps.bounded
            (keeps.known id k) (sort-good sink.refs (parse_data-IsGood kind json)) in
        (out, e, (Keeps-trans keeps keeps', ready))
