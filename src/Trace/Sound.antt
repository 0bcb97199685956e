-- ===== src/Trace/Sound.antt =====
-- The whole traversal of trace-arcgis-dependencies.ts: its bounds, its requests, and its end.
use dymaxion.Prelude.{
  ℕ, zero, suc, ◌+◌, ◌≤◌, ◌≡◌, refl, Text, text_lt, Option, none, some, Bool, true, if◌then◌else◌,
  leb, all, List, [], ◌∷◌, ◌++◌, Result, ok, err, arith, inl, inr, Bool-cases, Among,
}
use mathlib.Core.Path.{subst}
use dymaxion.Prelude.Stateful.{continue, ◌>>=◌, lift}
use dymaxion.ArcGis.Session.{Failure, exception, nothing_succeeded, Outside, Session}
use dymaxion.ArcGis.Rest.{Target}
use dymaxion.Trace.Parse.{Texts, is_item_id}
use dymaxion.Trace.Graph.{Graph, Ceilings, item_node_id, ensure_item_node}
use dymaxion.Trace.Walk.{
  Tracing, insert_item, sort_items, visit_item, visit_level, walk, add_roots, no_graph, trace_graph,
}
use dymaxion.Trace.Bounded.{Known, IsBounded, Keeps, Keeps-trans}
use dymaxion.Trace.Nodes.{AreReady, none_ready, same-Keeps, Has, ensure_item_node-Has}
use dymaxion.Trace.Expanded.{AreReady-append}
use dymaxion.Trace.Steps.{IsTracing, IsAfter, IsAfter-bind, ok-IsAfter, Next}
use dymaxion.Trace.Visit.{visit_item-IsAfter}

-- Sorting adds no item.
Among-insert : (x t : Text) (us : List Text) → Among x (insert_item t us) → Among x (t ∷ us)
unfolding insert_item
Among-insert x t [] a = a
Among-insert x t (u ∷ us) a = elim (Bool-cases (text_lt u t)) [
  | inl later ↦
      elim (subst (λ (b : Bool). Among x (if b then u ∷ insert_item t us else t ∷ u ∷ us)) later
        a) [
          | inl here ↦ inr (inl here)
          | inr rest ↦ elim (Among-insert x t us rest) [ inl here ↦ inl here | inr b ↦ inr (inr b) ]
        ]
  | inr sooner ↦
      subst (λ (b : Bool). Among x (if b then u ∷ insert_item t us else t ∷ u ∷ us)) sooner a
]

Among-sort : (x : Text) (ts : List Text) → Among x (sort_items ts) → Among x ts
unfolding sort_items
Among-sort x [] a = a
Among-sort x (t ∷ ts) a = elim (Among-insert x t (sort_items ts) a) [
  | inl here ↦ inl here
  | inr rest ↦ inr (Among-sort x ts rest)
]

module _ (texts : Texts) (ceilings : Ceilings) (outside : Outside) (item_url : Text → Bool → Target)
    (request_name : Text → Bool → Text) (start : Session) where
  AreReady-Known :
      (g h : Graph) (items : List Text)
      → ((id : Text) → Known id g → Known id h)
      → AreReady g items
      → AreReady h items
  AreReady-Known g h items known ready item a =
      let (is_id, k) = ready item a in (is_id, known (item_node_id item) k)

  visit_level-IsAfter :
      (depth : ℕ) (items : List Text) (w : Tracing)
      → IsTracing ceilings outside item_url start w
      → AreReady w.graph items
      → IsAfter ceilings outside item_url start
          (Next ceilings outside item_url start depth)
          w
          (visit_level texts ceilings outside item_url request_name depth items w)
  unfolding visit_level
  visit_level-IsAfter depth [] w t ready =
      ok-IsAfter ceilings outside item_url start {Q = Next ceilings outside item_url start depth} w
        [] t (none_ready ceilings w.graph, λ late. refl)
  visit_level-IsAfter depth (item ∷ items) w t ready =
      let (is_id, k) = ready item (inl refl) in
      IsAfter-bind ceilings outside item_url start {P = Next ceilings outside item_url start depth}
        w (visit_item texts ceilings outside item_url request_name item depth w)
        (λ reached. visit_level texts ceilings outside item_url request_name depth items >>= λ rest.
          lift (ok (reached ++ rest)))
        (visit_item-IsAfter ceilings outside item_url start texts request_name item depth w is_id t
          k)
        (λ reached u v known (here, end).
          IsAfter-bind ceilings outside item_url start
            {P = Next ceilings outside item_url start depth} u
            (visit_level texts ceilings outside item_url request_name depth items u)
            (λ rest. lift (ok (reached ++ rest)))
            (visit_level-IsAfter depth items u v
              (AreReady-Known w.graph u.graph items known (λ i a. ready i (inr a))))
            (λ rest x y known' (there, end').
              ok-IsAfter ceilings outside item_url start
                {Q = Next ceilings outside item_url start depth} x (reached ++ rest) y
                (
                  AreReady-append x.graph reached rest
                      (AreReady-Known u.graph x.graph reached known' here) there,
                  λ late. rw (end late, end' late) refl,
                )))

  walk-IsAfter :
      (levels depth : ℕ) (items : List Text) (w : Tracing)
      → depth + levels ≡ ceilings.max_depth + 1
      → (leb (ceilings.max_depth + 1) depth ≡ true → items ≡ [])
      → IsTracing ceilings outside item_url start w
      → AreReady w.graph items
      → IsAfter ceilings outside item_url start
          (λ ended u. ended ≡ true)
          w
          (walk texts ceilings outside item_url request_name levels depth items w)
  unfolding walk
  walk-IsAfter levels depth [] w same last t ready = record {
    tracing = t;
    known = λ id k. k;
    result = λ a h. cc;
  }
  walk-IsAfter zero depth (item ∷ items) w same last t ready =
      let none_left = last (ground arith) in absurd cc
  walk-IsAfter (suc levels) depth (item ∷ items) w same last t ready =
      IsAfter-bind ceilings outside item_url start {P = Next ceilings outside item_url start depth}
        w
        (visit_level texts ceilings outside item_url request_name depth (sort_items (item ∷ items))
          w)
        (λ next. walk texts ceilings outside item_url request_name levels (depth + 1) next)
        (visit_level-IsAfter depth (sort_items (item ∷ items)) w t
          (λ i a. ready i (Among-sort i (item ∷ items) a)))
        (λ next u v known (ready', ends).
          walk-IsAfter levels (depth + 1) next u (omega arith) (λ late. ends (ground arith)) v
            ready')

  Has-Keeps :
      (id : Text) (g : Graph) (made : Option Text × Graph)
      → Has ceilings id g made
      → Keeps ceilings g made.1
  Has-Keeps id g (none, h) keeps = keeps
  Has-Keeps id g (some at, h) has = has.0

  with_root :
      (item : Text) (g : Graph) (made : Option Text × Graph) (out : Graph × List Text)
      → is_item_id item ≡ true
      → Has ceilings (item_node_id item) g made
      → Keeps ceilings made.1 out.0
      → AreReady out.0 out.1
      → AreReady out.0 (elim made.0 [ none ↦ out.1 | some id ↦ item ∷ out.1 ])
  with_root item g (none, h) out is_id has keeps ready other a = ready other a
  with_root item g (some id, h) out is_id (before, here, same) keeps ready other (inl it) =
      subst (λ i. (is_item_id i ≡ true) × Known (item_node_id i) out.0) it
        (is_id, keeps.known (item_node_id item) here)
  with_root item g (some id, h) out is_id has keeps ready other (inr a) = ready other a

  add_roots-Ready :
      (roots : List Text) (g : Graph)
      → all is_item_id roots ≡ true
      → IsBounded ceilings g
      → Keeps ceilings g (add_roots texts ceilings outside item_url request_name roots g).0
        × AreReady
            (add_roots texts ceilings outside item_url request_name roots g).0
            (add_roots texts ceilings outside item_url request_name roots g).1
  unfolding add_roots
  add_roots-Ready [] g are b = (same-Keeps ceilings g b, none_ready ceilings g)
  add_roots-Ready (item ∷ items) g are b =
      let made = ensure_item_node ceilings item 0 true g in
      let has = ensure_item_node-Has ceilings item 0 true g b in
      let before = Has-Keeps (item_node_id item) g made has in
      let (keeps, ready) = add_roots-Ready items made.1 (ground arith) before.bounded in
      (
        Keeps-trans before keeps,
        with_root item g made (add_roots texts ceilings outside item_url request_name items made.1)
            (ground arith) has keeps ready,
      )

  -- Where it returns, the levels have come to an end and some request has succeeded.
  abbrev pub HasEnded : Result Failure Bool × Tracing → Type 0
  HasEnded (ok ended, w) = (ended ≡ true) × (1 ≤ w.succeeded)
  HasEnded (err e, w) = Unit {0}

  -- The end of a trace: the bounds hold, whether it has returned or thrown.
  pub record IsTraced (out : Result Failure Bool × Tracing) : Type 0 where
    pub tracing : IsTracing ceilings outside item_url start out.1
    pub ended : HasEnded out

  conclude-IsTraced :
      (w : Tracing) (out : Result Failure Bool × Tracing)
      → IsAfter ceilings outside item_url start (λ ended u. ended ≡ true) w out
      → IsTraced (
          continue
            (λ ended u.
              (if leb u.succeeded 0 then err (exception nothing_succeeded) else ok ended, u))
            out)
  conclude-IsTraced w (err e, u) after = record { tracing = after.tracing; ended = tt }
  conclude-IsTraced w (ok a, u) after = elim (Bool-cases (leb u.succeeded 0)) [
    | inl nothing ↦ rw nothing (record { tracing = after.tracing; ended = tt })
    | inr some_one ↦
        rw some_one
          (record { tracing = after.tracing; ended = (after.result a refl, ground arith) })
  ]

module _ (texts : Texts) (ceilings : Ceilings) (outside : Outside) (item_url : Text → Bool → Target)
    (request_name : Text → Bool → Text) where
  -- Whatever the server, the network, the clock, the cancellation and the content of the items do:
  -- when a trace from roots that are identifiers of items starts with no more requests made than
  -- allowed, then at its end, returned or thrown, the graph has no more nodes and no more edges than
  -- allowed and each edge joins two nodes of it, no more requests have been made than allowed, and
  -- each request sent since the start is for the metadata or the data of an item whose identifier is
  -- 32 small hexadecimal digits, at a URL that may be reached. Where it returns, the last level has
  -- been empty, so that one round for each depth and one more are enough, and at least one request
  -- has succeeded.
  pub trace_graph-IsTraced :
      (roots : List Text) (w : Tracing)
      → all is_item_id roots ≡ true
      → w.session.budget.request_count ≤ w.session.budget.max_requests
      → IsTraced texts ceilings outside item_url request_name w.session
          (trace_graph texts ceilings outside item_url request_name roots w)
  unfolding trace_graph
  trace_graph-IsTraced roots w are room =
      let bare : IsBounded ceilings (no_graph texts ceilings outside item_url request_name) =
        record { nodes = omega arith; edges = omega arith; ends = λ e a. absurd a } in
      let (keeps, ready) =
        add_roots-Ready texts ceilings outside item_url request_name w.session roots _ are bare in
      let u : Tracing = record w {
        graph =
            (add_roots texts ceilings outside item_url request_name roots
              (no_graph texts ceilings outside item_url request_name)).0;
      } in
      let t : IsTracing ceilings outside item_url w.session u = record {
        graph = keeps.bounded;
        count = room;
        max_requests = refl;
        sent = λ d a. inl a;
      } in
      conclude-IsTraced texts ceilings outside item_url request_name w.session u _ (
        walk-IsAfter texts ceilings outside item_url request_name w.session (ceilings.max_depth + 1)
          0 _ u (omega arith) (λ late. absurd (ground arith)) t ready)
