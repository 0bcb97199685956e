-- ===== src/Trace/Visit.antt =====
-- What the visit of one item keeps in trace-arcgis-dependencies.ts.
use dymaxion.Prelude.{
  ℕ, ◌≡◌, refl, ◌∙◌, Text, text, Option, none, some, Bool, true, false, leb, List, [], ◌∷◌, Result,
  ok, err, arith, inl, inr, ◌⊎◌, Bool-cases, Among, Among-append,
}
use mathlib.Core.Path.{subst}
use dymaxion.ArcGis.Json.{Fields, get}
use dymaxion.ArcGis.Session.{Failure, Outside, Session, Dispatch, throw_if_aborted}
use dymaxion.ArcGis.Rest.{Target, JsonResult}
use dymaxion.ArcGis.Counted.{request_counted}
use dymaxion.ArcGis.Accounting.{IsSent, request_counted-IsCounted}
use dymaxion.Trace.Types.{missing}
use dymaxion.Trace.Parse.{Texts, is_item_id}
use dymaxion.Trace.Graph.{Ceilings, item_node_id, depth_ceiling, request_ceiling_reached}
use dymaxion.Trace.Expand.{
  is_expandable, sanitize_metadata_string, described, echoes_other, change_node,
}
use dymaxion.Trace.Walk.{
  Tracing, call_of, tolerate, trace_request, requests_left, lift_graph, take_data, request_data,
  take_metadata, request_metadata, visit_item, on_session,
}
use dymaxion.Trace.Bounded.{Known, truncate-Keeps}
use dymaxion.Trace.Nodes.{change_node-Keeps, same-Keeps}
use dymaxion.Trace.Expanded.{expand-Ready}
use dymaxion.Trace.Steps.{
  IsForItem, IsTracing, IsAfter, IsAfter-bind, graph-IsAfter, Next, nothing-Next,
}

module _ (ceilings : Ceilings) (outside : Outside) (item_url : Text → Bool → Target)
    (start : Session) (texts : Texts) (request_name : Text → Bool → Text) where
  tolerate-IsAfter :
      (w : Tracing) (out : Result Failure JsonResult × Session)
      → IsTracing ceilings outside item_url start (record w { session = out.1 })
      → IsAfter ceilings outside item_url start {A = Option Fields}
          (λ a u. Unit {0})
          w
          (tolerate texts ceilings outside item_url request_name w out)
  tolerate-IsAfter w (ok result, s) t = record {
    tracing = record {
      graph = t.graph;
      count = t.count;
      max_requests = t.max_requests;
      sent = t.sent;
    };
    known = λ id k. k;
    result = λ a h. tt;
  }
  tolerate-IsAfter w (err e, s) t = record { tracing = t; known = λ id k. k; result = λ a h. tt }

  sent_after :
      (item : Text) (with_data : Bool) (before after : List Dispatch)
      → ((d : Dispatch)
          → Among d before
          → Among d start.dispatched ⊎ IsForItem ceilings outside item_url start d)
      → is_item_id item ≡ true
      → IsSent outside
          (call_of texts ceilings outside item_url request_name item with_data)
          before
          after
      → (d : Dispatch) → Among d after
      → Among d start.dispatched ⊎ IsForItem ceilings outside item_url start d
  sent_after item with_data before after old is_id sent d a = elim sent.sent [
    | inl same ↦ old d (subst (λ (l : List Dispatch). Among d l) same a)
    | inr (new, more, url, reachable) ↦
        let b = subst (λ (l : List Dispatch). Among d l) more a in
        elim (Among-append d before (new ∷ []) b) [
          | inl earlier ↦ old d earlier
          | inr (inl it) ↦
              let made : IsForItem ceilings outside item_url start new = record {
                item = item;
                with_data = with_data;
                is_id = is_id;
                url = url;
                reachable = reachable;
              } in
              inr (subst (λ (e : Dispatch). IsForItem ceilings outside item_url start e) it made)
          | inr (inr absent) ↦ absurd absent
        ]
  ]

  trace_request-IsAfter :
      (item : Text) (with_data : Bool) (w : Tracing)
      → is_item_id item ≡ true
      → requests_left texts ceilings outside item_url request_name w ≡ true
      → IsTracing ceilings outside item_url start w
      → IsAfter ceilings outside item_url start {A = Option Fields}
          (λ a u. Unit {0})
          w
          (trace_request texts ceilings outside item_url request_name item with_data w)
  unfolding trace_request
  trace_request-IsAfter item with_data w is_id left t =
      let call = call_of texts ceilings outside item_url request_name item with_data in
      let c = request_counted-IsCounted outside call w.session in
      tolerate-IsAfter w (request_counted outside call w.session) (record {
        graph = t.graph;
        count = let count = c.count in let max = c.max_requests in ground arith;
        max_requests = c.max_requests ∙ t.max_requests;
        sent = sent_after item with_data w.session.dispatched _ t.sent is_id c.sent;
      })

  take_data-IsAfter :
      (item : Text) (depth : ℕ) (kind : Option Text) (body : Option Fields) (w : Tracing)
      → leb ceilings.max_depth depth ≡ false
      → IsTracing ceilings outside item_url start w
      → Known (item_node_id item) w.graph
      → IsAfter ceilings outside item_url start
          (Next ceilings outside item_url start depth)
          w
          (take_data texts ceilings outside item_url request_name item depth kind body w)
  take_data-IsAfter item depth kind none w early t k =
      nothing-Next ceilings outside item_url start depth w w.graph t
        (same-Keeps ceilings w.graph t.graph)
  take_data-IsAfter item depth kind (some json) w early t k =
      let ((g, items), e, (keeps, ready)) =
        expand-Ready texts ceilings (item_node_id item) depth kind json w.graph t.graph k in
      rw (take_data, lift_graph, e)
        (graph-IsAfter ceilings outside item_url start
          {Q = Next ceilings outside item_url start depth} w g items t keeps
          (ready, λ late. absurd (ground arith)))

  request_data-IsAfter :
      (item : Text) (depth : ℕ) (kind : Option Text) (w : Tracing)
      → is_item_id item ≡ true
      → IsTracing ceilings outside item_url start w
      → Known (item_node_id item) w.graph
      → IsAfter ceilings outside item_url start
          (Next ceilings outside item_url start depth)
          w
          (request_data texts ceilings outside item_url request_name item depth kind w)
  unfolding request_data
  request_data-IsAfter item depth kind w is_id t k =
      elim (Bool-cases (leb ceilings.max_depth depth)) [
        | inl late ↦
            rw (request_data, late)
              (nothing-Next ceilings outside item_url start depth w _ t
                (truncate-Keeps ceilings (depth_ceiling item depth) w.graph t.graph))
        | inr early ↦
            elim (Bool-cases (requests_left texts ceilings outside item_url request_name w)) [
              | inl left ↦
                  rw (request_data, early, left)
                    (IsAfter-bind ceilings outside item_url start w
                      (trace_request texts ceilings outside item_url request_name item true w)
                      (take_data texts ceilings outside item_url request_name item depth kind)
                      (trace_request-IsAfter item true w is_id left t)
                      (λ body u v known unit.
                        take_data-IsAfter item depth kind body u early v (known _ k)))
              | inr spent ↦
                  rw (request_data, early, spent)
                    (nothing-Next ceilings outside item_url start depth w _ t
                      (truncate-Keeps ceilings request_ceiling_reached w.graph t.graph))
            ]
      ]

  take_metadata-IsAfter :
      (item : Text) (depth : ℕ) (body : Option Fields) (w : Tracing)
      → is_item_id item ≡ true
      → IsTracing ceilings outside item_url start w
      → Known (item_node_id item) w.graph
      → IsAfter ceilings outside item_url start
          (Next ceilings outside item_url start depth)
          w
          (take_metadata texts ceilings outside item_url request_name item depth body w)
  unfolding take_metadata
  take_metadata-IsAfter item depth none w is_id t k =
      nothing-Next ceilings outside item_url start depth w _ t (
        change_node-Keeps ceilings (item_node_id item) (λ n. record n { support = missing })
          (λ n. refl) w.graph t.graph)
  take_metadata-IsAfter item depth (some json) w is_id t k =
      let kind = sanitize_metadata_string texts (get (text "type") json) in
      let changed =
        change_node-Keeps ceilings (item_node_id item) (described texts json) (λ n. refl) w.graph
          t.graph in
      let g = change_node (item_node_id item) (described texts json) w.graph in
      let after = nothing-Next ceilings outside item_url start depth w g t changed in
      elim (Bool-cases (echoes_other texts item json)) [
        | inl other ↦
            rw (take_metadata, other)
              (record { tracing = t; known = λ id h. h; result = λ a h. cc })
        | inr same ↦ elim (Bool-cases (is_expandable kind)) [
          | inl more ↦
              let rest =
                request_data-IsAfter item depth kind (record w { graph = g }) is_id after.tracing
                  (changed.known _ k) in
              rw (take_metadata, same, more)
                (record {
                  tracing = rest.tracing;
                  known = λ id h. rest.known id (changed.known id h);
                  result = rest.result;
                })
          | inr leaf ↦ rw (take_metadata, same, leaf) after
        ]
      ]

  request_metadata-IsAfter :
      (item : Text) (depth : ℕ) (w : Tracing)
      → is_item_id item ≡ true
      → IsTracing ceilings outside item_url start w
      → Known (item_node_id item) w.graph
      → IsAfter ceilings outside item_url start
          (Next ceilings outside item_url start depth)
          w
          (request_metadata texts ceilings outside item_url request_name item depth w)
  request_metadata-IsAfter item depth w is_id t k =
      elim (Bool-cases (requests_left texts ceilings outside item_url request_name w)) [
        | inl left ↦
            rw (request_metadata, left)
              (IsAfter-bind ceilings outside item_url start w
                (trace_request texts ceilings outside item_url request_name item false w)
                (take_metadata texts ceilings outside item_url request_name item depth)
                (trace_request-IsAfter item false w is_id left t)
                (λ body u v known unit.
                  take_metadata-IsAfter item depth body u is_id v (known _ k)))
        | inr spent ↦
            rw (request_metadata, spent)
              (nothing-Next ceilings outside item_url start depth w _ t
                (truncate-Keeps ceilings request_ceiling_reached w.graph t.graph))
      ]

  -- The visit of an item of a level
  pub visit_item-IsAfter :
      (item : Text) (depth : ℕ) (w : Tracing)
      → is_item_id item ≡ true
      → IsTracing ceilings outside item_url start w
      → Known (item_node_id item) w.graph
      → IsAfter ceilings outside item_url start
          (Next ceilings outside item_url start depth)
          w
          (visit_item texts ceilings outside item_url request_name item depth w)
  unfolding visit_item throw_if_aborted
  visit_item-IsAfter item depth w is_id t k =
      IsAfter-bind ceilings outside item_url start {P = λ a u. Unit {0}} w
        (on_session texts ceilings outside item_url request_name (throw_if_aborted outside) w)
        (λ u. request_metadata texts ceilings outside item_url request_name item depth)
        (record {
          tracing = record {
            graph = t.graph;
            count = t.count;
            max_requests = t.max_requests;
            sent = t.sent;
          };
          known = λ id h. h;
          result = λ a h. tt;
        })
        (λ a u v known unit. request_metadata-IsAfter item depth u is_id v (known _ k))
