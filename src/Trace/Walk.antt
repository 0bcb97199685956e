-- ===== src/Trace/Walk.antt =====
-- The traversal of `executeTraceArcgisDependencies` in trace-arcgis-dependencies.ts.
use dymaxion.Prelude.{
  ℕ, zero, suc, ◌+◌, Text, text, text_lt, Option, none, some, Bool, true, false, not, ◌&&◌,
  if◌then◌else◌, leb, ltb, List, [], ◌∷◌, ◌++◌, Result, ok, err,
}
use dymaxion.Prelude.Stateful.{Stateful, ◌>>=◌, lift}
use dymaxion.ArcGis.Json.{Fields, get}
use dymaxion.ArcGis.Session.{
  Failure, error_envelope, http_error, request_failure, exception, identity_mismatch,
  nothing_succeeded, Outside, Session, Action, throw_if_aborted,
}
use dymaxion.ArcGis.Rest.{Target, JsonResult}
use dymaxion.ArcGis.Counted.{Call, request_counted}
use dymaxion.Trace.Types.{missing}
use dymaxion.Trace.Parse.{Texts}
use dymaxion.Trace.Graph.{
  Graph, Ceilings, request_ceiling_reached, depth_ceiling, truncate, item_node_id, ensure_item_node,
}
use dymaxion.Trace.Expand.{
  is_expandable, sanitize_metadata_string, described, echoes_other, change_node, expand,
}

-- What the traversal changes: the session of its requests, how many of them have succeeded, and the
-- graph
pub record Tracing : Type 0 where
  pub session : Session
  pub succeeded : ℕ
  pub graph : Graph

abbrev pub Walk : Type 0 → Type 0
Walk A = Stateful Tracing Failure A

-- `sort`, by the names of the nodes, which begin alike
unfoldable pub insert_item : Text → List Text → List Text
insert_item t [] = t ∷ []
insert_item t (u ∷ us) =
    let later = u ∷ insert_item t us in if text_lt u t then later else t ∷ u ∷ us

unfoldable pub sort_items : List Text → List Text
sort_items [] = []
sort_items (t ∷ ts) = insert_item t (sort_items ts)

-- `isItemLevelFailure`
abbrev pub is_item_level : Failure → Bool
is_item_level (request_failure error_envelope status evidence) = true
is_item_level (request_failure http_error status evidence) = leb 400 status && ltb status 500
is_item_level _ = false

module _ (texts : Texts) (ceilings : Ceilings) (outside : Outside) (item_url : Text → Bool → Target)
    (request_name : Text → Bool → Text) where
  -- `itemUrl`, and the name of the request
  abbrev pub call_of : Text → Bool → Call
  call_of item with_data = record {
    name = request_name item with_data;
    url = item_url item with_data;
    authorization = none;
    form = none;
  }

  abbrev pub on_session : Action (Unit {0}) → Walk (Unit {0})
  on_session action w = let (r, s) = action w.session in (r, record w { session = s })

  -- What a reply comes to: the object, or nothing where the failure is the item's own
  abbrev pub tolerate :
      Tracing → Result Failure JsonResult × Session → Result Failure (Option Fields) × Tracing
  tolerate w (ok result, s) =
      (ok (some result.json), record w { session = s; succeeded = w.succeeded + 1 })
  tolerate w (err e, s) = (if is_item_level e then ok none else err e, record w { session = s })

  -- `traceRequest`, with its caller's handler
  unfoldable pub trace_request : Text → Bool → Walk (Option Fields)
  trace_request item with_data w =
      tolerate w (request_counted outside (call_of item with_data) w.session)

  abbrev pub requests_left : Tracing → Bool
  requests_left w = ltb w.session.budget.request_count w.session.budget.max_requests

  abbrev pub lift_graph : (Graph → Result Failure (Graph × List Text)) → Walk (List Text)
  lift_graph change w = elim (change w.graph) [
    | err e ↦ (err e, w)
    | ok (g, reached) ↦ (ok reached, record w { graph = g })
  ]

  -- With the item's data, if it came
  abbrev pub take_data : Text → ℕ → Option Text → Option Fields → Walk (List Text)
  take_data item depth kind none = lift (ok [])
  take_data item depth kind (some json) =
      lift_graph (expand texts ceilings (item_node_id item) depth kind json)

  -- An item that may be expanded
  unfoldable pub request_data : Text → ℕ → Option Text → Walk (List Text)
  request_data item depth kind w =
      if leb ceilings.max_depth depth
      then (ok [], record w { graph = truncate (depth_ceiling item depth) w.graph })
      else if not (requests_left w)
      then (ok [], record w { graph = truncate request_ceiling_reached w.graph })
      else (trace_request item true >>= take_data item depth kind) w

  -- With the item's metadata, if it came
  unfoldable pub take_metadata : Text → ℕ → Option Fields → Walk (List Text)
  take_metadata item depth none w = (
    ok [],
    record w {
      graph = change_node (item_node_id item) (λ n. record n { support = missing }) w.graph;
    },
  )
  take_metadata item depth (some json) w =
      let kind = sanitize_metadata_string texts (get (text "type") json) in
      let w' : Tracing = record w {
        graph = change_node (item_node_id item) (described texts json) w.graph;
      } in
      if echoes_other texts item json
      then (err (exception identity_mismatch), w)
      else if is_expandable kind
      then request_data item depth kind w'
      else (ok [], w')

  abbrev pub request_metadata : Text → ℕ → Walk (List Text)
  request_metadata item depth w =
      if not (requests_left w)
      then (ok [], record w { graph = truncate request_ceiling_reached w.graph })
      else (trace_request item false >>= take_metadata item depth) w

  -- One node of a level; the result are the items that it brings into the next one.
  unfoldable pub visit_item : Text → ℕ → Walk (List Text)
  visit_item item depth = on_session (throw_if_aborted outside) >>= λ u. request_metadata item depth

  unfoldable pub visit_level : ℕ → List Text → Walk (List Text)
  visit_level depth [] = lift (ok [])
  visit_level depth (item ∷ items) = do
    reached ← visit_item item depth
    rest ← visit_level depth items
    lift (ok (reached ++ rest))

  -- The levels, with how many may still follow; false where there are more
  unfoldable pub walk : ℕ → ℕ → List Text → Walk Bool
  walk levels depth [] = lift (ok true)
  walk zero depth (item ∷ items) = lift (ok false)
  walk (suc levels) depth (item ∷ items) =
      visit_level depth (sort_items (item ∷ items)) >>= λ next. walk levels (depth + 1) next

  -- The roots that have a node
  unfoldable pub add_roots : List Text → Graph → Graph × List Text
  add_roots [] g = (g, [])
  add_roots (item ∷ items) g =
      let (made, g') = ensure_item_node ceilings item 0 true g in
      let (g'', rest) = add_roots items g' in
      (g'', elim made [ none ↦ rest | some id ↦ item ∷ rest ])

  abbrev pub no_graph : Graph
  no_graph = record { nodes = []; edges = []; unresolved = []; truncations = [] }

  -- Up to the graph: the canonical roots are a set in order.
  unfoldable pub trace_graph : List Text → Walk Bool
  trace_graph roots w =
      let (g, level) = add_roots roots no_graph in
      (walk (ceilings.max_depth + 1) 0 level >>= λ ended u.
      (if leb u.succeeded 0 then err (exception nothing_succeeded) else ok ended, u))
        (record w { graph = g })
