-- ===== src/Trace/Steps.antt =====
-- What holds throughout the traversal of trace-arcgis-dependencies.ts, and the steps that keep it.
use dymaxion.Prelude.{
  ℕ, ◌≤◌, ◌≡◌, refl, Text, some, Bool, true, leb, List, [], Result, ok, err, ◌⊎◌, Among,
}
use mathlib.Core.Path.{subst}
use dymaxion.Prelude.Stateful.{continue}
use dymaxion.Boundary.Url.{Url}
use dymaxion.Boundary.Allowed.{IsReachable}
use dymaxion.ArcGis.Session.{Failure, Outside, Session, Dispatch}
use dymaxion.ArcGis.Rest.{Target}
use dymaxion.Trace.Parse.{is_item_id}
use dymaxion.Trace.Graph.{Graph, Ceilings}
use dymaxion.Trace.Walk.{Tracing}
use dymaxion.Trace.Bounded.{Known, IsBounded, Keeps}
use dymaxion.Trace.Nodes.{AreReady, none_ready}

module _ (ceilings : Ceilings) (outside : Outside) (item_url : Text → Bool → Target)
    (start : Session) where
  -- A request for an item, or for its data, to a URL that may be reached
  pub record IsForItem (d : Dispatch) : Type 0 where
    pub item : Text
    pub with_data : Bool
    pub is_id : is_item_id item ≡ true
    pub url : d.request.url ≡ (item_url item with_data).href
    pub reachable :
        (url : Url) × (n : ℕ) × ((outside.network n).parse_url (item_url item with_data).href
          ≡ some url)
        × IsReachable outside.config (outside.network n) url

  -- What holds throughout: the bounds of the graph, the ceiling of the requests, and that all that
  -- has been sent since the start are requests for items
  pub record IsTracing (w : Tracing) : Type 0 where
    pub graph : IsBounded ceilings w.graph
    pub count : w.session.budget.request_count ≤ w.session.budget.max_requests
    pub max_requests : w.session.budget.max_requests ≡ start.budget.max_requests
    pub sent :
        (d : Dispatch) → Among d w.session.dispatched → Among d start.dispatched ⊎ IsForItem d

  -- What a step leaves, and what its result satisfies
  pub record IsAfter {A : Type 0} (Q : A → Tracing → Type 0) (w : Tracing)
      (out : Result Failure A × Tracing) : Type 0 where
    pub tracing : IsTracing out.1
    pub known : (id : Text) → Known id w.graph → Known id out.1.graph
    pub result : (a : A) → out.0 ≡ ok a → Q a out.1

  pub IsAfter-bind :
      {A B : Type 0} {P : A → Tracing → Type 0} {Q : B → Tracing → Type 0} (w : Tracing)
      (first : Result Failure A × Tracing) (next : A → Tracing → Result Failure B × Tracing)
      → IsAfter P w first
      → ((a : A) (u : Tracing)
          → IsTracing u
          → ((id : Text) → Known id w.graph → Known id u.graph)
          → P a u
          → IsAfter Q u (next a u))
      → IsAfter Q w (continue next first)
  IsAfter-bind w (ok a, u) next before rest =
      let after = rest a u before.tracing before.known (before.result a refl) in
      record {
        tracing = after.tracing;
        known = λ id k. after.known id (before.known id k);
        result = after.result;
      }
  IsAfter-bind w (err e, u) next before rest = record {
    tracing = before.tracing;
    known = before.known;
    result = λ b h. cc;
  }

  pub ok-IsAfter :
      {A : Type 0} {Q : A → Tracing → Type 0} (w : Tracing) (a : A)
      → IsTracing w
      → Q a w
      → IsAfter Q w (ok a, w)
  ok-IsAfter {Q = Q} w a t q = record {
    tracing = t;
    known = λ id k. k;
    result = λ b h. let same : a ≡ b = cc in subst (λ c. Q c w) same q;
  }

  -- A step that changes the graph only
  pub graph-IsAfter :
      {A : Type 0} {Q : A → Tracing → Type 0} (w : Tracing) (g : Graph) (a : A)
      → IsTracing w
      → Keeps ceilings w.graph g
      → Q a (record w { graph = g })
      → IsAfter Q w (ok a, record w { graph = g })
  graph-IsAfter {Q = Q} w g a t keeps q = record {
    tracing = record {
      graph = keeps.bounded;
      count = t.count;
      max_requests = t.max_requests;
      sent = t.sent;
    };
    known = keeps.known;
    result = λ b h. let same : a ≡ b = cc in subst (λ c. Q c (record w { graph = g })) same q;
  }

  -- The items that a visit brings into the next level, none from the last one
  abbrev pub Next : ℕ → List Text → Tracing → Type 0
  Next depth items w = AreReady w.graph items × (leb ceilings.max_depth depth ≡ true → items ≡ [])

  pub nothing-Next :
      (depth : ℕ) (w : Tracing) (g : Graph)
      → IsTracing w
      → Keeps ceilings w.graph g
      → IsAfter (Next depth) w (ok [], record w { graph = g })
  nothing-Next depth w g t keeps =
      graph-IsAfter {Q = Next depth} w g [] t keeps (none_ready ceilings g, λ h. refl)
