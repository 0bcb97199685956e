-- ===== src/ArcGis/Accounting.antt =====
-- What a counted request leaves of the budget, the evidence and what has been sent.
use dymaxion.Prelude.{
  ℕ, ◌+◌, ◌-◌, ◌≤◌, ◌≡◌, refl, ap, ◌∙◌, Option, none, some, leb, List, [], ◌∷◌, ◌++◌, Result, ok,
  err, ◌⊎◌, inl, inr, arith, Bool-cases,
}
use Prim.Native.Nat.{min}
use mathlib.Core.Path.{sym, subst}
use mathlib.Core.List.{append-nil}
use dymaxion.Prelude.Stateful.{continue}
use dymaxion.Boundary.Url.{Url}
use dymaxion.Boundary.Allowed.{IsReachable}
use dymaxion.ArcGis.Session.{
  Evidence, Exception, Failure, byte_limit, request_failure, exception, Outside, Session, Dispatch,
  Budget, Request, timeout_ms_ceiling, duration_ceiling, total_bytes_ceiling, request_timeout_ms,
  request_max_bytes, tick,
}
use dymaxion.ArcGis.Rest.{JsonResult, request_arcgis_json}
use dymaxion.ArcGis.Guard.{request_arcgis_json-IsSafe}
use dymaxion.ArcGis.Replies.{IsSound}
use dymaxion.ArcGis.Counted.{
  Call, count_request, account, options_of, request_limited, request_counted,
}

module _ (outside : Outside) (call : Call) where
  -- At most one request has been sent, the call's, and to a URL that may be reached.
  pub record IsSent (before : List Dispatch) (after : List Dispatch) : Type 0 where
    pub sent :
        (after ≡ before)
        ⊎ ((d : Dispatch) × (after ≡ before ++ d ∷ [])
            × (d.request.url ≡ call.url.href)
            × ((url : Url) × (n : ℕ) × ((outside.network n).parse_url call.url.href ≡ some url)
                × IsReachable outside.config (outside.network n) url))

  -- What an outcome with evidence adds to the bytes stays within the total; but the refusal of a
  -- response that is too long may go over.
  abbrev pub StaysWithin : ℕ → ℕ → Result Failure JsonResult → Type 0
  StaysWithin used total (ok result) = used + result.evidence.bytes ≤ total
  StaysWithin used total (err (request_failure kind status evidence)) =
      (kind ≡ byte_limit) ⊎ (used + evidence.bytes ≤ total)
  StaysWithin used total (err (exception e)) = Unit {0}

  record IsLimited (s : Session) (after : Result Failure JsonResult × Session) : Type 0 where
    budget : after.1.budget ≡ s.budget
    requests : after.1.requests ≡ s.requests
    sent : IsSent s.dispatched after.1.dispatched
    bounded : StaysWithin s.budget.bytes_used s.budget.max_total_bytes after.0

  IsLimited-after :
      (s : Session) (first : Result Failure ℕ × Session)
      (next : ℕ → Session → Result Failure JsonResult × Session)
      → first.1.budget ≡ s.budget
      → first.1.requests ≡ s.requests
      → first.1.dispatched ≡ s.dispatched
      → (((n : ℕ) × (first.0 ≡ ok n)) ⊎ ((thrown : Exception) × (first.0 ≡ err (exception thrown))))
      → ((n : ℕ) → first.0 ≡ ok n → IsLimited first.1 (next n first.1))
      → IsLimited s (continue next first)
  IsLimited-after s (ok n, t) next b r d _ rest =
      let inner : IsLimited t (next n t) = rest n refl in
      record {
        budget = inner.budget ∙ b;
        requests = inner.requests ∙ r;
        sent = subst (λ (l : List Dispatch). IsSent l (next n t).1.dispatched) d inner.sent;
        bounded =
            subst
              (λ (budget : Budget).
                StaysWithin budget.bytes_used budget.max_total_bytes (next n t).0)
              b inner.bounded;
      }
  IsLimited-after s (err e, t) next b r d (inl (n, bad)) rest = cc
  IsLimited-after s (err e, t) next b r d (inr (thrown, same)) rest = record {
    budget = b;
    requests = r;
    sent = record { sent = inl d };
    bounded =
        let silent : exception thrown ≡ e = cc in
        subst (λ (f : Failure). StaysWithin s.budget.bytes_used s.budget.max_total_bytes (err f))
          silent tt;
  }

  request_timeout_ms-outcome :
      (s : Session)
      → ((n : ℕ) × ((request_timeout_ms outside s).0 ≡ ok n))
        ⊎ ((thrown : Exception) × ((request_timeout_ms outside s).0 ≡ err (exception thrown)))
  unfolding request_timeout_ms
  request_timeout_ms-outcome s = elim (Bool-cases (leb s.budget.deadline (outside.now s.ticks))) [
    | inl late ↦ inr (duration_ceiling, ground arith)
    | inr early ↦
        inl (min timeout_ms_ceiling (s.budget.deadline - outside.now s.ticks), ground arith)
  ]

  -- The bytes that a request may have: no more than what is left
  request_max_bytes-outcome :
      (s : Session)
      → ((n : ℕ) × ((request_max_bytes s).0 ≡ ok n))
        ⊎ ((thrown : Exception) × ((request_max_bytes s).0 ≡ err (exception thrown)))
  unfolding request_max_bytes
  request_max_bytes-outcome s =
      elim (Bool-cases (leb s.budget.max_total_bytes s.budget.bytes_used)) [
        | inl spent ↦ inr (total_bytes_ceiling, ground arith)
        | inr room ↦ inl (
          min s.budget.max_response_bytes (s.budget.max_total_bytes - s.budget.bytes_used),
          ground arith,
        )
      ]

  request_max_bytes-le :
      (s : Session) (n : ℕ)
      → (request_max_bytes s).0 ≡ ok n
      → s.budget.bytes_used + n ≤ s.budget.max_total_bytes
  unfolding request_max_bytes
  request_max_bytes-le s n h = ground arith

  IsSound-StaysWithin :
      (timeout_ms max_bytes used total : ℕ) (outcome : Result Failure JsonResult)
      → used + max_bytes ≤ total
      → IsSound outside (options_of outside call timeout_ms max_bytes) outcome
      → StaysWithin used total outcome
  IsSound-StaysWithin timeout_ms max_bytes used total (ok result) room sound =
      let bounded = sound.bounded in omega arith
  IsSound-StaysWithin timeout_ms max_bytes used total (err (exception e)) room sound = tt
  IsSound-StaysWithin timeout_ms max_bytes used total (err (request_failure kind status evidence))
        room sound =
      elim sound.2 [ inl long ↦ inl long | inr short ↦ inr (omega arith) ]

  request-IsLimited :
      (timeout_ms max_bytes : ℕ) (s : Session)
      → s.budget.bytes_used + max_bytes ≤ s.budget.max_total_bytes
      → IsLimited s (request_arcgis_json outside (options_of outside call timeout_ms max_bytes) s)
  request-IsLimited timeout_ms max_bytes s room =
      let options = options_of outside call timeout_ms max_bytes in
      let (guarded, sound) = request_arcgis_json-IsSafe outside options s in
      record {
        budget = guarded.budget;
        requests = guarded.requests;
        sent = record {
          sent = elim guarded.sent [
            | inl unsent ↦ inl unsent.0
            | inr (d, sent, same, answered, reach) ↦
                inr (d, sent, ap (λ (r : Request). r.url) same, reach)
          ];
        };
        bounded = IsSound-StaysWithin timeout_ms max_bytes _ _ _ room sound;
      }

  request_limited-IsLimited : (s : Session) → IsLimited s (request_limited outside call s)
  unfolding request_limited request_timeout_ms request_max_bytes
  request_limited-IsLimited s =
      IsLimited-after s (request_timeout_ms outside s) _ refl refl refl
        (request_timeout_ms-outcome s)
        λ timeout_ms _.
          IsLimited-after (tick s) (request_max_bytes (tick s)) _ refl refl refl
            (request_max_bytes-outcome (tick s))
            λ max_bytes e.
              request-IsLimited timeout_ms max_bytes (tick s)
                (request_max_bytes-le (tick s) max_bytes e)

  -- The response that an outcome has received
  abbrev pub received : Result Failure JsonResult → Option Evidence
  received (ok result) = some result.evidence
  received (err (request_failure kind status evidence)) = some evidence
  received (err (exception e)) = none

  abbrev pub bytes_of : Option Evidence → ℕ
  bytes_of none = 0
  bytes_of (some evidence) = evidence.bytes

  abbrev pub listed : Option Evidence → List Evidence
  listed none = []
  listed (some evidence) = evidence ∷ []

  -- What a counted request does to the state
  pub record IsCounted (s : Session) (after : Result Failure JsonResult × Session) : Type 0 where
    pub count : after.1.budget.request_count ≡ s.budget.request_count + 1
    pub max_requests : after.1.budget.max_requests ≡ s.budget.max_requests
    pub max_total : after.1.budget.max_total_bytes ≡ s.budget.max_total_bytes
    pub used : after.1.budget.bytes_used ≡ s.budget.bytes_used + bytes_of (received after.0)
    pub requests : after.1.requests ≡ s.requests ++ listed (received after.0)
    pub sent : IsSent s.dispatched after.1.dispatched
    pub bounded : StaysWithin s.budget.bytes_used s.budget.max_total_bytes after.0

  account-IsCounted :
      (s : Session) (after : Result Failure JsonResult × Session)
      → IsLimited (count_request s) after
      → IsCounted s (account after)
  account-IsCounted s (ok result, t) l = record {
    count = ap (λ (b : Budget). b.request_count) l.budget;
    max_requests = ap (λ (b : Budget). b.max_requests) l.budget;
    max_total = ap (λ (b : Budget). b.max_total_bytes) l.budget;
    used = ap (λ (b : Budget). b.bytes_used + result.evidence.bytes) l.budget;
    requests = ap (λ (es : List Evidence). es ++ result.evidence ∷ []) l.requests;
    sent = l.sent;
    bounded = l.bounded;
  }
  account-IsCounted s (err (request_failure kind status evidence), t) l = record {
    count = ap (λ (b : Budget). b.request_count) l.budget;
    max_requests = ap (λ (b : Budget). b.max_requests) l.budget;
    max_total = ap (λ (b : Budget). b.max_total_bytes) l.budget;
    used = ap (λ (b : Budget). b.bytes_used + evidence.bytes) l.budget;
    requests = ap (λ (es : List Evidence). es ++ evidence ∷ []) l.requests;
    sent = l.sent;
    bounded = l.bounded;
  }
  account-IsCounted s (err (exception e), t) l = record {
    count = ap (λ (b : Budget). b.request_count) l.budget;
    max_requests = ap (λ (b : Budget). b.max_requests) l.budget;
    max_total = ap (λ (b : Budget). b.max_total_bytes) l.budget;
    used = ap (λ (b : Budget). b.bytes_used) l.budget ∙ omega arith;
    requests = l.requests ∙ sym (append-nil s.requests);
    sent = l.sent;
    bounded = tt;
  }

  -- Every counted request
  pub request_counted-IsCounted : (s : Session) → IsCounted s (request_counted outside call s)
  unfolding request_counted
  request_counted-IsCounted s =
      account-IsCounted s (request_limited outside call (count_request s))
        (request_limited-IsLimited (count_request s))
