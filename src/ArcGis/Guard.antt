-- ===== src/ArcGis/Guard.antt =====
-- What `requestArcGisJson` of arcgis-rest.ts sends, and what it returns.
use dymaxion.Prelude.{
  ℕ, ◌≡◌, refl, ap, ◌∙◌, some, not, ◌||◌, List, [], ◌∷◌, ◌++◌, Result, ok, err, ◌⊎◌, inl, inr,
  arith, Bool-cases, Option-cases, Result-cases,
}
use mathlib.Core.Path.{sym, subst}
use dymaxion.Prelude.Stateful.{continue, lift}
use dymaxion.Boundary.Url.{Url, assert_url_allowed, is_empty}
use dymaxion.Boundary.Allowed.{IsReachable, assert_url_allowed-IsReachable}
use dymaxion.ArcGis.Session.{
  Exception, Failure, exception, Outside, Session, Dispatch, Action, throw_if_aborted, cancelled,
  blocked, post_with_query, post_unsupported,
}
use dymaxion.ArcGis.Rest.{
  Options, JsonResult, judge_reply, request_of, check_form, check_boundary, send,
  request_arcgis_json,
}
use dymaxion.ArcGis.Replies.{IsSound, judge_reply-IsSound}

module _ (outside : Outside) (options : Options) where
  -- What a request leaves behind: the budget and the evidence as they were; and either nothing has
  -- been sent and it throws, or it has sent exactly one request, the one of its options, to a URL
  -- that may be reached by what the network then says, and returns what the reply comes to.
  pub record IsGuarded (s : Session) (after : Result Failure JsonResult × Session) : Type 0 where
    pub budget : after.1.budget ≡ s.budget
    pub requests : after.1.requests ≡ s.requests
    pub sent :
        ((after.1.dispatched ≡ s.dispatched)
          × ((thrown : Exception) × (after.0 ≡ err (exception thrown))))
        ⊎ ((d : Dispatch) × (after.1.dispatched ≡ s.dispatched ++ d ∷ [])
            × (d.request ≡ request_of options)
            × (after.0 ≡ judge_reply outside options (outside.reply d.tick d.request))
            × ((url : Url) × (n : ℕ) × ((outside.network n).parse_url options.url.href ≡ some url)
                × IsReachable outside.config (outside.network n) url))

  -- The steps up to the transport's call: what they keep, and that a URL has been checked.
  check_boundary-IsReachable :
      (s : Session)
      → (check_boundary outside options.url.href s).0 ≡ ok tt
      → (url : Url) × ((outside.network s.ticks).parse_url options.url.href ≡ some url)
        × IsReachable outside.config (outside.network s.ticks) url
  unfolding check_boundary
  check_boundary-IsReachable s h =
      assert_url_allowed-IsReachable outside.config (outside.network s.ticks) options.url.href
        (ground arith)

  -- What a step before the transport's call does: nothing to the budget, the evidence or what has
  -- been sent; and it returns, or throws without evidence.
  record IsSilent (s : Session) (after : Result Failure (Unit {0}) × Session) : Type 0 where
    budget : after.1.budget ≡ s.budget
    requests : after.1.requests ≡ s.requests
    dispatched : after.1.dispatched ≡ s.dispatched
    outcome : (after.0 ≡ ok tt) ⊎ ((thrown : Exception) × (after.0 ≡ err (exception thrown)))

  throw_if_aborted-IsSilent : (s : Session) → IsSilent s (throw_if_aborted outside s)
  unfolding throw_if_aborted
  throw_if_aborted-IsSilent s = record {
    budget = refl;
    requests = refl;
    dispatched = refl;
    outcome = elim (Bool-cases (outside.aborted s.ticks)) [
      | inl e ↦ inr (cancelled, ground arith)
      | inr e ↦ inl (ground arith)
    ];
  }

  check_form-outcome :
      (check_form outside options ≡ ok tt)
      ⊎ ((thrown : Exception) × (check_form outside options ≡ err (exception thrown)))
  unfolding check_form
  check_form-outcome = elim (Option-cases options.form) [
    | inl no_form ↦ inl (ground arith)
    | inr (body, form) ↦
        elim (Bool-cases (not (is_empty options.url.search) || not (is_empty options.url.hash))) [
          | inl query ↦ inr (post_with_query, ground arith)
          | inr plain ↦ elim (Bool-cases outside.supports_post) [
            | inl able ↦ inl (ground arith)
            | inr unable ↦ inr (post_unsupported, ground arith)
          ]
        ]
  ]

  check_form-IsSilent : (s : Session) → IsSilent s (lift (check_form outside options) s)
  check_form-IsSilent s = record {
    budget = refl;
    requests = refl;
    dispatched = refl;
    outcome = check_form-outcome;
  }

  check_boundary-IsSilent : (s : Session) → IsSilent s (check_boundary outside options.url.href s)
  unfolding check_boundary
  check_boundary-IsSilent s = record {
    budget = refl;
    requests = refl;
    dispatched = refl;
    outcome =
        elim (Result-cases
          (assert_url_allowed outside.config (outside.network s.ticks) options.url.href).0) [
            | inl (u, e) ↦ inl (ground arith)
            | inr (v, e) ↦ inr (blocked v, ground arith)
          ];
  }

  guard-after :
      (s : Session) (before : Result Failure (Unit {0}) × Session)
      (next : Unit {0} → Action JsonResult)
      → IsSilent s before
      → (before.0 ≡ ok tt → IsGuarded before.1 (next tt before.1))
      → IsGuarded s (continue next before)
  guard-after s (ok u, s') next silent rest =
      let inner : IsGuarded s' (next u s') = rest refl in
      record {
        budget = inner.budget ∙ silent.budget;
        requests = inner.requests ∙ silent.requests;
        sent = elim inner.sent [
          | inl (unsent, thrown) ↦ inl (unsent ∙ silent.dispatched, thrown)
          | inr (d, sent, same, answered, reach) ↦ inr (
            d,
            sent ∙ ap (λ (l : List Dispatch). l ++ d ∷ []) silent.dispatched,
            same,
            answered,
            reach,
          )
        ];
      }
  guard-after s (err e, s') next silent rest = record {
    budget = silent.budget;
    requests = silent.requests;
    sent = elim silent.outcome [
      | inl bad ↦ cc
      | inr (thrown, same) ↦ inl (silent.dispatched, (thrown, cc))
    ];
  }

  -- The transport's call, once the URL has been checked
  send-IsGuarded :
      (s : Session)
      → ((url : Url) × (n : ℕ) × ((outside.network n).parse_url options.url.href ≡ some url)
          × IsReachable outside.config (outside.network n) url)
      → IsGuarded s (
          continue
            (λ reply. lift (judge_reply outside options reply))
            (send outside (request_of options) s))
  unfolding send
  send-IsGuarded s reach = record {
    budget = refl;
    requests = refl;
    sent = inr (record { tick = s.ticks; request = request_of options }, refl, refl, refl, reach);
  }

  IsReachable-then :
      (s : Session)
      → (check_boundary outside options.url.href s).0 ≡ ok tt
      → (url : Url) × (n : ℕ) × ((outside.network n).parse_url options.url.href ≡ some url)
        × IsReachable outside.config (outside.network n) url
  IsReachable-then s e =
      let (url, parsed, reachable) = check_boundary-IsReachable s e in
      (url, s.ticks, parsed, reachable)

  -- What `requestArcGisJson` does
  pub request_arcgis_json-IsGuarded :
      (s : Session) → IsGuarded s (request_arcgis_json outside options s)
  unfolding request_arcgis_json
  request_arcgis_json-IsGuarded s =
      guard-after s (throw_if_aborted outside s) _ (throw_if_aborted-IsSilent s) λ _.
        guard-after _ (lift (check_form outside options) _) _ (check_form-IsSilent _) λ _.
          guard-after _ (check_boundary outside options.url.href _) _ (check_boundary-IsSilent _)
            λ e.
              guard-after _ (throw_if_aborted outside _) _ (throw_if_aborted-IsSilent _)
                λ _. send-IsGuarded _ (IsReachable-then _ e)

  pub guarded-IsSound :
      (s : Session) (after : Result Failure JsonResult × Session)
      → IsGuarded s after
      → IsSound outside options after.0
  guarded-IsSound s after guarded = elim guarded.sent [
    | inl (unsent, thrown) ↦ subst (IsSound outside options) (sym thrown.1) tt
    | inr (d, sent, same, answered, reach) ↦
        subst (IsSound outside options) (sym answered)
          (judge_reply-IsSound outside options (outside.reply d.tick d.request))
  ]

  -- Whatever the server, the network, the clock and the cancellation do, `requestArcGisJson` leaves
  -- budget and evidence alone, and either sends nothing and throws an exception without evidence, or
  -- sends exactly one request, that of its options, to a URL that the boundary finds reachable, and
  -- its outcome is what it makes of the reply; an object that it returns comes with status 200, no
  -- more bytes than allowed and no `error`, and with the evidence of that name and URL.
  pub request_arcgis_json-IsSafe :
      (s : Session)
      → IsGuarded s (request_arcgis_json outside options s)
        × IsSound outside options (request_arcgis_json outside options s).0
  request_arcgis_json-IsSafe s =
      let guarded = request_arcgis_json-IsGuarded s in (guarded, guarded-IsSound s _ guarded)
