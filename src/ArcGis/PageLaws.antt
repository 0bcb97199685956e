-- ===== src/ArcGis/PageLaws.antt =====
-- What `paginateArcGis` of arcgis-rest.ts returns.
use dymaxion.Prelude.{
  ℕ, zero, suc, ◌+◌, ◌≤◌, ◌≡◌, refl, Bool, true, false, not, leb, ◌==◌, List, [], ◌∷◌, ok, ◌⊎◌, inl,
  inr, arith, Bool-cases, Result-cases, length, length-append, get_or_else,
}
use dymaxion.Prelude.Stateful.{continue-eq-ok}
use dymaxion.ArcGis.Session.{Outside, Session, request_timeout_ms, request_max_bytes}
use dymaxion.ArcGis.Rest.{JsonResult, request_arcgis_json}
use dymaxion.ArcGis.Pages.{
  Pagination, Progress, Paginated, Truncation, page_ceiling, record_ceiling, first_page, conclude,
  take_page, request_page, after_page, paginate, paginate_arcgis, parse_arcgis_page_envelope,
}

-- What the server says that there is, or what has been retrieved
abbrev pub said : Paginated → ℕ
said result = get_or_else result.total_reported (length result.records)

module _ (options : Pagination) where
  pub record IsHonest (result : Paginated) : Type 0 where
    pub records : length result.records ≤ options.max_records
    pub pages : result.pages ≤ options.max_pages
    pub requests : length result.requests ≡ result.pages
    pub reasons : result.truncated ≡ not (length result.reasons == 0)
    pub no_less_said : length result.records ≤ said result
    pub complete : (result.truncated ≡ true) ⊎ (said result ≡ length result.records)

  record IsWithin (p : Progress) : Type 0 where
    records : length p.records ≤ options.max_records
    requests : length p.requests ≡ p.pages

  conclude-IsHonest :
      (reasons : List Truncation) (p : Progress) (result : Paginated)
      → IsWithin p
      → p.pages ≤ options.max_pages
      → conclude reasons p ≡ ok result
      → IsHonest result
  unfolding conclude
  conclude-IsHonest reasons p result within pages h = record {
    records = ground arith;
    pages = ground arith;
    requests = ground arith;
    reasons = ground arith;
    no_less_said = ground arith;
    complete = ground arith;
  }

  take_page-IsWithin :
      (p q : Progress) (more : Bool) (page : JsonResult)
      → IsWithin p
      → take_page options p page ≡ ok (q, more)
      → IsWithin q × (q.pages ≡ p.pages + 1)
  unfolding take_page
  take_page-IsWithin p q more page within h =
      elim (Result-cases (parse_arcgis_page_envelope page.json options.records_key)) [
        | inr (e, bad) ↦ absurd (ground arith)
        | inl (envelope, parsed) ↦ (
          record {
            records = ground (arith, length-append p.records envelope.records);
            requests = ground (arith, length-append p.requests (page.evidence ∷ []));
          },
          ground arith,
        )
      ]

  module _ (outside : Outside) where
    -- What a page's request makes of the variables is what the page that it has received does.
    request_page-eq-ok :
        (p : Progress) (s : Session) {made : Progress × Bool}
        → (request_page options outside p s).0 ≡ ok made
        → (page : JsonResult) × (take_page options p page ≡ ok made)
    unfolding request_page
    request_page-eq-ok p s h =
        let (timeout_ms, t, h₁) = continue-eq-ok (request_timeout_ms outside s) _ h in
        let (max_bytes, m, h₂) = continue-eq-ok (request_max_bytes _) _ h₁ in
        let (page, r, h₃) = continue-eq-ok (request_arcgis_json outside _ _) _ h₂ in (page, h₃)

    after_page-IsHonest :
        (left : ℕ) (made : Progress × Bool) (s : Session) (result : Paginated)
        → IsWithin made.0
        → made.0.pages + left ≡ options.max_pages
        → ((p : Progress) (s : Session)
            → IsWithin p
            → p.pages + left ≡ options.max_pages
            → (paginate options outside left p s).0 ≡ ok result
            → IsHonest result)
        → (after_page options outside (paginate options outside left) made s).0 ≡ ok result
        → IsHonest result
    after_page-IsHonest left (p, true) s result within pages loop h = loop p s within pages h
    after_page-IsHonest left (p, false) s result within pages loop h =
        conclude-IsHonest [] p result within (omega arith) h

    paginate-IsHonest :
        (left : ℕ) (p : Progress) (s : Session) (result : Paginated)
        → IsWithin p
        → p.pages + left ≡ options.max_pages
        → (paginate options outside left p s).0 ≡ ok result
        → IsHonest result
    unfolding paginate
    paginate-IsHonest zero p s result within pages h =
        conclude-IsHonest (page_ceiling ∷ []) p result within (omega arith) h
    paginate-IsHonest (suc left) p s result within pages h =
        elim (Bool-cases (leb options.max_records (length p.records))) [
          | inl full ↦
              conclude-IsHonest (record_ceiling ∷ []) p result within (omega arith) (rw full at h)
          | inr room ↦
              let (made, e, rest) =
                continue-eq-ok (request_page options outside p s)
                  (after_page options outside (paginate options outside left)) (rw room at h) in
              let (page, taken) = request_page-eq-ok p s e in
              let (within', next) = take_page-IsWithin p made.0 made.1 page within taken in
              after_page-IsHonest left made _ result within' (omega arith)
                (λ q t w n k. paginate-IsHonest left q t result w n k) rest
        ]

    -- Whatever the server, the network, the clock and the cancellation do, what `paginateArcGis`
    -- returns, after at most `maxPages` rounds, has no more records and no more pages than allowed,
    -- the evidence of one request for each page, and no more records than the server says there
    -- are; it is called truncated exactly where a reason is given, and otherwise it has just as many
    -- records as the last total that the server has reported, if any.
    pub paginate_arcgis-IsHonest :
        (s : Session) (result : Paginated)
        → (paginate_arcgis options outside s).0 ≡ ok result
        → IsHonest result
    unfolding paginate_arcgis
    paginate_arcgis-IsHonest s result h =
        paginate-IsHonest options.max_pages first_page s result
          (record { records = omega arith; requests = refl }) (omega arith) h
