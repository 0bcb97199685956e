-- ===== src/ArcGis/Pages.antt =====
-- `parseArcGisPageEnvelope` and `paginateArcGis` of arcgis-rest.ts.
use dymaxion.Prelude.{
  ℕ, zero, suc, ◌+◌, ◌-◌, Text, text, Option, none, some, Bool, true, false, not, ◌&&◌, ◌||◌,
  if◌then◌else◌, leb, ltb, ◌==◌, or_else, List, [], ◌∷◌, ◌++◌, Result, ok, err, length,
}
use Prim.Native.Nat.{min}
use dymaxion.Prelude.Int.{ℤ, pos, negsuc}
use dymaxion.Prelude.Stateful.{◌>>=◌, lift}
use dymaxion.ArcGis.Json.{Json, whole, Fields, get, plain_object, array_items}
use dymaxion.ArcGis.Session.{
  Evidence, Failure, exception, missing_records, record_not_object, malformed_cursor,
  too_many_records, stuck_cursor, empty_page, inconsistent_total, Outside, Action,
  request_timeout_ms, request_max_bytes, add_bytes,
}
use dymaxion.ArcGis.Rest.{Target, Options, JsonResult, request_arcgis_json}

-- `ArcGisPageEnvelope`
pub record PageEnvelope : Type 0 where
  pub records : List Fields
  pub total : Option ℕ
  pub next_start : ℤ

unfoldable pub objects_of : List Json → Result Failure (List Fields)
objects_of [] = ok []
objects_of (x ∷ xs) = elim (plain_object x) [
  | none ↦ err (exception record_not_object)
  | some fs ↦ elim (objects_of xs) [ ok rest ↦ ok (fs ∷ rest) | err e ↦ err e ]
]

-- A whole number from 0 on
abbrev pub natural : Option Json → Option ℕ
natural (some (whole (pos n))) = some n
natural _ = none

abbrev pub cursor : Option Json → Option ℤ
cursor (some (whole n)) = some n
cursor _ = none

unfoldable pub parse_arcgis_page_envelope : Fields → Text → Result Failure PageEnvelope
parse_arcgis_page_envelope json records_key = elim (array_items (get records_key json)) [
  | none ↦ err (exception missing_records)
  | some raw ↦ elim (objects_of raw) [
    | err e ↦ err e
    | ok records ↦ elim (cursor (get (text "nextStart") json)) [
      | none ↦ err (exception malformed_cursor)
      | some next ↦ ok (record {
        records = records;
        total = natural (get (text "total") json);
        next_start = next;
      })
    ]
  ]
]

-- `ArcGisPaginationOptions`; the names of the pages and the URLs are made by functions.
pub record Pagination : Type 0 where
  pub page_name : ℕ → Text
  pub build_url : (start num : ℕ) → Target
  pub records_key : Text
  pub page_size : ℕ
  pub max_records : ℕ
  pub max_pages : ℕ

pub data Truncation : Type 0 where
  page_ceiling record_ceiling : Truncation
  server_reports : (total retrieved : ℕ) → Truncation

-- The variables of the loop
pub record Progress : Type 0 where
  pub records : List Fields
  pub requests : List Evidence
  pub total_reported : Option ℕ
  pub start : ℕ
  pub pages : ℕ

-- `ArcGisPaginationResult`: it is truncated where there is a reason.
pub record Paginated : Type 0 where
  pub records : List Fields
  pub total_reported : Option ℕ
  pub pages : ℕ
  pub truncated : Bool
  pub reasons : List Truncation
  pub requests : List Evidence

abbrev pub first_page : Progress
first_page = record { records = []; requests = []; total_reported = none; start = 1; pages = 0 }

-- What stands after the loop, which has ended with these reasons
unfoldable pub conclude : List Truncation → Progress → Result Failure Paginated
conclude reasons p = elim p.total_reported [
  | none ↦ ok (record {
    records = p.records;
    total_reported = none;
    pages = p.pages;
    truncated = not (length reasons == 0);
    reasons = reasons;
    requests = p.requests;
  })
  | some total ↦
      if ltb total (length p.records)
      then err (exception inconsistent_total)
      else let short = (length reasons == 0) && ltb (length p.records) total in
        ok (record {
          records = p.records;
          total_reported = some total;
          pages = p.pages;
          truncated = not (length reasons == 0) || short;
          reasons = if short then server_reports total (length p.records) ∷ [] else reasons;
          requests = p.requests;
        })
]

-- The cursor: where to go on, or that this was the last page
abbrev pub next_of : ℕ → ℤ → Result Failure (Option ℕ)
next_of start (pos n) = if leb n start || ltb n 1 then err (exception stuck_cursor) else ok (some n)
next_of start (negsuc zero) = ok none
next_of start (negsuc (suc n)) = err (exception stuck_cursor)

module _ (options : Pagination) where
  abbrev pub page_num : Progress → ℕ
  page_num p = min options.page_size (options.max_records - length p.records)

  -- What a page that has been received does to the variables, and whether another one follows
  unfoldable pub take_page : Progress → JsonResult → Result Failure (Progress × Bool)
  take_page p page = elim (parse_arcgis_page_envelope page.json options.records_key) [
    | err e ↦ err e
    | ok envelope ↦
        let taken : Progress = record {
          records = p.records ++ envelope.records;
          requests = p.requests ++ page.evidence ∷ [];
          total_reported = or_else envelope.total p.total_reported;
          start = p.start;
          pages = p.pages + 1;
        } in
        if ltb (page_num p) (length envelope.records)
        then err (exception too_many_records)
        else elim (next_of p.start envelope.next_start) [
          | err e ↦ err e
          | ok none ↦ ok (taken, false)
          | ok (some n) ↦
              if length envelope.records == 0
              then err (exception empty_page)
              else ok (record taken { start = n }, true)
        ]
  ]

  module _ (outside : Outside) where
    abbrev pub page_options : Progress → ℕ → ℕ → Options
    page_options p timeout_ms max_bytes = record {
      name = options.page_name (p.pages + 1);
      url = options.build_url p.start (page_num p);
      timeout_ms = timeout_ms;
      max_bytes = max_bytes;
      authorization = none;
      form = none;
    }

    -- The request of a page, and what comes of it
    unfoldable pub request_page : Progress → Action (Progress × Bool)
    request_page p = do
      timeout_ms ← request_timeout_ms outside
      max_bytes ← request_max_bytes
      page ← request_arcgis_json outside (page_options p timeout_ms max_bytes)
      λ s. (take_page p page, add_bytes page.evidence.bytes s)

    abbrev pub after_page : (Progress → Action Paginated) → Progress × Bool → Action Paginated
    after_page loop (p, true) = loop p
    after_page loop (p, false) = lift (conclude [] p)

    -- The loop, with how many pages may still follow
    unfoldable pub paginate : ℕ → Progress → Action Paginated
    paginate zero p = lift (conclude (page_ceiling ∷ []) p)
    paginate (suc left) p =
        let more = request_page p >>= after_page (paginate left) in
        if leb options.max_records (length p.records)
        then lift (conclude (record_ceiling ∷ []) p)
        else more

    unfoldable pub paginate_arcgis : Action Paginated
    paginate_arcgis = paginate options.max_pages first_page
