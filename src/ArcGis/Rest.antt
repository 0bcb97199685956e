-- ===== src/ArcGis/Rest.antt =====
-- `requestArcGisJson` of arcgis-rest.ts.
use dymaxion.Prelude.{
  ℕ, ◌+◌, Text, text, starts_with, Option, none, some, Bool, true, false, not, ◌&&◌, ◌||◌,
  if◌then◌else◌, leb, ltb, ◌==◌, [], ◌∷◌, ◌++◌, Result, ok, err,
}
use dymaxion.Prelude.Stateful.{◌>>=◌, ◌>>◌, lift}
use dymaxion.Boundary.Url.{assert_url_allowed, is_empty, to_lower}
use dymaxion.ArcGis.Json.{Json, object, Fields, get}
use dymaxion.ArcGis.Session.{
  Request, Reply, response, too_long, no_reply, Evidence, redirect, http_error, byte_limit,
  content_type, invalid_json, error_envelope, Failure, request_failure, exception, post_with_query,
  post_unsupported, transport_failed, blocked, Outside, Action, throw_if_aborted,
}

-- The parts of a `URL` that are looked at
pub record Target : Type 0 where
  pub href : Text
  pub search : Text
  pub hash : Text

-- `ArcGisJsonRequestOptions`; a form is its canonical body.
pub record Options : Type 0 where
  pub name : Text
  pub url : Target
  pub timeout_ms : ℕ
  pub max_bytes : ℕ
  pub authorization : Option Text
  pub form : Option Text

pub record JsonResult : Type 0 where
  pub json : Fields
  pub evidence : Evidence

-- `contentType.includes(part)`
unfoldable pub includes : Text → Text → Bool
includes [] part = starts_with [] part
includes (c ∷ s) part = starts_with (c ∷ s) part || includes s part

abbrev pub has_key : Text → Fields → Bool
has_key key fs = elim (get key fs) [ none ↦ false | some v ↦ true ]

abbrev pub type_or_empty : Option Text → Text
type_or_empty none = []
type_or_empty (some t) = t

abbrev pub request_of : Options → Request
request_of options = record {
  url = options.url.href;
  timeout_ms = options.timeout_ms;
  max_bytes = options.max_bytes;
  authorization = options.authorization;
  body = options.form;
}

module _ (outside : Outside) where
  abbrev pub evidence_of : Options → ℕ → Text → ℕ → Evidence
  evidence_of options status sha256 bytes = record {
    name = options.name;
    url = options.url.href;
    status = status;
    sha256 = sha256;
    bytes = bytes;
    request_sha256 = elim options.form [ none ↦ none | some body ↦ some (outside.sha256 body) ];
  }

  -- From the parsed body on
  abbrev pub judge_json : Options → ℕ → Evidence → Option Json → Result Failure JsonResult
  judge_json options status evidence (some (object fs)) =
      if has_key (text "error") fs
      then err (request_failure error_envelope status evidence)
      else ok (record { json = fs; evidence = evidence })
  judge_json options status evidence _ = err (request_failure invalid_json status evidence)

  -- Once a response has been received
  unfoldable pub judge : Options → ℕ → Option Text → Text → Result Failure JsonResult
  judge options status media body_text =
      let bytes = outside.byte_length body_text in
      let evidence = evidence_of options status (outside.sha256 body_text) bytes in
      let media' = to_lower (type_or_empty media) in
      if ltb options.max_bytes bytes
      then err (request_failure byte_limit status evidence)
      else if leb 300 status && ltb status 400
      then err (request_failure redirect status evidence)
      else if not (status == 200)
      then err (request_failure http_error status evidence)
      else if not (includes media' (text "application/json"))
          && not (starts_with media' (text "text/plain"))
      then err (request_failure content_type status evidence)
      else judge_json options status evidence (outside.parse_json body_text)

  abbrev pub judge_reply : Options → Reply → Result Failure JsonResult
  judge_reply options (response status media body_text) = judge options status media body_text
  judge_reply options (too_long status sha256 bytes) =
      err (request_failure byte_limit status (evidence_of options status sha256 bytes))
  judge_reply options no_reply = err (exception transport_failed)

  -- The checks of a form
  unfoldable pub check_form : Options → Result Failure (Unit {0})
  check_form options = elim options.form [
    | none ↦ ok tt
    | some body ↦
        if not (is_empty options.url.search) || not (is_empty options.url.hash)
        then err (exception post_with_query)
        else if not outside.supports_post
        then err (exception post_unsupported)
        else ok tt
  ]

  -- `await assertUrlAllowed(options.url.href, options.boundary)`
  unfoldable pub check_boundary : Text → Action (Unit {0})
  check_boundary href s =
      let (checked, entries) = assert_url_allowed outside.config (outside.network s.ticks) href in
      (
        elim checked [ ok u ↦ ok tt | err v ↦ err (exception (blocked v)) ],
        record s { ticks = s.ticks + 1; audit = s.audit ++ entries },
      )

  -- The transport's call
  unfoldable pub send : Request → Action Reply
  send request s = (
    ok (outside.reply s.ticks request),
    record s {
      ticks = s.ticks + 1;
      dispatched = s.dispatched ++ record { tick = s.ticks; request = request } ∷ [];
    },
  )

  unfoldable pub request_arcgis_json : Options → Action JsonResult
  request_arcgis_json options = do
    throw_if_aborted outside
    lift (check_form options)
    check_boundary options.url.href
    throw_if_aborted outside
    reply ← send (request_of options)
    lift (judge_reply options reply)
