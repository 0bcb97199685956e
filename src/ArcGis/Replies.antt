-- ===== src/ArcGis/Replies.antt =====
-- What `requestArcGisJson` of arcgis-rest.ts makes of a reply.
use dymaxion.Prelude.{
  ℕ, ◌≤◌, ◌≡◌, ap, ◌∙◌, Text, text, Option, none, some, ltb, Result, ok, err, ◌⊎◌, inl, inr, arith,
  Bool-cases, Option-cases, Result-cases,
}
use mathlib.Core.Path.{sym, subst}
use dymaxion.ArcGis.Json.{Json, object, get}
use dymaxion.ArcGis.Session.{
  Reply, response, too_long, no_reply, Evidence, Failure, exception, request_failure, Outside,
  FailureKind, byte_limit,
}
use dymaxion.ArcGis.Rest.{Options, JsonResult, judge_json, judge, judge_reply, has_key, evidence_of}

module _ (outside : Outside) (options : Options) where
  -- A result that is good: the evidence is that of the request, the status is 200, the body is no
  -- longer than allowed, and the object has no `error`.
  pub record IsGood (result : JsonResult) : Type 0 where
    pub name : result.evidence.name ≡ options.name
    pub url : result.evidence.url ≡ options.url.href
    pub status : result.evidence.status ≡ 200
    pub bounded : result.evidence.bytes ≤ options.max_bytes
    pub clean : get (text "error") result.json ≡ none

  judge_json-fields :
      (status : ℕ) (evidence : Evidence) (parsed : Option Json) (result : JsonResult)
      → judge_json outside options status evidence parsed ≡ ok result
      → (result.evidence ≡ evidence) × (get (text "error") result.json ≡ none)
  judge_json-fields status evidence (some (object fs)) result h =
      elim (Option-cases (get (text "error") fs)) [
        | inl e ↦ (ground arith, ground arith)
        | inr (v, e) ↦ absurd (ground arith)
      ]
  judge_json-fields status evidence none result h = cc
  judge_json-fields status evidence (some other) result h = cc

  judge-IsGood :
      (status : ℕ) (media : Option Text) (body_text : Text) (result : JsonResult)
      → judge outside options status media body_text ≡ ok result
      → IsGood result
  unfolding judge
  judge-IsGood status media body_text result h =
      let bytes = outside.byte_length body_text in
      let evidence = evidence_of outside options status (outside.sha256 body_text) bytes in
      let passed : judge_json outside options status evidence (outside.parse_json body_text)
          ≡ ok result =
        ground arith in
      let (same, clean) = judge_json-fields status evidence _ result passed in
      record {
        name = ap (λ (e : Evidence). e.name) same;
        url = ap (λ (e : Evidence). e.url) same;
        status = ap (λ (e : Evidence). e.status) same ∙ ground arith;
        bounded = rw same (ground arith);
        clean = clean;
      }

  judge_reply-IsGood :
      (reply : Reply) (result : JsonResult)
      → judge_reply outside options reply ≡ ok result
      → IsGood result
  judge_reply-IsGood (response status media body_text) result h =
      judge-IsGood status media body_text result h
  judge_reply-IsGood (too_long status sha256 bytes) result h = cc
  judge_reply-IsGood no_reply result h = cc

  -- What a request may return
  abbrev pub IsSound : Result Failure JsonResult → Type 0
  IsSound (ok result) = IsGood result
  IsSound (err (request_failure kind status evidence)) =
      (evidence.name ≡ options.name)
      × (evidence.url ≡ options.url.href)
      × ((kind ≡ byte_limit) ⊎ (evidence.bytes ≤ options.max_bytes))
  IsSound (err (exception e)) = Unit {0}

  judge_json-failure :
      (status code : ℕ) (own evidence : Evidence) (kind : FailureKind) (parsed : Option Json)
      → judge_json outside options status own parsed ≡ err (request_failure kind code evidence)
      → evidence ≡ own
  judge_json-failure status code own evidence kind (some (object fs)) h =
      elim (Bool-cases (has_key (text "error") fs)) [
        | inl e ↦ ground arith
        | inr e ↦ absurd (ground arith)
      ]
  judge_json-failure status code own evidence kind none h = cc
  judge_json-failure status code own evidence kind (some other) h = cc

  judge-failure :
      (status code : ℕ) (media : Option Text) (body_text : Text) (kind : FailureKind)
      (evidence : Evidence)
      → judge outside options status media body_text ≡ err (request_failure kind code evidence)
      → IsSound (err (request_failure kind code evidence))
  unfolding judge
  judge-failure status code media body_text kind evidence h =
      let own =
        evidence_of outside options status (outside.sha256 body_text)
          (outside.byte_length body_text) in
      let same : evidence ≡ own =
        ground (
          arith,
          judge_json-failure status code own evidence kind (outside.parse_json body_text),
        ) in
      (
        ap (λ (e : Evidence). e.name) same,
        ap (λ (e : Evidence). e.url) same,
        elim (Bool-cases (ltb options.max_bytes (outside.byte_length body_text))) [
          | inl long ↦ inl (ground arith)
          | inr short ↦ inr (rw same (ground arith))
        ],
      )

  judge_reply-failure :
      (reply : Reply) (kind : FailureKind) (code : ℕ) (evidence : Evidence)
      → judge_reply outside options reply ≡ err (request_failure kind code evidence)
      → IsSound (err (request_failure kind code evidence))
  judge_reply-failure (response status media body_text) kind code evidence h =
      judge-failure status code media body_text kind evidence h
  judge_reply-failure (too_long status sha256 bytes) kind code evidence h = ground arith
  judge_reply-failure no_reply kind code evidence h = cc

  pub judge_reply-IsSound : (reply : Reply) → IsSound (judge_reply outside options reply)
  judge_reply-IsSound reply = elim (Result-cases (judge_reply outside options reply)) [
    | inl (result, e) ↦ subst IsSound (sym e) (judge_reply-IsGood reply result e)
    | inr (request_failure kind code evidence, e) ↦
        subst IsSound (sym e) (judge_reply-failure reply kind code evidence e)
    | inr (exception thrown, e) ↦ subst IsSound (sym e) tt
  ]
