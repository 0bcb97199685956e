-- ===== src/ArcGis/Session.antt =====
-- What the ArcGIS capabilities ask of the outside, and the state that their requests change.
use dymaxion.Prelude.{ℕ, ◌+◌, ◌-◌, Text, Option, Bool, if◌then◌else◌, leb, List, ok, err}
use Prim.Native.Nat.{min}
use dymaxion.Prelude.Stateful.{Stateful}
use dymaxion.Boundary.Url.{BoundaryConfig, Network, BoundaryViolation, AuditEntry}
use dymaxion.ArcGis.Json.{Json}

-- `ArcGisTransportRequest`, with the body of a form
pub record Request : Type 0 where
  pub url : Text
  pub timeout_ms : ℕ
  pub max_bytes : ℕ
  pub authorization : Option Text
  pub body : Option Text

-- What a transport's call comes to: a response, the refusal of one that is too long
-- (`ArcGisTransportByteLimitFailure`), or another exception
pub data Reply : Type 0 where
  response : (status : ℕ) (content_type : Option Text) (body_text : Text) → Reply
  too_long : (status : ℕ) (sha256 : Text) (bytes : ℕ) → Reply
  no_reply : Reply

-- `ArcGisRequestEvidence`; a POST has the digest of its form.
pub record Evidence : Type 0 where
  pub name : Text
  pub url : Text
  pub status : ℕ
  pub sha256 : Text
  pub bytes : ℕ
  pub request_sha256 : Option Text

pub data FailureKind : Type 0 where
  redirect http_error byte_limit content_type invalid_json error_envelope : FailureKind

-- The exceptions that carry no evidence, by their messages
pub data Exception : Type 0 where
  cancelled post_with_query post_unsupported transport_failed : Exception
  blocked : BoundaryViolation → Exception
  duration_ceiling total_bytes_ceiling request_ceiling : Exception
  missing_records record_not_object malformed_cursor too_many_records stuck_cursor empty_page
        inconsistent_total :
      Exception
  layer_mismatch layer_type no_capabilities not_queryable no_fields malformed_field field_name
        duplicate_field unusable_object_id not_an_object_id ambiguous_object_id unknown_field
        no_geometry :
      Exception
  exceeded_not_boolean ids_incomplete ids_other_field missing_ids unsafe_id duplicate_id : Exception
  page_exceeded_not_boolean missing_wkid missing_features malformed_feature object_id_count
        unsafe_feature_id unrequested_id duplicate_in_batch colliding_attributes not_finite
        not_primitive geometry_not_object structure_limit omitted_ids :
      Exception
  wkid_mismatch wkid_inconsistent singleton_exceeded duplicate_across_batches retrieval_incomplete
        missing_record out_of_rounds :
      Exception
  identity_mismatch identity_collision nothing_succeeded : Exception

pub data Failure : Type 0 where
  request_failure : FailureKind → ℕ → Evidence → Failure
  exception : Exception → Failure

-- The outside. Each question is asked at some tick, and its answer may depend on it in any way:
-- servers, clocks and cancellations are arbitrary.
pub record Outside : Type 0 where
  pub config : BoundaryConfig
  pub network : ℕ → Network
  pub reply : ℕ → Request → Reply
  pub supports_post : Bool
  pub now : ℕ → ℕ
  pub aborted : ℕ → Bool
  pub sha256 : Text → Text
  pub byte_length : Text → ℕ  -- of the text in UTF-8
  pub parse_json : Text → Option Json

-- `TraceBudget` and `QueryBudget`
pub record Budget : Type 0 where
  pub deadline : ℕ
  pub bytes_used : ℕ
  pub request_count : ℕ
  pub max_requests : ℕ
  pub max_response_bytes : ℕ
  pub max_total_bytes : ℕ

-- A request that has been handed to the transport, and when
pub record Dispatch : Type 0 where
  pub tick : ℕ
  pub request : Request

pub record Session : Type 0 where
  pub ticks : ℕ
  pub dispatched : List Dispatch
  pub audit : List AuditEntry
  pub budget : Budget
  pub requests : List Evidence

abbrev pub Action : Type 0 → Type 0
Action A = Stateful Session Failure A

abbrev pub tick : Session → Session
tick s = record s { ticks = s.ticks + 1 }

abbrev pub timeout_ms_ceiling : ℕ
timeout_ms_ceiling = 10_000

module _ (outside : Outside) where
  -- `signal?.aborted`
  unfoldable pub throw_if_aborted : Action (Unit {0})
  throw_if_aborted s =
      (if outside.aborted s.ticks then err (exception cancelled) else ok tt, tick s)

  -- `requestTimeoutMs`
  unfoldable pub request_timeout_ms : Action ℕ
  request_timeout_ms s = (
    if leb s.budget.deadline (outside.now s.ticks)
        then err (exception duration_ceiling)
        else ok (min timeout_ms_ceiling (s.budget.deadline - outside.now s.ticks)),
    tick s,
  )

-- `requestMaxBytes`
unfoldable pub request_max_bytes : Action ℕ
request_max_bytes s =
    let b = s.budget in
    (
      if leb b.max_total_bytes b.bytes_used
          then err (exception total_bytes_ceiling)
          else ok (min b.max_response_bytes (b.max_total_bytes - b.bytes_used)),
      s,
    )

-- `budget.bytesUsed += bytes`
abbrev pub add_bytes : ℕ → Session → Session
add_bytes bytes s =
    let b = s.budget in record s { budget = record b { bytes_used = b.bytes_used + bytes } }
