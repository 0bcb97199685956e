-- ===== src/ArcGis/Counted.antt =====
-- The part that `traceRequest` of trace-arcgis-dependencies.ts and `dispatch` of
-- query-feature-service.ts share: a request that is counted, and whose bytes and evidence are
-- recorded where a response has been received, whatever it was.
use dymaxion.Prelude.{ℕ, ◌+◌, Text, Option, [], ◌∷◌, ◌++◌, Result, ok, err}
use dymaxion.Prelude.Stateful.{◌>>=◌}
use dymaxion.ArcGis.Session.{
  Evidence, Failure, request_failure, exception, Outside, Session, Action, request_timeout_ms,
  request_max_bytes, add_bytes,
}
use dymaxion.ArcGis.Rest.{Target, Options, JsonResult, request_arcgis_json}

-- What is asked for, but for the limits
pub record Call : Type 0 where
  pub name : Text
  pub url : Target
  pub authorization : Option Text
  pub form : Option Text

-- `budget.requestCount += 1`
abbrev pub count_request : Session → Session
count_request s =
    let b = s.budget in record s { budget = record b { request_count = b.request_count + 1 } }

abbrev pub record_evidence : Evidence → Session → Session
record_evidence e s =
    let t : Session = add_bytes e.bytes s in record t { requests = t.requests ++ e ∷ [] }

-- What is recorded of an outcome, in the `try` block or in its handler
abbrev pub account : Result Failure JsonResult × Session → Result Failure JsonResult × Session
account (ok result, s) = (ok result, record_evidence result.evidence s)
account (err (request_failure kind status evidence), s) =
    (err (request_failure kind status evidence), record_evidence evidence s)
account (err (exception e), s) = (err (exception e), s)

module _ (outside : Outside) where
  abbrev pub options_of : Call → ℕ → ℕ → Options
  options_of call timeout_ms max_bytes = record {
    name = call.name;
    url = call.url;
    timeout_ms = timeout_ms;
    max_bytes = max_bytes;
    authorization = call.authorization;
    form = call.form;
  }

  unfoldable pub request_limited : Call → Action JsonResult
  request_limited call = do
    timeout_ms ← request_timeout_ms outside
    max_bytes ← request_max_bytes
    request_arcgis_json outside (options_of call timeout_ms max_bytes)

  unfoldable pub request_counted : Call → Action JsonResult
  request_counted call s = account (request_limited call (count_request s))
