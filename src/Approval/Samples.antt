-- ===== src/Approval/Samples.antt =====
-- Concrete records, calls and payloads of approval.ts, and the code that the tests run.
use dymaxion.Prelude.{Text, text, text_eq, List, [], ◌∷◌}
use dymaxion.Canonical.{Json, obj, str, end, field}
use dymaxion.Approval.Types.{ApprovalDraft, ApprovalBinding, approve}
use dymaxion.Approval.Interface.{fresh}
use dymaxion.Approval.Memory
use dymaxion.Approval.Memory.{Records, memory_store}
use dymaxion.Approval.Postgres.{Database}
use dymaxion.Approval.Trace.{
  Call, create, decide, expire, consume, run, consumptions, is_consumption, step,
}
use dymaxion.Approval.Agreement.{reply, replies}

abbrev pub hex64 : Text
hex64 = text "0123456789abcdef0123456789abcdef0123456789abcdef0123456789abcdef"

abbrev pub digest : Text → Text
digest t = hex64

abbrev pub plan_payload : Json
plan_payload = obj (field (text "layer") (str (text "roads")) end)

abbrev pub draft : ApprovalDraft
draft = record {
  id = text "a1";
  agent_run_id = text "r1";
  step_description = text "publish";
  payload = plan_payload;
  payload_hash = hex64;
  target = text "t";
  credential_identity = text "svc";
  requested_at = 1000;
  expires_at = 61000;
}

abbrev pub binding : ApprovalBinding
binding = record {
  agent_run_id = text "r1";
  payload_hash = hex64;
  target = text "t";
  credential_identity = text "svc";
}

-- Two consumers race after the approval; the third call comes too late in any case.
abbrev pub race : List Call
race =
    create draft
    ∷ decide (text "a1") approve (text "ann") 2000
    ∷ consume (text "a1") binding 3000
    ∷ consume (text "a1") binding 3000
    ∷ expire (text "a1") 70000
    ∷ []

abbrev pub no_records : Records
no_records = []

abbrev pub database : Database
database = record { agent_runs = text "r1" ∷ []; approval_requests = []; audit_log = [] }

abbrev pub stored : Records
stored = (text "a1", fresh draft) ∷ []

-- What the tests run: the in-memory store and the calls over it.
unfoldable pub runs_in_memory : Unit {0}
unfolding consumptions is_consumption text_eq Memory.consume_atomic Memory.find step
    Memory.decide_atomic Memory.create Memory.put Memory.expire_atomic fresh run replies reply
runs_in_memory = tt
