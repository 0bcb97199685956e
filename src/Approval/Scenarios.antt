-- ===== src/Approval/Scenarios.antt =====
-- The theorems on the requests, receipts and targets of approval.ts at concrete values.
use dymaxion.Prelude.{
  if◌then◌else◌, ℕ, ◌+◌, ◌*◌, ◌≤◌, ◌<◌, ◌≡◌, ◌⊎◌, ◌↔◌, refl, Text, text, text_eq, none, some,
  is_none, true, false, List, [], ◌∷◌, ok, err, arith, get_elem?,
}
use dymaxion.Canonical.{Json, obj, str, end, field, sha256_canonical, canonical_json, quote}
use dymaxion.Approval.Types.{ApprovalRecord, ApprovalRequest, approved, approve}
use dymaxion.Approval.Interface.{fresh}
use dymaxion.Approval.Memory
use dymaxion.Approval.Memory.{Records, memory_store}
use dymaxion.Approval.Memory.Laws.{memory_laws}
use dymaxion.Approval.Requests.{
  Options, is_blank, public_request, create_approval_request, consume_approval, decide_approval,
  await_decision, target_required,
}
use dymaxion.Approval.Requests.Answers.{IsAnswerable, IsSettled}
use dymaxion.Approval.Requests.Laws.{
  decide_approval_settles, consume_approval_binds, create_approval_request_adds,
}
use dymaxion.Approval.Requests.Waiting.{await_decision-Returns, Returns}
use dymaxion.Approval.Receipts.{
  Registry, Binding, receipt, grant, verify_receipt, receipt_snapshot, snapshot_of,
  immutable_receipt, expected_target, hash_of, timing_safe_hex_equal,
}
use dymaxion.Approval.Receipts.Laws.{
  ReceiptCall, issue, claim_with, consume_with, claim_count, use_count, claimed_at_most_once,
  used_at_most_once, verify_receipt_binds,
}
use dymaxion.Approval.Target.{
  derive_approval_target, export_skill, field_of, payload_field, string_of, is_str,
}
use dymaxion.Approval.Target.Laws.{derive_export_shape, derive_export_injective, export_text}
use dymaxion.Approval.Target.Words.{is_uuid, is_sha256_hex, is_lower_hex}
use dymaxion.Approval.Trace.{run}
use dymaxion.Approval.Samples.{hex64, digest, plan_payload, draft, stored, runs_in_memory}

decide_approval_settles_example :
    let (answer, s') = decide_approval memory_store (text "a1") approve (text "ann") 2000 stored in
    ((answer ≡ true) ↔ IsAnswerable 2000 (Memory.find (text "a1") stored))
    × IsSettled approve
        (text "ann")
        answer
        (Memory.find (text "a1") stored)
        (Memory.find (text "a1") s')
    × ((j : Text) → (text_eq (text "a1") j ≡ true) ⊎ (Memory.find j s' ≡ Memory.find j stored))
decide_approval_settles_example =
    decide_approval_settles memory_store memory_laws (text "a1") approve (text "ann") 2000 stored tt

abbrev options : Options
options = record { timeout_minutes = 1; target = text "t"; credential_identity = text "svc" }

abbrev request : ApprovalRequest
request = record {
  id = text "a1";
  agent_run_id = text "r1";
  step_description = text "publish";
  payload = plan_payload;
  payload_hash = hex64;
  target = text "t";
  credential_identity = text "svc";
  requested_at = 1000;
  expires_at = 61000;
}

abbrev answered : ApprovalRecord
answered = record (fresh draft) {
  decision = some approved;
  decided_by = some (text "ann");
  responded_at = some 2000;
}

abbrev no_receipts : Registry
no_receipts = record { receipts = []; claimed = []; grants = []; used = [] }

abbrev spent : ApprovalRecord
spent = record answered { consumed_at = some 3000 }

consume_runs :
    consume_approval memory_store digest request plan_payload
      (text "t")
      (text "svc")
      3000
      ((text "a1", answered) ∷ [], no_receipts)
    ≡ (ok 0, ((text "a1", spent) ∷ [], record no_receipts { receipts = snapshot_of spent ∷ [] }))
unfolding runs_in_memory consume_approval sha256_canonical canonical_json quote immutable_receipt
consume_runs = refl

abbrev after_consumption : Records
after_consumption = (text "a1", spent) ∷ []

abbrev with_receipt : Registry
with_receipt = record no_receipts { receipts = snapshot_of spent ∷ [] }

consume_approval_binds_example :
    (r : ApprovalRecord) × (Memory.find (text "a1") ((text "a1", answered) ∷ []) ≡ some r)
    × (r.decision ≡ some approved)
    × (r.consumed_at ≡ none)
    × (3000 < r.expires_at)
    × (r.agent_run_id ≡ text "r1")
    × ((r.payload_hash ≡ hex64) × (sha256_canonical digest plan_payload ≡ ok r.payload_hash))
    × ((r.target ≡ text "t") × (r.target ≡ text "t"))
    × ((r.credential_identity ≡ some (text "svc")) × (r.credential_identity ≡ some (text "svc")))
    × (Memory.find (text "a1") after_consumption ≡ some (record r { consumed_at = some 3000 }))
    × (get_elem? with_receipt.receipts 0
        ≡ some (snapshot_of (record r { consumed_at = some 3000 })))
consume_approval_binds_example =
    consume_approval_binds memory_store memory_laws digest request plan_payload (text "t")
      (text "svc") 3000 ((text "a1", answered) ∷ []) after_consumption no_receipts with_receipt 0 tt
      consume_runs

create_refused_runs :
    (create_approval_request memory_store digest
      (text "a1")
      (text "r1")
      (text "publish")
      plan_payload
      (record options { target = text "  " })
      1000
      []).0
    ≡ err target_required
unfolding create_approval_request is_blank
create_refused_runs = refl

create_runs :
    (create_approval_request memory_store digest
      (text "a1")
      (text "r1")
      (text "publish")
      plan_payload
      options
      1000
      []).0
    ≡ ok request
unfolding runs_in_memory create_approval_request is_blank sha256_canonical canonical_json
    public_request
create_runs = refl

create_approval_request_adds_example :
    let s' =
      (create_approval_request memory_store digest
        (text "a1")
        (text "r1")
        (text "publish")
        plan_payload
        options
        1000
        []).1 in
    (Memory.find (text "a1") [] ≡ none)
    × (sha256_canonical digest plan_payload ≡ ok hex64)
    × ((r : ApprovalRecord) × (public_request r ≡ ok request)
        × (is_none r.decision ≡ true)
        × (is_none r.consumed_at ≡ true)
        × ((j : Text)
            → Memory.find j s' ≡ (if text_eq (text "a1") j then some r else Memory.find j [])))
    × ((text "t" ≡ options.target) × (is_blank (text "t") ≡ false))
    × ((text "svc" ≡ options.credential_identity) × (is_blank (text "svc") ≡ false))
    × (request.expires_at ≡ 1000 + options.timeout_minutes * 60000)
create_approval_request_adds_example =
    create_approval_request_adds memory_store memory_laws digest (text "a1") (text "r1")
      (text "publish") plan_payload options 1000 [] tt create_runs

abbrev clock : ℕ → ℕ × ℕ
clock j = (1000 + j * 1000, 1000 + j * 1000)

await_decision-Returns_example :
    Returns memory_store memory_laws request
      (await_decision memory_store 61 clock (λ j. run memory_store []) request 0 stored)
unfolding Memory.find text_eq fresh
await_decision-Returns_example =
    await_decision-Returns memory_store memory_laws 60 clock (λ j. []) request 0 stored
      (fresh draft) tt refl refl (λ j. omega arith) (λ j. omega arith) (omega arith)

abbrev use_of : Binding
use_of = record {
  agent_run_id = text "r1";
  skill = text "publish";
  payload = plan_payload;
  credential_identity = text "svc";
  target = some (text "t");
}

abbrev replayed : List ReceiptCall
replayed =
    issue spent
    ∷ claim_with (receipt 0) use_of
    ∷ claim_with (receipt 0) use_of
    ∷ consume_with (grant 0) use_of
    ∷ consume_with (grant 0) use_of
    ∷ []

claimed_at_most_once_example : claim_count digest 0 replayed no_receipts ≤ 1
claimed_at_most_once_example = claimed_at_most_once digest 0 replayed no_receipts

used_at_most_once_example : use_count digest 0 replayed no_receipts ≤ 1
used_at_most_once_example = used_at_most_once digest 0 replayed no_receipts

verify_runs : verify_receipt digest (receipt 0) use_of with_receipt ≡ ok (snapshot_of spent)
unfolding verify_receipt expected_target hash_of sha256_canonical canonical_json
    timing_safe_hex_equal is_sha256_hex is_lower_hex text_eq fresh
verify_runs = refl

verify_receipt_binds_example :
    let s = snapshot_of spent in
    (receipt_snapshot (receipt 0) with_receipt ≡ some s)
    × (s.agent_run_id ≡ text "r1")
    × (s.credential_identity ≡ text "svc")
    × (sha256_canonical digest plan_payload ≡ ok s.payload_hash)
    × ((use_of.target ≡ some s.target)
        ⊎ ((use_of.target ≡ none)
            × (derive_approval_target (text "publish") plan_payload ≡ ok s.target)))
verify_receipt_binds_example =
    verify_receipt_binds digest (receipt 0) use_of with_receipt verify_runs

abbrev export_payload : Json
export_payload = obj (
    field (text "operation") (str (text "persist")) (
      field (text "project_id") (str (text "00000000-0000-4000-8000-000000000000"))
        (field (text "target_bundle_sha256") (str hex64) end)))

abbrev exported : Text
exported = export_text (text "00000000-0000-4000-8000-000000000000") hex64

export_runs : derive_approval_target export_skill export_payload ≡ ok exported
unfolding derive_approval_target export_skill field_of is_uuid is_sha256_hex text_eq is_lower_hex
export_runs = refl

derive_export_shape_example :
    (project : Text) × (bundle : Text) × (is_str
        (text "persist")
        (payload_field (text "operation") export_payload)
      ≡ true)
    × (string_of (payload_field (text "project_id") export_payload) ≡ some project)
    × (string_of (payload_field (text "target_bundle_sha256") export_payload) ≡ some bundle)
    × (is_uuid project ≡ true)
    × (is_sha256_hex bundle ≡ true)
    × (exported ≡ export_text project bundle)
derive_export_shape_example = derive_export_shape export_payload export_runs

derive_export_injective_example :
    (string_of (payload_field (text "project_id") export_payload)
      ≡ string_of (payload_field (text "project_id") export_payload))
    × (string_of (payload_field (text "target_bundle_sha256") export_payload)
        ≡ string_of (payload_field (text "target_bundle_sha256") export_payload))
derive_export_injective_example =
    derive_export_injective export_payload export_payload export_runs export_runs
