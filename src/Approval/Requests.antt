-- ===== src/Approval/Requests.antt =====
-- The operations of approval.ts over a store: `createApprovalRequest`, `decideApproval`,
-- `consumeApproval`, `getApprovalRecord` and `awaitDecision`. The digest, the clock's readings and
-- the random identifier are arguments.
pub mod Answers
pub mod Laws
pub mod Waiting
use dymaxion.Prelude.{
  ℕ, zero, suc, ◌+◌, ◌*◌, Text, text, text_eq, ltb, leb, ◌==◌, Option, none, some, is_none,
  get_or_else, or_else, Bool, true, false, not, ◌&&◌, ◌||◌, if◌then◌else◌, List, [], ◌∷◌, Result,
  ok, err, ◌>>=◌, ◌>>◌, throw_if, all,
}
use dymaxion.Canonical.{Json, CanonicalError, sha256_canonical}
use dymaxion.Approval.Types.{
  ApprovalDecision, approved, expired, Verdict, ApprovalRecord, ApprovalDraft, ApprovalBinding,
  ApprovalRequest, ApprovalResponse,
}
use dymaxion.Approval.Interface.{ApprovalStore, StoreError, is_approved}
use dymaxion.Approval.Receipts.{Registry, ReceiptError, is_falsy, immutable_receipt}

pub data ApprovalError : Type 0 where
  target_required identity_required historical_record binding_mismatch not_consumable :
      ApprovalError
  not_canonical : CanonicalError → ApprovalError
  store_failed : StoreError → ApprovalError
  receipt_failed : ReceiptError → ApprovalError

-- White space and line terminators of ECMA-262, which `trim` removes
unfoldable pub is_white : ℕ → Bool
is_white c =
    (leb 9 c && leb c 13)
    || (c == 32)
    || (c == 160)
    || (c == 0x1680)
    || (leb 0x2000 c && leb c 0x200a)
    || (c == 0x2028)
    || (c == 0x2029)
    || (c == 0x202f)
    || (c == 0x205f)
    || (c == 0x3000)
    || (c == 0xfeff)

-- `!text.trim()`
unfoldable pub is_blank : Text → Bool
unfolding is_white
is_blank s = all is_white s

pub record Options : Type 0 where
  pub timeout_minutes : ℕ
  pub target : Text
  pub credential_identity : Text

unfoldable pub public_request : ApprovalRecord → Result ApprovalError ApprovalRequest
public_request r =
    if is_falsy r.credential_identity
    then err historical_record
    else ok (record {
      id = r.id;
      agent_run_id = r.agent_run_id;
      step_description = r.step_description;
      payload = r.payload;
      payload_hash = r.payload_hash;
      target = r.target;
      credential_identity = get_or_else r.credential_identity [];
      requested_at = r.requested_at;
      expires_at = r.expires_at;
    })

abbrev draft_of : Text → Text → Text → Json → Options → ℕ → Text → ApprovalDraft
draft_of new_id run description payload options now hash = record {
  id = new_id;
  agent_run_id = run;
  step_description = description;
  payload = payload;
  payload_hash = hash;
  target = options.target;
  credential_identity = options.credential_identity;
  requested_at = now;
  expires_at = now + options.timeout_minutes * 60000;
}

unfoldable pub hash_payload : (Text → Text) → Json → Result ApprovalError Text
hash_payload sha256 v = elim (sha256_canonical sha256 v) [
  | ok t ↦ ok t
  | err e ↦ err (not_canonical e)
]

module _ {S : Type 0} (store : ApprovalStore S) (sha256 : Text → Text) where
  -- The end of `createApprovalRequest`: the store's record, made public.
  unfoldable pub make_request : ApprovalDraft → S → Result ApprovalError ApprovalRequest × S
  make_request draft s =
      let (created, s') = store.create draft s in
      (elim created [ err e ↦ err (store_failed e) | ok r ↦ public_request r ], s')

  unfoldable pub create_approval_request :
      Text → Text → Text → Json → Options → ℕ → S → Result ApprovalError ApprovalRequest × S
  unfolding hash_payload make_request
  create_approval_request new_id run description payload options now s =
      if is_blank options.target
      then (err target_required, s)
      else if is_blank options.credential_identity
      then (err identity_required, s)
      else elim (hash_payload sha256 payload) [
        | err e ↦ (err e, s)
        | ok hash ↦ make_request (draft_of new_id run description payload options now hash) s
      ]

  -- The end of `consumeApproval`: the atomic consumption, or the expiry and a refusal.
  unfoldable pub consume_bound :
      Text → ApprovalBinding → ℕ → S × Registry → Result ApprovalError ℕ × (S × Registry)
  consume_bound id binding now (s, g) =
      let (consumed, s') = store.consume_atomic id binding now s in
      elim consumed [
        | none ↦ (err not_consumable, ((store.expire_atomic id now s').1, g))
        | some r ↦
            let (receipt, g') = immutable_receipt r g in
            (elim receipt [ ok n ↦ ok n | err e ↦ err (receipt_failed e) ], (s', g'))
      ]

  unfoldable pub consume_approval :
      ApprovalRequest
      → Json
      → Text
      → Text
      → ℕ
      → S × Registry
      → Result ApprovalError ℕ × (S × Registry)
  unfolding hash_payload consume_bound
  consume_approval request payload target identity now st = elim (hash_payload sha256 payload) [
    | err e ↦ (err e, st)
    | ok hash ↦
        let binding : ApprovalBinding = record {
          agent_run_id = request.agent_run_id;
          payload_hash = hash;
          target = target;
          credential_identity = identity;
        } in
        if not (text_eq hash request.payload_hash)
          || not (text_eq target request.target)
          || not (text_eq identity request.credential_identity)
        then (err binding_mismatch, st)
        else consume_bound request.id binding now st
  ]

-- Return the answer, or sleep and go on.
unfoldable pub resume : {S A : Type 0} → Option A × S → (S → Option A × S) → Option A × S
resume (some a, s) next = (some a, s)
resume (none, s) next = next s

module _ {S : Type 0} (store : ApprovalStore S) where
  unfoldable pub decide_approval : Text → Verdict → Text → ℕ → S → Bool × S
  decide_approval k v by now s =
      let (decided, s') = store.decide_atomic k v by now s in
      elim decided [ none ↦ (false, (store.expire_atomic k now s').1) | some r ↦ (true, s') ]

  unfoldable pub get_approval_record : Text → S → Option ApprovalRecord
  get_approval_record k s = store.get k s

  unfoldable pub response : ApprovalRequest → Option ApprovalRecord → Text → Option ApprovalResponse
  response q none fallback = none
  response q (some r) fallback = elim r.decision [
    | none ↦ none
    | some d ↦ some (record {
      approval_id = q.id;
      approved = is_approved (some d);
      decision = d;
      decided_by = get_or_else r.decided_by fallback;
    })
  ]

  -- One round of the loop, with the clock's two readings: a response, or on to the sleep.
  unfoldable pub poll : ApprovalRequest → ℕ → ℕ → S → Option ApprovalResponse × S
  unfolding response
  poll q now now' s = elim (response q (store.get q.id s) (text "unknown")) [
    | some a ↦ (some a, s)
    | none ↦
        if leb q.expires_at now
        then (let (expired_record, s') = store.expire_atomic q.id now' s in
            (response q (or_else expired_record (store.get q.id s')) (text "system"), s'))
        else (none, s)
  ]

  -- `awaitDecision`: `clock` reads the time twice in each round, and `others` is what the other
  -- users of the store do while the loop sleeps. `none` means that the rounds ran out.
  unfoldable pub await_decision :
      ℕ → (ℕ → ℕ × ℕ) → (ℕ → S → S) → ApprovalRequest → ℕ → S → Option ApprovalResponse × S
  await_decision zero clock others q i s = (none, s)
  await_decision (suc f) clock others q i s =
      resume (poll q (clock i).0 (clock i).1 s)
        (λ s'. await_decision f clock others q (suc i) (others i s'))
