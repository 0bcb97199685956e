-- ===== src/Approval/Receipts.antt =====
-- The receipts and execution grants of approval.ts. An object that the module makes is known by
-- its place in the list of its kind, so a WeakSet of objects is a list of such numbers.
pub mod Laws
use dymaxion.Prelude.{
  ℕ, ◌+◌, Text, text, text_eq, Option, none, some, is_none, get_or_else, or_else, Bool, true, false,
  not, ◌&&◌, ◌||◌, ◌==◌, if◌then◌else◌, List, [], ◌∷◌, ◌++◌, Result, ok, err, ◌>>=◌, ◌>>◌, throw_if,
  any, get_elem?, length,
}
use dymaxion.Canonical.{Json, CanonicalError, sha256_canonical}
use dymaxion.Approval.Types.{ApprovalRecord, ConsumedApprovalSnapshot, approved}
use dymaxion.Approval.Interface.{is_approved}
use dymaxion.Approval.Target.{derive_approval_target}
use dymaxion.Approval.Target.Words.{is_sha256_hex}

pub data ReceiptError : Type 0 where
  not_consumable invalid_receipt binding_mismatch already_claimed invalid_grant already_used :
      ReceiptError
  payload_not_canonical : CanonicalError → ReceiptError

-- A value of type `unknown`, as far as the checks look at it.
pub data Value : Type 0 where
  primitive : Value
  receipt : ℕ → Value
  grant : ℕ → Value
  other_object : Value

-- `consumedApprovalReceipts` with each receipt's snapshot, `claimedApprovalReceipts`,
-- `approvalExecutionGrants` (the receipt of each grant) and `consumedApprovalExecutionGrants`.
pub record Registry : Type 0 where
  pub receipts : List ConsumedApprovalSnapshot
  pub claimed : List ℕ
  pub grants : List ℕ
  pub used : List ℕ

abbrev pub has : ℕ → List ℕ → Bool
has n ns = any (λ m. m == n) ns

pub record Binding : Type 0 where
  pub agent_run_id : Text
  pub skill : Text
  pub payload : Json
  pub credential_identity : Text
  pub target : Option Text

-- A null or empty text is falsy.
abbrev pub is_falsy : Option Text → Bool
is_falsy none = true
is_falsy (some []) = true
is_falsy (some (c ∷ s)) = false

abbrev unknown_decider : Text
unknown_decider = text "unknown"

abbrev pub snapshot_of : ApprovalRecord → ConsumedApprovalSnapshot
snapshot_of r = record {
  approval_id = r.id;
  decided_by = get_or_else r.decided_by unknown_decider;
  decided_at = get_or_else (or_else r.responded_at r.consumed_at) r.requested_at;
  target = r.target;
  payload_hash = r.payload_hash;
  credential_identity = get_or_else r.credential_identity [];
  agent_run_id = r.agent_run_id;
}

unfoldable pub immutable_receipt : ApprovalRecord → Registry → Result ReceiptError ℕ × Registry
immutable_receipt r g =
    if not (is_approved r.decision)
    then (err not_consumable, g)
    else if is_falsy r.credential_identity
    then (err not_consumable, g)
    else (ok (length g.receipts), record g { receipts = g.receipts ++ snapshot_of r ∷ [] })

abbrev pub receipt_snapshot : Value → Registry → Option ConsumedApprovalSnapshot
receipt_snapshot (receipt n) g = get_elem? g.receipts n
receipt_snapshot _ g = none

-- `timingSafeHexEqual`
unfoldable pub timing_safe_hex_equal : Text → Text → Bool
timing_safe_hex_equal left right =
    if not (is_sha256_hex left) || not (is_sha256_hex right) then false else text_eq left right

-- `binding.target ?? deriveApprovalTarget(…)`, where a failure to derive is a mismatch
unfoldable pub expected_target : Binding → Result ReceiptError Text
expected_target b = elim b.target [
  | some t ↦ ok t
  | none ↦ elim (derive_approval_target b.skill b.payload) [
    | ok t ↦ ok t
    | err e ↦ err binding_mismatch
  ]
]

abbrev pub mismatch : ConsumedApprovalSnapshot → Binding → Text → Text → Bool
mismatch s b hash target =
    not (text_eq s.agent_run_id b.agent_run_id)
    || not (text_eq s.credential_identity b.credential_identity)
    || not (timing_safe_hex_equal s.payload_hash hash)
    || not (text_eq s.target target)

unfoldable pub hash_of : (Text → Text) → Json → Result ReceiptError Text
hash_of sha256 v = elim (sha256_canonical sha256 v) [
  | ok t ↦ ok t
  | err e ↦ err (payload_not_canonical e)
]

unfoldable pub claim : ℕ → Registry → Result ReceiptError ℕ × Registry
claim n g =
    if has n g.claimed
    then (err already_claimed, g)
    else (ok (length g.grants), record g { claimed = n ∷ g.claimed; grants = g.grants ++ n ∷ [] })

-- `approvalExecutionGrants.get(grant)`
abbrev pub grant_receipt : Value → Registry → Option ℕ
grant_receipt (grant n) g = get_elem? g.grants n
grant_receipt _ g = none

abbrev pub is_used : Value → Registry → Bool
is_used (grant n) g = has n g.used
is_used _ g = false

abbrev use_up : Value → Registry → Registry
use_up (grant n) g = record g { used = n ∷ g.used }
use_up _ g = g

module _ (sha256 : Text → Text) where
  -- `verifyConsumedApprovalReceipt`
  unfoldable pub verify_receipt :
      Value → Binding → Registry → Result ReceiptError ConsumedApprovalSnapshot
  unfolding expected_target hash_of
  verify_receipt v b g = elim (receipt_snapshot v g) [
    | none ↦ err invalid_receipt
    | some s ↦ do
      hash ← hash_of sha256 b.payload
      target ← expected_target b
      throw_if (mismatch s b hash target) binding_mismatch
      ok s
  ]

  -- `claimConsumedApprovalReceipt`
  unfoldable pub claim_receipt : Value → Binding → Registry → Result ReceiptError ℕ × Registry
  unfolding claim
  claim_receipt v b g = elim (verify_receipt v b g) [
    | err e ↦ (err e, g)
    | ok s ↦ elim v [ receipt n ↦ claim n g | _ ↦ (err invalid_receipt, g) ]
  ]

  -- `consumeApprovalExecutionGrant`
  unfoldable pub consume_grant :
      Value → Binding → Registry → Result ReceiptError ConsumedApprovalSnapshot × Registry
  consume_grant v b g = elim (grant_receipt v g) [
    | none ↦ (err invalid_grant, g)
    | some n ↦
        if is_used v g then (err already_used, g) else elim (verify_receipt (receipt n) b g) [
          | err e ↦ (err e, g)
          | ok s ↦ (ok s, use_up v g)
        ]
  ]

  -- `verifyConsumedApprovalExecutionGrant`
  unfoldable pub verify_grant :
      Value → Binding → Registry → Result ReceiptError ConsumedApprovalSnapshot
  verify_grant v b g = elim (grant_receipt v g) [
    | none ↦ err invalid_grant
    | some n ↦ if not (is_used v g) then err invalid_grant else verify_receipt (receipt n) b g
  ]
