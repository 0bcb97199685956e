-- ===== src/Approval/Receipts/Laws.antt =====
-- A receipt is claimed once and a grant is used once, over every sequence of calls of approval.ts.
use dymaxion.Prelude.{
  ℕ, ◌+◌, ◌≤◌, ◌≡◌, ◌⊎◌, refl, Text, text_eq_iff, none, some, Bool, true, false, ◌==◌, ◌&&◌,
  if◌then◌else◌, List, [], ◌∷◌, ok, arith, Bool-cases, inl, inr, is_ok, Option-cases, >>=-eq-ok,
  ◌>>◌, throw_if,
}
use dymaxion.Canonical.{Json, sha256_canonical}
use dymaxion.Approval.Types.{ApprovalRecord, ConsumedApprovalSnapshot}
use dymaxion.Approval.Target.{derive_approval_target}
use dymaxion.Approval.Receipts.{
  Value, receipt, grant, Registry, Binding, has, immutable_receipt, verify_receipt, claim_receipt,
  consume_grant, claim, receipt_snapshot, hash_of, expected_target, mismatch, binding_mismatch,
  timing_safe_hex_equal,
}

pub data ReceiptCall : Type 0 where
  issue : ApprovalRecord → ReceiptCall
  claim_with : Value → Binding → ReceiptCall
  consume_with : Value → Binding → ReceiptCall

hash_of_ok :
    (sha256 : Text → Text) (v : Json) {t : Text}
    → hash_of sha256 v ≡ ok t
    → sha256_canonical sha256 v ≡ ok t
unfolding hash_of
hash_of_ok sha256 v h = ground arith

expected_target_ok :
    (b : Binding) {t : Text}
    → expected_target b ≡ ok t
    → (b.target ≡ some t) ⊎ ((b.target ≡ none) × (derive_approval_target b.skill b.payload ≡ ok t))
unfolding expected_target
expected_target_ok b h = ground arith

module _ (sha256 : Text → Text) where
  pub call : ReceiptCall → Registry → Registry
  call (issue r) g = (immutable_receipt r g).1
  call (claim_with v b) g = (claim_receipt sha256 v b g).1
  call (consume_with v b) g = (consume_grant sha256 v b g).1

  pub calls : List ReceiptCall → Registry → Registry
  calls [] g = g
  calls (c ∷ cs) g = calls cs (call c g)

  -- Whether the call hands out a grant for the receipt `n`.
  pub claims : ℕ → ReceiptCall → Registry → Bool
  claims n (claim_with (receipt m) b) g = (m == n) && is_ok (claim_receipt sha256 (receipt m) b g).0
  claims n _ g = false

  pub claim_count : ℕ → List ReceiptCall → Registry → ℕ
  claim_count n [] g = 0
  claim_count n (c ∷ cs) g = (if claims n c g then 1 else 0) + claim_count n cs (call c g)

  -- Whether the call uses the grant `n`.
  pub uses : ℕ → ReceiptCall → Registry → Bool
  uses n (consume_with (grant m) b) g = (m == n) && is_ok (consume_grant sha256 (grant m) b g).0
  uses n _ g = false

  pub use_count : ℕ → List ReceiptCall → Registry → ℕ
  use_count n [] g = 0
  use_count n (c ∷ cs) g = (if uses n c g then 1 else 0) + use_count n cs (call c g)

  call_keeps_claimed :
      (n : ℕ) (c : ReceiptCall) (g : Registry)
      → has n g.claimed ≡ true
      → has n (call c g).claimed ≡ true
  unfolding call immutable_receipt claim_receipt consume_grant claim
  call_keeps_claimed n (issue r) g h = ground arith
  call_keeps_claimed n (claim_with v b) g h = ground arith
  call_keeps_claimed n (consume_with v b) g h = ground arith

  claimed_refuses :
      (n : ℕ) (c : ReceiptCall) (g : Registry) → has n g.claimed ≡ true → claims n c g ≡ false
  unfolding claims claim_receipt claim
  claimed_refuses n (issue r) g h = refl
  claimed_refuses n (claim_with (receipt m) b) g h = ground arith
  claimed_refuses n (claim_with _ b) g h = refl
  claimed_refuses n (consume_with v b) g h = refl

  claims_claimed :
      (n : ℕ) (c : ReceiptCall) (g : Registry)
      → claims n c g ≡ true
      → has n (call c g).claimed ≡ true
  unfolding claims call claim_receipt claim
  claims_claimed n (issue r) g h = cc
  claims_claimed n (claim_with (receipt m) b) g h = ground arith
  claims_claimed n (claim_with _ b) g h = cc
  claims_claimed n (consume_with v b) g h = cc

  claimed_count :
      (n : ℕ) (cs : List ReceiptCall) (g : Registry)
      → has n g.claimed ≡ true
      → claim_count n cs g ≡ 0
  unfolding claim_count
  claimed_count n [] g h = refl
  claimed_count n (c ∷ cs) g h =
      rw (claimed_refuses n c g h)
        (omega (arith, claimed_count n cs (call c g) (call_keeps_claimed n c g h)))

  -- Over every sequence of issues, claims and uses, a receipt yields at most one execution grant.
  pub claimed_at_most_once : (n : ℕ) (cs : List ReceiptCall) (g : Registry) → claim_count n cs g ≤ 1
  unfolding claim_count
  claimed_at_most_once n [] g = omega arith
  claimed_at_most_once n (c ∷ cs) g = elim (Bool-cases (claims n c g)) [
    | inl e ↦ rw e (omega (arith, claimed_count n cs (call c g) (claims_claimed n c g e)))
    | inr e ↦ rw e (omega (arith, claimed_at_most_once n cs (call c g)))
  ]

  call_keeps_used :
      (n : ℕ) (c : ReceiptCall) (g : Registry) → has n g.used ≡ true → has n (call c g).used ≡ true
  unfolding call immutable_receipt claim_receipt consume_grant claim
  call_keeps_used n (issue r) g h = ground arith
  call_keeps_used n (claim_with v b) g h = ground arith
  call_keeps_used n (consume_with v b) g h = ground arith

  used_refuses : (n : ℕ) (c : ReceiptCall) (g : Registry) → has n g.used ≡ true → uses n c g ≡ false
  unfolding uses consume_grant
  used_refuses n (issue r) g h = refl
  used_refuses n (consume_with (grant m) b) g h = ground arith
  used_refuses n (consume_with _ b) g h = refl
  used_refuses n (claim_with v b) g h = refl

  uses_used :
      (n : ℕ) (c : ReceiptCall) (g : Registry) → uses n c g ≡ true → has n (call c g).used ≡ true
  unfolding uses call consume_grant
  uses_used n (issue r) g h = cc
  uses_used n (consume_with (grant m) b) g h = ground arith
  uses_used n (consume_with _ b) g h = cc
  uses_used n (claim_with v b) g h = cc

  used_count :
      (n : ℕ) (cs : List ReceiptCall) (g : Registry) → has n g.used ≡ true → use_count n cs g ≡ 0
  unfolding use_count
  used_count n [] g h = refl
  used_count n (c ∷ cs) g h =
      rw (used_refuses n c g h)
        (omega (arith, used_count n cs (call c g) (call_keeps_used n c g h)))

  -- Over every sequence of issues, claims and uses, an execution grant is consumed at most once.
  pub used_at_most_once : (n : ℕ) (cs : List ReceiptCall) (g : Registry) → use_count n cs g ≤ 1
  unfolding use_count
  used_at_most_once n [] g = omega arith
  used_at_most_once n (c ∷ cs) g = elim (Bool-cases (uses n c g)) [
    | inl e ↦ rw e (omega (arith, used_count n cs (call c g) (uses_used n c g e)))
    | inr e ↦ rw e (omega (arith, used_at_most_once n cs (call c g)))
  ]

  -- The last check of the verification, passed.
  mismatch_passed :
      (t : ConsumedApprovalSnapshot) (b : Binding) (hash target : Text)
      {s : ConsumedApprovalSnapshot}
      → (throw_if (mismatch t b hash target) binding_mismatch >> ok t) ≡ ok s
      → (t ≡ s)
        × (s.agent_run_id ≡ b.agent_run_id)
        × (s.credential_identity ≡ b.credential_identity)
        × (s.payload_hash ≡ hash)
        × (s.target ≡ target)
  unfolding timing_safe_hex_equal
  mismatch_passed t b hash target h = ground (
    arith,
    text_eq_iff t.agent_run_id b.agent_run_id,
    text_eq_iff t.credential_identity b.credential_identity,
    text_eq_iff t.payload_hash hash,
    text_eq_iff t.target target,
  )

  -- A receipt that verifies is one that was issued, and its snapshot names the caller's run and
  -- identity, the hash of the caller's payload, and the caller's target or the derived one.
  pub verify_receipt_binds :
      (v : Value) (b : Binding) (g : Registry) {s : ConsumedApprovalSnapshot}
      → verify_receipt sha256 v b g ≡ ok s
      → (receipt_snapshot v g ≡ some s)
        × (s.agent_run_id ≡ b.agent_run_id)
        × (s.credential_identity ≡ b.credential_identity)
        × (sha256_canonical sha256 b.payload ≡ ok s.payload_hash)
        × ((b.target ≡ some s.target)
            ⊎ ((b.target ≡ none) × (derive_approval_target b.skill b.payload ≡ ok s.target)))
  unfolding verify_receipt
  verify_receipt_binds v b g {s} h = elim (Option-cases (receipt_snapshot v g)) [
    | inl absent ↦ absurd (ground arith)
    | inr (t, at) ↦
        let h' = rw (at, verify_receipt) at h in
        let (hash, hashed, h₁) = >>=-eq-ok (hash_of sha256 b.payload) _ h' in
        let (target, found, h₂) = >>=-eq-ok (expected_target b) _ h₁ in
        let (same, run, identity, digest, aim) = mismatch_passed t b hash target h₂ in
        (
          rw (at, same),
          run,
          identity,
          rw digest (hash_of_ok sha256 b.payload hashed),
          rw aim (expected_target_ok b found),
        )
  ]
