-- ===== src/Approval/Trace/Record.antt =====
-- One record of approval.ts under one change of the contract.
use dymaxion.Prelude.{
  ℕ, ◌<◌, ◌≡◌, Text, Option, none, some, is_none, false, arith, Option-cases, inl, inr, text_cases,
  text_eq_iff,
}
use dymaxion.Approval.Types.{ApprovalDecision, approved, ApprovalRecord, Verdict, ApprovalBinding}
use dymaxion.Approval.Interface.{decided, timed_out, consumed, Book, revise}

-- What a later state of a record keeps of an earlier one.
pub record Evolves (r q : ApprovalRecord) : Type 0 where
  pub same_id : q.id ≡ r.id
  pub same_run : q.agent_run_id ≡ r.agent_run_id
  pub same_payload : q.payload ≡ r.payload
  pub same_hash : q.payload_hash ≡ r.payload_hash
  pub same_target : q.target ≡ r.target
  pub same_identity : q.credential_identity ≡ r.credential_identity
  pub same_expiry : q.expires_at ≡ r.expires_at
  pub final_decision : is_none r.decision ≡ false → q.decision ≡ r.decision
  pub final_decider : is_none r.decision ≡ false → q.decided_by ≡ r.decided_by
  pub final_consumption : is_none r.consumed_at ≡ false → q.consumed_at ≡ r.consumed_at

pub Evolves-refl : (r : ApprovalRecord) → Evolves r r
Evolves-refl r = ground arith

pub Evolves-trans : (r q p : ApprovalRecord) → Evolves r q → Evolves q p → Evolves r p
Evolves-trans r q p a b = ground arith

pub decided-Evolves :
    (v : Verdict) (by : Text) (now : ℕ) (r q : ApprovalRecord)
    → decided v by now r ≡ some q
    → Evolves r q
unfolding decided
decided-Evolves v by now r q h = ground arith

pub timed_out-Evolves : (now : ℕ) (r q : ApprovalRecord) → timed_out now r ≡ some q → Evolves r q
unfolding timed_out
timed_out-Evolves now r q h = ground arith

pub consumed-Evolves :
    (b : ApprovalBinding) (now : ℕ) (r q : ApprovalRecord) → consumed b now r ≡ some q → Evolves r q
unfolding consumed
consumed-Evolves b now r q h = ground arith

-- A consumed record was approved, and consumed before it expired.
abbrev ConsumedBefore : Option ℕ → Option ApprovalDecision → ℕ → Type 0
ConsumedBefore none d e = Unit {0}
ConsumedBefore (some t) d e = (d ≡ some approved) × (t < e)

abbrev AnsweredBefore : Option ApprovalDecision → Option ℕ → ℕ → Type 0
AnsweredBefore (some approved) (some t) e = t < e
AnsweredBefore (some approved) none e = ⊥
AnsweredBefore _ _ e = Unit {0}

pub record IsSound (r : ApprovalRecord) : Type 0 where
  pub approved_first : ConsumedBefore r.consumed_at r.decision r.expires_at
  pub approved_in_time : AnsweredBefore r.decision r.responded_at r.expires_at

pub decided-IsSound :
    (v : Verdict) (by : Text) (now : ℕ) (r q : ApprovalRecord)
    → IsSound r
    → decided v by now r ≡ some q
    → IsSound q
unfolding decided
decided-IsSound v by now r q s h = ground arith

pub timed_out-IsSound :
    (now : ℕ) (r q : ApprovalRecord) → IsSound r → timed_out now r ≡ some q → IsSound q
unfolding timed_out
timed_out-IsSound now r q s h = ground arith

pub consumed-IsSound :
    (b : ApprovalBinding) (now : ℕ) (r q : ApprovalRecord)
    → IsSound r
    → consumed b now r ≡ some q
    → IsSound q
unfolding consumed
consumed-IsSound b now r q s h = ground arith

-- What every change keeps: the fields that are final, and soundness.
abbrev pub Keeps : ApprovalRecord → ApprovalRecord → Type 0
Keeps r q = Evolves r q × (IsSound r → IsSound q)

pub Keeps-refl : (r : ApprovalRecord) → Keeps r r
Keeps-refl r = (Evolves-refl r, λ s. s)

pub Keeps-trans : (r q p : ApprovalRecord) → Keeps r q → Keeps q p → Keeps r p
Keeps-trans r q p a b = (Evolves-trans r q p a.0 b.0, λ s. b.1 (a.1 s))

-- A change of one record, lifted to a book that `revise` changes at one key.
module _ (f : ApprovalRecord → Option ApprovalRecord)
    (changed : (r q : ApprovalRecord) → f r ≡ some q → Keeps r q) where
  pub revise-Keeps :
      (k j : Text) (b : Book) (r : ApprovalRecord)
      → b j ≡ some r
      → (q : ApprovalRecord) × (revise k f b j ≡ some q) × Keeps r q
  unfolding revise
  revise-Keeps k j b r e = elim (text_cases k j) [
    | inr other ↦ (r, rw other e, Keeps-refl r)
    | inl eq ↦ elim (Option-cases (f r)) [
      | inl stays ↦ (r, ground (arith, text_eq_iff k j), Keeps-refl r)
      | inr (q, moves) ↦ (q, ground (arith, text_eq_iff k j), changed r q moves)
    ]
  ]
