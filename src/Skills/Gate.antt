-- ===== src/Skills/Gate.antt =====
-- What capabilities/registry.ts executes, and with which approval.
use dymaxion.Prelude.{
  ℕ, ◌≡◌, refl, sym, ap, ◌∙◌, Text, Option, none, some, false, [], ◌∷◌, Result, ok, err, ◌⊎◌, inl,
  inr, Bool-cases, Result-cases, arith,
}
use dymaxion.Canonical.{Json, sha256_canonical}
use dymaxion.Approval.Types.{ConsumedApprovalSnapshot}
use dymaxion.Approval.Receipts.{
  Binding, Registry, Value, claim_receipt, receipt_snapshot, verify_receipt,
}
use dymaxion.Approval.Receipts.Laws.{verify_receipt_binds}
use dymaxion.Skills.Types.{
  SkillError, Capability, CapabilityBinding, capability_requires_approval, no_agent_run,
}
use dymaxion.Skills.World.{World, Environment, Context, Action, ◌>>=◌, lift, continue}
use dymaxion.Skills.Dispatch.{resolve_capability_approval_binding, claim, claim_bound, authorize}

module _ {S : Type 0} (env : Environment S) where
  -- The receipt that covers an input: its snapshot is of this run, this input's hash, and the target
  -- and identity that the capability resolves for it.
  pub record IsReceipt (c : Capability) (context : Context) (rs : Registry) (input : Json)
      : Type 0 where
    pub snapshot : ConsumedApprovalSnapshot
    pub binding : CapabilityBinding
    pub issued : receipt_snapshot context.approval_receipt rs ≡ some snapshot
    pub run : some snapshot.agent_run_id ≡ context.agent_run_id
    pub hashed : sha256_canonical env.sha256 input ≡ ok snapshot.payload_hash
    pub resolved : resolve_capability_approval_binding env c input ≡ ok binding
    pub identity : snapshot.credential_identity ≡ binding.credential_identity
    pub target : some binding.target ≡ some snapshot.target

  -- No approval is required, or a consumed one is at hand.
  abbrev pub IsCovered : Capability → Context → Registry → Json → Type 0
  IsCovered c context rs input =
      (capability_requires_approval c input ≡ false) ⊎ IsReceipt c context rs input

  claim_verifies :
      (v : Value) (b : Binding) (w w' : World S) (n : ℕ)
      → claim env v b w ≡ (ok n, w')
      → (s : ConsumedApprovalSnapshot) × (verify_receipt env.sha256 v b w.receipts ≡ ok s)
  unfolding claim claim_receipt
  claim_verifies v b w w' n h = elim (Result-cases (verify_receipt env.sha256 v b w.receipts)) [
    | inl found ↦ found
    | inr (e, bad) ↦ absurd (ground arith)
  ]

  continue-ok :
      {A B : Type 0} (x : Result SkillError A × World S) (f : A → Action S B) {b : B} {w' : World S}
      → continue f x ≡ (ok b, w')
      → (a : A) × (w : World S) × (x ≡ (ok a, w))
  continue-ok (ok a, w) f h = (a, w, refl)
  continue-ok (err e, w) f h = absurd (cc)

  claim_bound-IsReceipt :
      (c : Capability) (input : Json) (context : Context) (run : Text) (b : CapabilityBinding)
      (w w' : World S) (grant : Option ℕ)
      → context.agent_run_id ≡ some run
      → resolve_capability_approval_binding env c input ≡ ok b
      → claim_bound env c input context run b w ≡ (ok grant, w')
      → IsReceipt c context w.receipts input
  claim_bound-IsReceipt c input context run b w w' grant named found h =
      let (n, w₁, first) = continue-ok (claim env context.approval_receipt _ w) _ h in
      let (s, verified) = claim_verifies context.approval_receipt _ w w₁ n first in
      let (issued, same_run, same_identity, hashed, aim) =
        verify_receipt_binds env.sha256 context.approval_receipt _ w.receipts verified in
      record {
        snapshot = s;
        binding = b;
        issued = issued;
        run = ap some same_run ∙ sym named;
        hashed = hashed;
        resolved = found;
        identity = same_identity;
        target = elim aim [ inl e ↦ e | inr (missing, e) ↦ absurd (cc) ];
      }

  -- The branches of `authorize` where approval is required, by the run's name
  authorize_needed :
      (c : Capability) (input : Json) (context : Context) (run : Option Text) (w w' : World S)
      (grant : Option ℕ)
      → context.agent_run_id ≡ run
      → (elim run as (λ _. Action S (Option ℕ)) [
        | none ↦ lift (err no_agent_run)
        | some [] ↦ lift (err no_agent_run)
        | some (r ∷ name) ↦
            lift (resolve_capability_approval_binding env c input)
            >>= claim_bound env c input context (r ∷ name)
      ])
          w
        ≡ (ok grant, w')
      → IsReceipt c context w.receipts input
  authorize_needed c input context none w w' grant named h = absurd (cc)
  authorize_needed c input context (some []) w w' grant named h = absurd (cc)
  authorize_needed c input context (some (r ∷ name)) w w' grant named h =
      elim (Result-cases (resolve_capability_approval_binding env c input)) [
        | inr (e, bad) ↦ absurd (ground arith)
        | inl (b, found) ↦
            claim_bound-IsReceipt c input context (r ∷ name) b w w' grant named found
              (rw found at h)
      ]

  pub authorize-IsCovered :
      (c : Capability) (input : Json) (context : Context) (w w' : World S) (grant : Option ℕ)
      → authorize env c input context w ≡ (ok grant, w')
      → IsCovered c context w.receipts input
  unfolding authorize
  authorize-IsCovered c input context w w' grant h =
      elim (Bool-cases (capability_requires_approval c input)) [
        | inr free ↦ inl free
        | inl needed ↦
            inr (
              authorize_needed c input context context.agent_run_id w w' grant refl
                (rw needed at h))
      ]
