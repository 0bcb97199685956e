-- ===== src/Approval/Requests/Waiting.antt =====
-- `awaitDecision` of approval.ts comes back: with the decision that was made, or, once the time has
-- come, with the expiry.
use dymaxion.Prelude.{
  ℕ, zero, suc, ◌+◌, ◌*◌, ◌≤◌, ◌<◌, ◌≡◌, refl, sym, ◌∙◌, Text, text, text_eq_refl, Option, none,
  some, List, arith, Option-cases, Bool-cases, inl, inr, leb, get_or_else,
}
use dymaxion.Approval.Types.{
  ApprovalRecord, ApprovalRequest, ApprovalResponse, ApprovalDecision, expired,
}
use dymaxion.Approval.Interface.{ApprovalStore, StoreLaws, timed_out, revise, is_approved}
use dymaxion.Approval.Trace.{Call, run}
use dymaxion.Approval.Trace.Safety.{run_history, run-IsValid}
use dymaxion.Approval.Requests.{poll, response, await_decision, resume}
use mathlib.Core.Path.{subst}

module _ {S : Type 0} (store : ApprovalStore S) (laws : StoreLaws store) where
  open laws use {view, IsValid, view-get, expire_revises}

  -- The response says what the store holds.
  abbrev pub Answered : ApprovalRequest → ApprovalResponse → S → Type 0
  Answered q a s =
      (r : ApprovalRecord) × (view s q.id ≡ some r)
      × (r.decision ≡ some a.decision)
      × (a.approved ≡ is_approved r.decision)

  abbrev answer : ApprovalRequest → ApprovalDecision → Text → ApprovalResponse
  answer q d by = record {
    approval_id = q.id;
    approved = is_approved (some d);
    decision = d;
    decided_by = by;
  }

  poll_decided :
      (q : ApprovalRequest) (now now' : ℕ) (s : S) (r : ApprovalRecord) (d : ApprovalDecision)
      → view s q.id ≡ some r
      → r.decision ≡ some d
      → poll store q now now' s ≡ (some (answer q d (get_or_else r.decided_by (text "unknown"))), s)
  unfolding poll response
  poll_decided q now now' s r d at made = ground (arith, view-get q.id s)

  poll_early :
      (q : ApprovalRequest) (now now' : ℕ) (s : S) (r : ApprovalRecord)
      → view s q.id ≡ some r
      → r.decision ≡ none
      → now < q.expires_at
      → poll store q now now' s ≡ (none, s)
  unfolding poll response
  poll_early q now now' s r at open' early = ground (arith, view-get q.id s)

  poll_late :
      (q : ApprovalRequest) (now now' : ℕ) (s : S) (r : ApprovalRecord)
      → IsValid s
      → view s q.id ≡ some r
      → r.decision ≡ none
      → q.expires_at ≤ now
      → r.expires_at ≤ now'
      → (poll store q now now' s).0 ≡ some (answer q expired (text "system"))
        × Answered q (answer q expired (text "system")) (poll store q now now' s).1
  unfolding poll response timed_out revise
  poll_late q now now' s r h at open' late late' =
      let (result, after, valid) = expire_revises q.id now' s h in
      (
        ground (arith, view-get q.id s, result),
        (
          record r {
            decision = some expired;
            decided_by = some (text "system");
            responded_at = some now';
          },
          ground (arith, view-get q.id s, result, after q.id, text_eq_refl q.id),
          refl,
          refl,
        ),
      )

  -- What the loop comes back with.
  abbrev pub Returns : ApprovalRequest → Option ApprovalResponse × S → Type 0
  Returns q p = (a : ApprovalResponse) × (p.0 ≡ some a) × Answered q a p.1

  module _ (clock : ℕ → ℕ × ℕ) (script : ℕ → List Call) (q : ApprovalRequest) where
    abbrev waiting : ℕ → ℕ → S → Option ApprovalResponse × S
    waiting f i s = await_decision store f clock (λ j. run store (script j)) q i s

    Returns-decided :
        (f i : ℕ) (s : S) (r : ApprovalRecord) (d : ApprovalDecision)
        → view s q.id ≡ some r
        → r.decision ≡ some d
        → Returns q (waiting (suc f) i s)
    unfolding await_decision resume
    Returns-decided f i s r d at made =
        rw (poll_decided q (clock i).0 (clock i).1 s r d at made, resume)
          (answer q d (get_or_else r.decided_by (text "unknown")), refl, (r, at, made, rw made))

    Returns-late :
        (f i : ℕ) (s : S) (r : ApprovalRecord)
        → IsValid s
        → view s q.id ≡ some r
        → r.decision ≡ none
        → q.expires_at ≤ (clock i).0
        → r.expires_at ≤ (clock i).1
        → Returns q (waiting (suc f) i s)
    unfolding await_decision resume
    Returns-late f i s r h at open' late late' =
        let (gives, holds) = poll_late q (clock i).0 (clock i).1 s r h at open' late late' in
        let s' = (poll store q (clock i).0 (clock i).1 s).1 in
        let whole : poll store q (clock i).0 (clock i).1 s
            ≡ (some (answer q expired (text "system")), s') =
          λ j. (gives j, s') in
        subst
          (λ p. Returns q (
            resume p (λ t.
              await_decision store f clock (λ j. run store (script j)) q (suc i)
                (run store (script i) t))))
          (sym whole) (answer q expired (text "system"), refl, holds)

    await-Returns :
        (f i : ℕ) (s : S) (r : ApprovalRecord)
        → IsValid s
        → view s q.id ≡ some r
        → r.expires_at ≡ q.expires_at
        → ((j : ℕ) → (clock j).0 ≤ (clock j).1)
        → ((j : ℕ) → (clock j).0 + 1000 ≤ (clock (suc j)).0)
        → q.expires_at ≤ (clock i).0 + f * 1000
        → Returns q (waiting (suc f) i s)
    unfolding await_decision resume
    await-Returns zero i s r h at expiry reads sleeps enough = elim (Option-cases r.decision) [
      | inr (d, made) ↦ Returns-decided zero i s r d at made
      | inl open' ↦
          Returns-late zero i s r h at open' (omega arith) (omega (arith, reads i, expiry))
    ]
    await-Returns (suc f) i s r h at expiry reads sleeps enough = elim (Option-cases r.decision) [
      | inr (d, made) ↦ Returns-decided (suc f) i s r d at made
      | inl open' ↦ elim (Bool-cases (leb q.expires_at (clock i).0)) [
        | inl late ↦
            Returns-late (suc f) i s r h at open' (ground arith) (ground (arith, reads i, expiry))
        | inr early ↦
            let (p, kept, evolves) = run_history store laws (script i) s q.id r h at in
            rw (poll_early q (clock i).0 (clock i).1 s r at open' (ground arith), resume)
              (await-Returns f (suc i) (run store (script i) s) p
                (run-IsValid store laws (script i) s h) kept (evolves.same_expiry ∙ expiry) reads
                sleeps (omega (arith, sleeps i)))
      ]
    ]

  -- While anyone makes any store calls during the sleeps, and the clock moves on by a second or
  -- more in each, `awaitDecision` comes back after at most as many rounds as there are seconds to
  -- the expiry, one more included; and its response is what the store then holds.
  pub await_decision-Returns :
      (f : ℕ) (clock : ℕ → ℕ × ℕ) (script : ℕ → List Call) (q : ApprovalRequest) (i : ℕ) (s : S)
      (r : ApprovalRecord)
      → IsValid s
      → view s q.id ≡ some r
      → r.expires_at ≡ q.expires_at
      → ((j : ℕ) → (clock j).0 ≤ (clock j).1)
      → ((j : ℕ) → (clock j).0 + 1000 ≤ (clock (suc j)).0)
      → q.expires_at ≤ (clock i).0 + f * 1000
      → Returns q (await_decision store (suc f) clock (λ j. run store (script j)) q i s)
  await_decision-Returns f clock script q = await-Returns clock script q f
