-- ===== src/Approval/Requests/Answers.antt =====
-- What an answer to an approval, accepted or refused, leaves: lemmas for `decideApproval` of
-- approval.ts.
use dymaxion.Prelude.{
  ℕ, ◌<◌, ◌≡◌, ◌↔◌, refl, Text, text_eq, text_eq_refl, none, some, is_none, Bool, true, false, not,
  arith, Bool-cases, inl, inr, ◌⊎◌, bind, Option, ltb, leb, get_or_else,
}
use dymaxion.Approval.Types.{ApprovalRecord, expired, Verdict}
use dymaxion.Approval.Interface.{
  ApprovalStore, StoreLaws, decided, timed_out, revise, verdict_decision,
}
use dymaxion.Approval.Requests.{decide_approval}

-- A record that is there and may still be answered
abbrev pub IsAnswerable : ℕ → Option ApprovalRecord → Type 0
IsAnswerable now none = ⊥
IsAnswerable now (some r) = (is_none r.decision ≡ true) × (now < r.expires_at)

-- What an answer, accepted or not, has made of the record that it names
abbrev pub IsSettled :
    Verdict → Text → Bool → Option ApprovalRecord → Option ApprovalRecord → Type 0
IsSettled v by false none after = after ≡ none
IsSettled v by true none after = ⊥
IsSettled v by answer (some r) none = ⊥
IsSettled v by true (some r) (some q) =
    (q.decision ≡ some (verdict_decision v)) × (q.decided_by ≡ some by)
IsSettled v by false (some r) (some q) =
    (is_none q.decision ≡ false)
    × ((q ≡ r) ⊎ ((is_none r.decision ≡ true) × (q.decision ≡ some expired)))

-- The record that a refused answer leaves: expired, if it was not decided.
settled : ℕ → ApprovalRecord → ApprovalRecord
settled now r = get_or_else (timed_out now r) r

pub is_accepted : Verdict → Text → ℕ → Option ApprovalRecord → Bool
is_accepted v by now o = not (is_none (bind o (decided v by now)))

pub answered : Verdict → Text → ℕ → Option ApprovalRecord → Option ApprovalRecord
unfolding settled
answered v by now none = none
answered v by now (some r) = some (get_or_else (decided v by now r) (settled now r))

pub is_accepted-IsAnswerable :
    (v : Verdict) (by : Text) (now : ℕ) (o : Option ApprovalRecord)
    → (is_accepted v by now o ≡ true) ↔ IsAnswerable now o
unfolding is_accepted decided
is_accepted-IsAnswerable v by now none = ground arith
is_accepted-IsAnswerable v by now (some r) = ground arith

pub answered-IsSettled :
    (v : Verdict) (by : Text) (now : ℕ) (o : Option ApprovalRecord)
    → IsSettled v by (is_accepted v by now o) o (answered v by now o)
unfolding is_accepted answered settled decided timed_out
answered-IsSettled v by now none = refl
answered-IsSettled v by now (some r) = elim (Bool-cases (is_none r.decision)) [
  | inr decided_before ↦ rw (decided_before) (decided_before, inl refl)
  | inl undecided ↦ elim (Bool-cases (ltb now r.expires_at)) [
    | inl in_time ↦ rw (undecided, in_time) (refl, refl)
    | inr late ↦
        let past : leb r.expires_at now ≡ true = ground arith in
        rw (undecided, late, past) (refl, inr (undecided, refl))
  ]
]

module _ {S : Type 0} (store : ApprovalStore S) (laws : StoreLaws store) where
  open laws use {view, IsValid, decide_revises, expire_revises}

  -- What an answer does to the store, its record being there or not.
  pub decide_approval_leaves :
      (k : Text) (v : Verdict) (by : Text) (now : ℕ) (s : S)
      → IsValid s
      → let (answer, s') = decide_approval store k v by now s in
        (answer ≡ is_accepted v by now (view s k))
        × (view s' k ≡ answered v by now (view s k))
        × ((j : Text) → (text_eq k j ≡ true) ⊎ (view s' j ≡ view s j))
  unfolding decide_approval revise settled is_accepted answered
  decide_approval_leaves k v by now s h =
      let (result, after, valid) = decide_revises k v by now s h in
      let late = (expire_revises k now (store.decide_atomic k v by now s).1 valid).1 in
      (
        ground (arith, result),
        ground (arith, result, after k, late k, text_eq_refl k),
        λ j. elim (Bool-cases (text_eq k j)) [
          | inl same ↦ inl same
          | inr other ↦ inr (ground (arith, result, after j, late j))
        ],
      )
