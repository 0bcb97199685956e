-- ===== src/Approval/Requests/Laws.antt =====
-- What `createApprovalRequest`, `decideApproval` and `consumeApproval` of approval.ts do to a store
-- that keeps its contract, on every branch.
use dymaxion.Prelude.{
  ℕ, ◌+◌, ◌*◌, ◌<◌, ◌≡◌, ◌↔◌, refl, ap, ◌∙◌, Text, text_eq, text_eq_iff, text_eq_refl, none, some,
  is_none, Bool, true, false, not, if◌then◌else◌, List, [], ◌∷◌, ◌++◌, ok, err, arith, Option-cases,
  Bool-cases, inl, inr, ◌⊎◌, length, get_elem?, Result-cases,
}
use dymaxion.Canonical.{Json, sha256_canonical}
use dymaxion.Approval.Types.{
  ApprovalRecord, ApprovalRequest, ApprovalBinding, ApprovalDraft, approved, Verdict,
}
use dymaxion.Approval.Interface.{ApprovalStore, StoreLaws, fresh, consumed, revise}
use dymaxion.Approval.Receipts.{Registry, immutable_receipt, snapshot_of}
use dymaxion.Approval.Requests.Answers.{
  IsAnswerable, IsSettled, is_accepted-IsAnswerable, answered-IsSettled, decide_approval_leaves,
}
use dymaxion.Approval.Requests.{
  ApprovalError, Options, is_blank, public_request, hash_payload, create_approval_request,
  consume_approval, decide_approval, consume_bound, make_request, draft_of,
}

is_consumable : ApprovalBinding → ℕ → ApprovalRecord → Bool
is_consumable b now r = not (is_none (consumed b now r))

is_consumable_lem :
    (b : ApprovalBinding) (now : ℕ) (r : ApprovalRecord)
    → is_consumable b now r ≡ true
    → (r.decision ≡ some approved)
      × (r.consumed_at ≡ none)
      × (now < r.expires_at)
      × (r.agent_run_id ≡ b.agent_run_id)
      × (r.payload_hash ≡ b.payload_hash)
      × (r.target ≡ b.target)
      × (r.credential_identity ≡ some b.credential_identity)
unfolding is_consumable consumed
is_consumable_lem b now r h = elim (Option-cases r.credential_identity) [
  | inl e ↦ absurd (ground arith)
  | inr (c, e) ↦ ground (
    arith,
    text_eq_iff r.agent_run_id b.agent_run_id,
    text_eq_iff r.payload_hash b.payload_hash,
    text_eq_iff r.target b.target,
    text_eq_iff c b.credential_identity,
  )
]

module _ {S : Type 0} (store : ApprovalStore S) where
  -- What `consumeApproval` has checked when it reaches the store.
  consume_approval_ok :
      (sha256 : Text → Text) (q : ApprovalRequest) (payload : Json) (target identity : Text)
      (now : ℕ) (s s' : S) (g g' : Registry) (n : ℕ)
      → consume_approval store sha256 q payload target identity now (s, g) ≡ (ok n, (s', g'))
      → (hash : Text) × (sha256_canonical sha256 payload ≡ ok hash)
        × (hash ≡ q.payload_hash)
        × (target ≡ q.target)
        × (identity ≡ q.credential_identity)
        × (consume_bound store sha256 q.id
              (record {
                agent_run_id = q.agent_run_id;
                payload_hash = hash;
                target = target;
                credential_identity = identity;
              })
              now
              (s, g)
            ≡ (ok n, (s', g')))
  unfolding consume_approval hash_payload
  consume_approval_ok sha256 q payload target identity now s s' g g' n e =
      elim (Result-cases (sha256_canonical sha256 payload)) [
        | inr (x, bad) ↦ absurd (ground arith)
        | inl (hash, hashed) ↦ (
          hash,
          hashed,
          ground (arith, text_eq_iff hash q.payload_hash),
          ground (arith, text_eq_iff target q.target),
          ground (arith, text_eq_iff identity q.credential_identity),
          ground arith,
        )
      ]

-- What the request of a new record shows.
public_request-fresh :
    (d : ApprovalDraft) {q : ApprovalRequest}
    → public_request (fresh d) ≡ ok q
    → (q.payload_hash ≡ d.payload_hash)
      × (q.target ≡ d.target)
      × (q.credential_identity ≡ d.credential_identity)
      × (q.expires_at ≡ d.expires_at)
unfolding public_request fresh
public_request-fresh d h = ground arith

module _ {S : Type 0} (store : ApprovalStore S) where
  -- What `createApprovalRequest` has checked when it reaches the store.
  create_approval_request_ok :
      (sha256 : Text → Text) (new_id run description : Text) (payload : Json) (options : Options)
      (now : ℕ) (s : S) {q : ApprovalRequest}
      → (create_approval_request store sha256 new_id run description payload options now s).0 ≡ ok q
      → (hash : Text) × (sha256_canonical sha256 payload ≡ ok hash)
        × (is_blank options.target ≡ false)
        × (is_blank options.credential_identity ≡ false)
        × (create_approval_request store sha256 new_id run description payload options now s
            ≡ make_request store sha256
                (draft_of new_id run description payload options now hash)
                s)
  unfolding create_approval_request hash_payload
  create_approval_request_ok sha256 new_id run description payload options now s e =
      elim (Result-cases (sha256_canonical sha256 payload)) [
        | inr (x, bad) ↦ absurd (ground arith)
        | inl (hash, hashed) ↦ (hash, hashed, ground arith, ground arith, ground arith)
      ]

get_elem?-last : {A : Type 0} (xs : List A) (a : A) → get_elem? (xs ++ a ∷ []) (length xs) ≡ some a
get_elem?-last [] a = refl
get_elem?-last (x ∷ xs) a = get_elem?-last xs a

module _ {S : Type 0} (store : ApprovalStore S) (laws : StoreLaws store) where
  open laws use {view, IsValid, create_fails, create_adds, consume_revises}

  -- The answer is accepted exactly when a record of that name is there, undecided and not expired.
  -- An accepted answer gives the record its verdict and its decider. After a refused one there is
  -- still no record, or the record as it was, already decided, or one that has expired undecided
  -- and is marked so; in none of these is it left undecided. No other record changes.
  pub decide_approval_settles :
      (k : Text) (v : Verdict) (by : Text) (now : ℕ) (s : S)
      → IsValid s
      → let (answer, s') = decide_approval store k v by now s in
        ((answer ≡ true) ↔ IsAnswerable now (view s k))
        × IsSettled v by answer (view s k) (view s' k)
        × ((j : Text) → (text_eq k j ≡ true) ⊎ (view s' j ≡ view s j))
  decide_approval_settles k v by now s h =
      let (answer, after, others) = decide_approval_leaves store laws k v by now s h in
      rw (answer, after)
        (
          is_accepted-IsAnswerable v by now (view s k),
          answered-IsSettled v by now (view s k),
          others,
        )

  consume_bound_ok :
      (sha256 : Text → Text) (id : Text) (b : ApprovalBinding) (now : ℕ) (s s' : S)
      (g g' : Registry) (n : ℕ)
      → IsValid s
      → consume_bound store sha256 id b now (s, g) ≡ (ok n, (s', g'))
      → (r : ApprovalRecord) × (view s id ≡ some r)
        × (is_consumable b now r ≡ true)
        × (view s' id ≡ some (record r { consumed_at = some now }))
        × (get_elem? g'.receipts n ≡ some (snapshot_of (record r { consumed_at = some now })))
  unfolding consume_bound consumed revise immutable_receipt is_consumable
  consume_bound_ok sha256 id b now s s' g g' n h e =
      let (result, after, valid) = consume_revises id b now s h in
      elim (Option-cases (view s id)) [
        | inl absent ↦ absurd (ground (arith, result))
        | inr (r, at) ↦ (
          r,
          at,
          ground (arith, result),
          ground (arith, result, after id, text_eq_refl id),
          ground (
            arith,
            result,
            get_elem?-last g.receipts (snapshot_of (record r { consumed_at = some now })),
          ),
        )
      ]

  -- A consumption that succeeds was of an approved, unexpired and unconsumed record with the
  -- request's run, the payload's hash, the target and the identity, all as the request names them;
  -- it marks that record and issues a receipt, whose snapshot is of the marked record.
  pub consume_approval_binds :
      (sha256 : Text → Text) (q : ApprovalRequest) (payload : Json) (target identity : Text)
      (now : ℕ) (s s' : S) (g g' : Registry) (n : ℕ)
      → IsValid s
      → consume_approval store sha256 q payload target identity now (s, g) ≡ (ok n, (s', g'))
      → (r : ApprovalRecord) × (view s q.id ≡ some r)
        × (r.decision ≡ some approved)
        × (r.consumed_at ≡ none)
        × (now < r.expires_at)
        × (r.agent_run_id ≡ q.agent_run_id)
        × ((r.payload_hash ≡ q.payload_hash)
            × (sha256_canonical sha256 payload ≡ ok r.payload_hash))
        × ((r.target ≡ q.target) × (r.target ≡ target))
        × ((r.credential_identity ≡ some q.credential_identity)
            × (r.credential_identity ≡ some identity))
        × (view s' q.id ≡ some (record r { consumed_at = some now }))
        × (get_elem? g'.receipts n ≡ some (snapshot_of (record r { consumed_at = some now })))
  unfolding consume_approval
  consume_approval_binds sha256 q payload target identity now s s' g g' n h e =
      let (hash, hashed, same_hash, same_target, same_identity, rest) =
        consume_approval_ok store sha256 q payload target identity now s s' g g' n e in
      let (r, at, fits, marked, issued) = consume_bound_ok sha256 q.id _ now s s' g g' n h rest in
      let (yes_approved, fresh_one, in_time, run, digest, aim, who) =
        is_consumable_lem _ now r fits in
      (
        r,
        at,
        yes_approved,
        fresh_one,
        in_time,
        run,
        (digest ∙ same_hash, rw digest hashed),
        (aim ∙ same_target, aim),
        (who ∙ ap some same_identity, who),
        marked,
        issued,
      )

  -- A named identity is not falsy, so the record of the store can be made public.
  make_request_refused :
      (sha256 : Text → Text) (d : ApprovalDraft) (s : S) {e : ApprovalError}
      → IsValid s
      → is_blank d.credential_identity ≡ false
      → (make_request store sha256 d s).0 ≡ err e
      → (make_request store sha256 d s).1 ≡ s
  unfolding make_request public_request fresh is_blank
  make_request_refused sha256 d s h named e = elim (Result-cases (store.create d s).0) [
    | inr (x, failed) ↦ create_fails d s failed
    | inl (r, added) ↦ absurd (ground (arith, create_adds d s h added))
  ]

  make_request_adds :
      (sha256 : Text → Text) (d : ApprovalDraft) (s : S) {q : ApprovalRequest}
      → IsValid s
      → (make_request store sha256 d s).0 ≡ ok q
      → (view s d.id ≡ none)
        × (public_request (fresh d) ≡ ok q)
        × ((j : Text)
            → view (make_request store sha256 d s).1 j
              ≡ (if text_eq d.id j then some (fresh d) else view s j))
  unfolding make_request
  make_request_adds sha256 d s h e = elim (Result-cases (store.create d s).0) [
    | inr (x, failed) ↦ absurd (ground arith)
    | inl (r, added) ↦
        let (absent, new, at, valid) = create_adds d s h added in (absent, ground arith, at)
  ]

  -- A request that is refused, for whatever reason, changes nothing.
  pub create_approval_request_refused :
      (sha256 : Text → Text) (new_id run description : Text) (payload : Json) (options : Options)
      (now : ℕ) (s : S) {e : ApprovalError}
      → IsValid s
      → (create_approval_request store sha256 new_id run description payload options now s).0
        ≡ err e
      → (create_approval_request store sha256 new_id run description payload options now s).1 ≡ s
  unfolding create_approval_request hash_payload
  create_approval_request_refused sha256 new_id run description payload options now s {e = x} h e =
      elim (Result-cases (sha256_canonical sha256 payload)) [
        | inr (_, bad) ↦ ground arith
        | inl (hash, hashed) ↦
            let d = draft_of new_id run description payload options now hash in
            elim (Bool-cases (is_blank options.credential_identity)) [
              | inl blank ↦ ground arith
              | inr named ↦ ground (arith, make_request_refused sha256 d s {e = x} h named)
            ]
      ]

  -- A request that is made adds one undecided record under the new identifier, which carries the
  -- hash of the payload, the target and the identity that the request shows, and expires after the
  -- timeout; no other record changes.
  pub create_approval_request_adds :
      (sha256 : Text → Text) (new_id run description : Text) (payload : Json) (options : Options)
      (now : ℕ) (s : S) {q : ApprovalRequest}
      → IsValid s
      → (create_approval_request store sha256 new_id run description payload options now s).0 ≡ ok q
      → let s' =
          (create_approval_request store sha256 new_id run description payload options now s).1 in
        (view s new_id ≡ none)
        × (sha256_canonical sha256 payload ≡ ok q.payload_hash)
        × ((r : ApprovalRecord) × (public_request r ≡ ok q)
            × (is_none r.decision ≡ true)
            × (is_none r.consumed_at ≡ true)
            × ((j : Text) → view s' j ≡ (if text_eq new_id j then some r else view s j)))
        × ((q.target ≡ options.target) × (is_blank q.target ≡ false))
        × ((q.credential_identity ≡ options.credential_identity)
            × (is_blank q.credential_identity ≡ false))
        × (q.expires_at ≡ now + options.timeout_minutes * 60000)
  unfolding fresh
  create_approval_request_adds sha256 new_id run description payload options now s {q} h e =
      let (hash, hashed, target_named, identity_named, whole) =
        create_approval_request_ok store sha256 new_id run description payload options now s e in
      let d = draft_of new_id run description payload options now hash in
      let (absent, shown, at) = make_request_adds sha256 d s h (rw whole at e) in
      let (same_hash, same_target, same_identity, same_expiry) = public_request-fresh d shown in
      rw whole (
        absent,
        rw same_hash hashed,
        (fresh d, shown, refl, refl, at),
        (same_target, rw same_target target_named),
        (same_identity, rw same_identity identity_named),
        same_expiry,
      )
