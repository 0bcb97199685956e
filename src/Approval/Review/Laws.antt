-- ===== src/Approval/Review/Laws.antt =====
-- The chunks of approval-review.ts join to the text, and the shown payload is the hashed one.
use dymaxion.Prelude.{
  ℕ, zero, suc, ◌≤◌, ◌<◌, ◌≡◌, refl, ap, ◌∙◌, Text, text_eq, text_eq_iff, Option, none, some, true,
  not, ltb, List, [], ◌∷◌, ◌++◌, ok, length, take, drop, take-append-drop, length-take, length-drop,
  arith, throw_if-eq-ok, Result-cases, inl, inr,
}
use dymaxion.Canonical.{canonical_json, sha256_canonical}
use dymaxion.Approval.Types.{ApprovalRequest}
use dymaxion.Approval.Review.{
  ApprovalReview, review_of, payload_hash_mismatch, approval_review, chunk_end, is_split_pair,
  chunks,
}

abbrev pub concat : List Text → Text
concat [] = []
concat (c ∷ cs) = c ++ concat cs

-- Each chunk has at least one and at most so many characters.
abbrev pub AllFit : ℕ → List Text → Type 0
AllFit max [] = Unit {0}
AllFit max (c ∷ cs) = (1 ≤ length c) × (length c ≤ max) × AllFit max cs

chunk_end-bounds :
    (max : ℕ) (rest : Text)
    → 2 ≤ max
    → 1 ≤ length rest
    → (1 ≤ chunk_end max rest) × (chunk_end max rest ≤ max) × (chunk_end max rest ≤ length rest)
unfolding chunk_end
chunk_end-bounds max rest h k = ground arith

-- What the loop has to give for a text
abbrev pub IsChunked : ℕ → Text → Option (List Text) → Type 0
IsChunked max t r = (cs : List Text) × (r ≡ some cs) × (concat cs ≡ t) × AllFit max cs

-- For a limit of two characters or more the loop of `chunkApprovalReview` ends, after at most as
-- many rounds as the text has characters and one more; its chunks join to exactly the text, and
-- each has at least one character and no more than the limit.
pub chunks-IsChunked :
    (f max : ℕ) (t : Text) → 2 ≤ max → length t < f → IsChunked max t (chunks f max t)
unfolding chunks
chunks-IsChunked zero max t h k = absurd (omega arith)
chunks-IsChunked (suc f) max [] h k = ([], refl, refl, tt)
chunks-IsChunked (suc f) max (c ∷ s) h k =
    let end = chunk_end max (c ∷ s) in
    let (some_one, fits, within) = chunk_end-bounds max (c ∷ s) h (omega arith) in
    let (cs, same, joined, all_fit) =
      chunks-IsChunked f max (drop end (c ∷ s)) h (omega (arith, length-drop end (c ∷ s))) in
    (
      take end (c ∷ s) ∷ cs,
      rw same refl,
      ap (λ u. take end (c ∷ s) ++ u) joined ∙ take-append-drop end (c ∷ s),
      (omega (arith, length-take end (c ∷ s)), omega (arith, length-take end (c ∷ s)), all_fit),
    )

-- With a limit of one character the loop of `chunkApprovalReview` does not end on a text that
-- begins with a surrogate pair, however many rounds it is given.
pub chunks_stuck :
    (f high low : ℕ) (s : Text) → is_split_pair high low ≡ true → chunks f 1 (high ∷ low ∷ s) ≡ none
unfolding chunks chunk_end
chunks_stuck zero high low s pair = refl
chunks_stuck (suc f) high low s pair =
    let more : ltb 1 (length (high ∷ low ∷ s)) ≡ true = ground arith in
    let stays : chunk_end 1 (high ∷ low ∷ s) ≡ 0 = ground arith in
    rw stays (rw (chunks_stuck f high low s pair) refl)

-- A review that is shown has the canonical text of the request's payload, and its digest, the
-- request's hash, is the digest of that very text.
pub approval_review_shows :
    (sha256 : Text → Text) (req : ApprovalRequest) (review : ApprovalReview)
    → approval_review sha256 req ≡ ok review
    → (canonical_json req.payload ≡ ok review.canonical_payload)
      × (sha256 review.canonical_payload ≡ review.payload_sha256)
      × (review.payload_sha256 ≡ req.payload_hash)
unfolding approval_review sha256_canonical
approval_review_shows sha256 req review h = elim (Result-cases (canonical_json req.payload)) [
  | inr (e, bad) ↦ absurd (ground arith)
  | inl (t, good) ↦
      let (same, shown) =
        throw_if-eq-ok (not (text_eq (sha256 t) req.payload_hash)) payload_hash_mismatch _
          (rw good at h) in
      let hashed : sha256 t ≡ req.payload_hash =
        (text_eq_iff (sha256 t) req.payload_hash).0 (ground arith) in
      let it : review_of req t ≡ review = cc in rw (← it) (good, hashed, refl)
]
