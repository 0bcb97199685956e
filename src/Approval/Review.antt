-- ===== src/Approval/Review.antt =====
-- security/approval-review.ts: what a human is shown of a request, and its chunks. An ISO text of a
-- time is an argument's value.
pub mod Laws
pub mod Tests
use Prim.Native.Nat.{min}
use dymaxion.Prelude.{
  ℕ, zero, suc, ◌+◌, ◌-◌, Text, text, text_eq, Option, none, some, get_or_else, Bool, true, false,
  not, ◌&&◌, if◌then◌else◌, leb, ltb, List, [], ◌∷◌, ◌++◌, map, Result, ok, err, ◌>>=◌, ◌>>◌,
  throw_if, length, get_elem?, take, drop,
}
use dymaxion.Canonical.{Json, CanonicalError, canonical_json, sha256_canonical}
use dymaxion.Approval.Types.{ApprovalRequest}

pub data ReviewError : Type 0 where
  payload_hash_mismatch bad_chunk_size : ReviewError
  not_canonical : CanonicalError → ReviewError

pub record ApprovalReview : Type 0 where
  pub approval_id : Text
  pub description_untrusted : Text
  pub target : Text
  pub credential_identity : Text
  pub expires_at : ℕ
  pub payload_sha256 : Text
  pub canonical_payload : Text

abbrev pub canonical : {A : Type 0} → Result CanonicalError A → Result ReviewError A
canonical (ok a) = ok a
canonical (err e) = err (not_canonical e)

abbrev pub review_of : ApprovalRequest → Text → ApprovalReview
review_of req canonical_payload = record {
  approval_id = req.id;
  description_untrusted = req.step_description;
  target = req.target;
  credential_identity = req.credential_identity;
  expires_at = req.expires_at;
  payload_sha256 = req.payload_hash;
  canonical_payload = canonical_payload;
}

unfoldable pub approval_review : (Text → Text) → ApprovalRequest → Result ReviewError ApprovalReview
approval_review sha256 req = do
  canonical_payload ← canonical (canonical_json req.payload)
  hash ← canonical (sha256_canonical sha256 req.payload)
  throw_if (not (text_eq hash req.payload_hash)) payload_hash_mismatch
  ok (review_of req canonical_payload)

-- `join('\n')`
unfoldable pub join_lines : List Text → Text
join_lines [] = []
join_lines (l ∷ []) = l
join_lines (l ∷ m ∷ ls) = l ++ 10 ∷ join_lines (m ∷ ls)

unfoldable pub format_approval_review :
    (Text → Text) → (ℕ → Text) → ApprovalRequest → Result ReviewError Text
format_approval_review sha256 iso req = approval_review sha256 req >>= λ review. ok (
    join_lines (
      text "APPROVAL REQUIRED"
      ∷ (text "Approval ID: " ++ review.approval_id)
      ∷ (text "Description (untrusted summary): " ++ review.description_untrusted)
      ∷ (text "Exact target: " ++ review.target)
      ∷ (text "Trusted credential identity: " ++ review.credential_identity)
      ∷ (text "Expires at: " ++ iso review.expires_at)
      ∷ (text "Canonical payload SHA-256: " ++ review.payload_sha256)
      ∷ text "Canonical payload:"
      ∷ review.canonical_payload
      ∷ []))

-- `text.charCodeAt(i)`, where NaN fails every test, as 0 does
abbrev pub unit_at : Text → ℕ → ℕ
unit_at s i = get_or_else (get_elem? s i) 0

unfoldable pub is_split_pair : ℕ → ℕ → Bool
is_split_pair final next =
    leb 0xd800 final && leb final 0xdbff && leb 0xdc00 next && leb next 0xdfff

-- Where the next chunk of the rest of the text ends
unfoldable pub chunk_end : ℕ → Text → ℕ
chunk_end max rest =
    let end = min max (length rest) in
    if ltb end (length rest) && is_split_pair (unit_at rest (end - 1)) (unit_at rest end)
    then end - 1
    else end

abbrev pub add_chunk : Text → Option (List Text) → Option (List Text)
add_chunk c none = none
add_chunk c (some cs) = some (c ∷ cs)

-- The loop, with a number of rounds; `none` means that they ran out.
unfoldable pub chunks : ℕ → ℕ → Text → Option (List Text)
chunks zero max rest = none
chunks (suc f) max [] = some []
chunks (suc f) max (c ∷ s) =
    let end = chunk_end max (c ∷ s) in
    add_chunk (take end (c ∷ s)) (chunks f max (drop end (c ∷ s)))

abbrev pub or_empty : List Text → List Text
or_empty [] = [] ∷ []
or_empty (c ∷ cs) = c ∷ cs

unfoldable pub chunk_approval_review : ℕ → Text → ℕ → Result ReviewError (Option (List Text))
chunk_approval_review rounds t max =
    if ltb max 1
    then err bad_chunk_size
    else elim (chunks rounds max t) [ none ↦ ok none | some cs ↦ ok (some (or_empty cs)) ]
