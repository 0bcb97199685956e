-- ===== src/Approval/Review/Tests.antt =====
-- Reviews and chunks of small texts, for the definitions of approval-review.ts.
use dymaxion.Prelude.{◌≡◌, refl, Text, text, text_eq, none, true, [], ◌∷◌, ok, arith}
use dymaxion.Canonical.{null, canonical_json, sha256_canonical}
use dymaxion.Approval.Types.{ApprovalRequest}
use dymaxion.Approval.Review.{approval_review, review_of, chunks, is_split_pair}
use dymaxion.Approval.Review.Laws.{IsChunked, chunks-IsChunked, chunks_stuck, approval_review_shows}

abbrev digest : Text → Text
digest t = text "digest"

abbrev request : ApprovalRequest
request = record {
  id = text "a1";
  agent_run_id = text "r1";
  step_description = text "publish";
  payload = null;
  payload_hash = text "digest";
  target = text "t";
  credential_identity = text "svc";
  requested_at = 1000;
  expires_at = 61000;
}

-- Two letters around a surrogate pair
abbrev letters : Text
letters = 97 ∷ 0xd83d ∷ 0xde00 ∷ 98 ∷ []

shown : approval_review digest request ≡ ok (review_of request (text "null"))
unfolding approval_review sha256_canonical canonical_json text_eq
shown = refl

approval_review_shows_example :
    (canonical_json null ≡ ok (text "null"))
    × (text "digest" ≡ text "digest")
    × (text "digest" ≡ text "digest")
approval_review_shows_example =
    approval_review_shows digest request (review_of request (text "null")) shown

chunks-IsChunked_example : IsChunked 2 letters (chunks 5 2 letters)
chunks-IsChunked_example = chunks-IsChunked 5 2 letters (omega arith) (omega arith)

face_split : is_split_pair 0xd83d 0xde00 ≡ true
unfolding is_split_pair
face_split = refl

chunks_stuck_example : chunks 100 1 (0xd83d ∷ 0xde00 ∷ 98 ∷ []) ≡ none
chunks_stuck_example = chunks_stuck 100 0xd83d 0xde00 (98 ∷ []) face_split
