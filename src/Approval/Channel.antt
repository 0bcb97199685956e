-- ===== src/Approval/Channel.antt =====
-- security/internal-approval-auth.ts: who may decide an approval over the internal channel. The
-- headers are those of one request, each a text, several or missing; letters are lowered as in ASCII.
pub mod Tests
use dymaxion.Prelude.{
  ℕ, ◌≤◌, ◌≡◌, refl, Text, text, text_eq, text_eq_iff, starts_with, Option, none, some, is_ok, Bool,
  true, false, not, ◌&&◌, ◌||◌, if◌then◌else◌, leb, ◌==◌, List, [], ◌∷◌, map, Result, ok, err,
  length, drop, all, any, arith, if-err-eq-ok,
}
use dymaxion.Boundary.Glob.{lower}
use dymaxion.Skills.Identity.{trim}
use dymaxion.Zip.Names.{utf8}

pub data AuthError : Type 0 where
  not_configured unauthorized identity_required : AuthError

pub data HeaderValue : Type 0 where
  missing : HeaderValue
  single : Text → HeaderValue
  several : List Text → HeaderValue

unfoldable pub first : HeaderValue → Text
first missing = []
first (single t) = t
first (several []) = []
first (several (t ∷ ts)) = t

-- The bytes have one length and agree.
unfoldable pub equal_secret : Text → Text → Bool
equal_secret actual expected = text_eq (utf8 actual) (utf8 expected)

abbrev pub is_lower_or_digit : ℕ → Bool
is_lower_or_digit c = (leb b'a' c && leb c b'z') || (leb b'0' c && leb c b'9')

abbrev pub is_identity_character : ℕ → Bool
is_identity_character c =
    is_lower_or_digit c || any (λ d. d == c) (b'@' ∷ b'.' ∷ b'_' ∷ b'+' ∷ b'-' ∷ [])

-- `[a-z0-9][a-z0-9@._+-]{1,254}`
unfoldable pub is_login : Text → Bool
is_login [] = false
is_login (c ∷ s) =
    is_lower_or_digit c && all is_identity_character s && leb 1 (length s) && leb (length s) 254

-- `/^tailscale:[a-z0-9][a-z0-9@._+-]{1,254}$/`
unfoldable pub is_stable_identity : Text → Bool
is_stable_identity t = starts_with t (text "tailscale:") && is_login (drop 10 t)

abbrev pub token_of : Text → Text
token_of authorization =
    if starts_with authorization (text "Bearer ") then drop 7 authorization else []

abbrev pub is_empty : Text → Bool
is_empty [] = true
is_empty (c ∷ s) = false

abbrev pub identity_of : HeaderValue → Text
identity_of h = map lower (trim (first h))

abbrev pub expected_or_empty : Option Text → Text
expected_or_empty none = []
expected_or_empty (some t) = t

-- The value of `authorization`, that of `x-dymaxion-approver-identity`, and the configured token
unfoldable pub authenticate : HeaderValue → HeaderValue → Option Text → Result AuthError Text
authenticate authorization approver expected =
    let token = token_of (first authorization) in
    if is_empty (expected_or_empty expected)
    then err not_configured
    else if is_empty token || not (equal_secret token (expected_or_empty expected))
    then err unauthorized
    else if not (is_stable_identity (identity_of approver))
    then err identity_required
    else ok (identity_of approver)

-- Whoever `authenticateInternalApproval` admits has sent, behind `Bearer `, a token with the bytes of
-- the configured one, which is not empty, and is named by the trimmed lower-case header of the
-- approver, which is a stable identity.
pub authenticate_admits :
    (authorization approver : HeaderValue) (expected : Option Text) (who : Text)
    → authenticate authorization approver expected ≡ ok who
    → (starts_with (first authorization) (text "Bearer ") ≡ true)
      × (is_empty (expected_or_empty expected) ≡ false)
      × (utf8 (drop 7 (first authorization)) ≡ utf8 (expected_or_empty expected))
      × (who ≡ identity_of approver)
      × (is_stable_identity who ≡ true)
unfolding authenticate equal_secret
authenticate_admits authorization approver expected who h =
    let (configured, h₁) =
      if-err-eq-ok (is_empty (expected_or_empty expected)) not_configured _ h in
    let token = token_of (first authorization) in
    let (same, h₂) =
      if-err-eq-ok (is_empty token || not (equal_secret token (expected_or_empty expected)))
        unauthorized _ h₁ in
    let (stable, named) =
      if-err-eq-ok (not (is_stable_identity (identity_of approver))) identity_required _ h₂ in
    let who_is : identity_of approver ≡ who = cc in
    let bearer : starts_with (first authorization) (text "Bearer ") ≡ true = ground arith in
    let sent : token ≡ drop 7 (first authorization) = rw bearer refl in
    (
      bearer,
      configured,
      rw (← sent) ((text_eq_iff (utf8 token) (utf8 (expected_or_empty expected))).0 (ground arith)),
      cc,
      rw (← who_is) (ground arith),
    )
