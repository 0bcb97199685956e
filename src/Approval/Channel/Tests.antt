-- ===== src/Approval/Channel/Tests.antt =====
-- An admitted and a refused request, for the definitions of internal-approval-auth.ts.
use dymaxion.Prelude.{◌≡◌, refl, text, text_eq, starts_with, some, true, false, ok, err}
use dymaxion.Skills.Identity.{trim_start, trim_end}
use dymaxion.Approval.Requests.{is_white}
use dymaxion.Boundary.Glob.{lower}
use dymaxion.Zip.Names.{utf8, utf8_unit, is_high}
use dymaxion.Approval.Channel.{
  single, missing, first, equal_secret, is_login, is_stable_identity, authenticate,
  authenticate_admits, identity_of, is_empty, unauthorized,
}

admitted :
    authenticate
      (single (text "Bearer key"))
      (single (text " Tailscale:Ann@x "))
      (some (text "key"))
    ≡ ok (text "tailscale:ann@x")
unfolding authenticate starts_with first equal_secret text_eq utf8 is_high utf8_unit
    is_stable_identity trim_end trim_start is_white lower is_login
admitted = refl

no_token :
    authenticate missing (single (text "tailscale:ann")) (some (text "key")) ≡ err unauthorized
unfolding authenticate starts_with first
no_token = refl

authenticate_admits_example :
    (starts_with (text "Bearer key") (text "Bearer ") ≡ true)
    × (is_empty (text "key") ≡ false)
    × (utf8 (text "key") ≡ utf8 (text "key"))
    × (text "tailscale:ann@x" ≡ identity_of (single (text " Tailscale:Ann@x ")))
    × (is_stable_identity (text "tailscale:ann@x") ≡ true)
unfolding first
authenticate_admits_example =
    authenticate_admits (single (text "Bearer key")) (single (text " Tailscale:Ann@x "))
      (some (text "key")) (text "tailscale:ann@x") admitted
