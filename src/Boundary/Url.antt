-- ===== src/Boundary/Url.antt =====
-- `isPrivateAddress` and `assertUrlAllowed` of boundary.ts. `new URL`, `isIP` and the resolver are
-- arguments.
use dymaxion.Prelude.{
  ℕ, ◌+◌, ◌-◌, ◌*◌, Text, text, text_eq, starts_with, Option, none, some, Bool, true, false, not,
  ◌&&◌, ◌||◌, if◌then◌else◌, leb, ◌==◌, List, [], ◌∷◌, map, Result, ok, err, length, drop, any,
}
use dymaxion.Boundary.Glob.{lower, glob_match, is_hostname_denied}

pub data Kind : Type 0 where
  hostname path source : Kind

pub data Reason : Type 0 where
  malformed_url unsupported_url_scheme embedded_credentials local_hostname denied_hostname
        private_or_reserved_address url_not_allowlisted dns_resolution_failed malformed_path
        path_not_allowlisted boundary_structure_limit unsupported_uri_scheme url_field_not_url
        cyclic_boundary_payload :
      Reason

pub record BoundaryViolation : Type 0 where
  pub kind : Kind
  pub target : Text
  pub reason : Reason

-- The parts of a parsed URL that are looked at
pub record Url : Type 0 where
  pub protocol : Text
  pub username : Text
  pub password : Text
  pub hostname : Text
  pub href : Text

pub data AuditEntry : Type 0 where
  boundary_block : BoundaryViolation → AuditEntry
  data_query : (url hostname : Text) → AuditEntry

pub record BoundaryConfig : Type 0 where
  pub url_patterns : List Text  -- of `allowed_data_sources`, those that are there and not empty
  pub denied_hostnames : List Text
  pub audit_all_external_requests : Bool

pub record Network : Type 0 where
  pub parse_url : Text → Option Url
  pub is_ip : Text → ℕ
  pub resolve_host : Text → List Text  -- empty where it fails

abbrev pub to_lower : Text → Text
to_lower s = map lower s

-- `.replace(/^::ffff:/, '')`
abbrev pub without_mapped : Text → Text
without_mapped s = if starts_with s (text "::ffff:") then drop 7 s else s

-- `split('.').map(Number)` of an IPv4 address: the number so far, and the rest
unfoldable pub octets : ℕ → Text → List ℕ
octets n [] = n ∷ []
octets n (c ∷ s) = elim (c == b'.') [
  | true ↦ n ∷ octets 0 s
  | false ↦ octets (n * 10 + (c - b'0')) s
]

unfoldable pub is_private_v4 : ℕ → ℕ → ℕ → Bool
is_private_v4 a b c =
    (a == 0)
    || (a == 10)
    || (a == 127)
    || ((a == 100) && leb 64 b && leb b 127)
    || ((a == 169) && (b == 254))
    || ((a == 172) && leb 16 b && leb b 31)
    || ((a == 192) && (b == 0) && ((c == 0) || (c == 2)))
    || ((a == 192) && (b == 168))
    || ((a == 198) && ((b == 18) || (b == 19) || ((b == 51) && (c == 100))))
    || ((a == 203) && (b == 0) && (c == 113))
    || leb 224 a

-- An IPv4 address has four numbers, of which the fourth is not looked at.
abbrev pub is_private_octets : List ℕ → Bool
is_private_octets (a ∷ b ∷ c ∷ rest) = is_private_v4 a b c
is_private_octets _ = true

unfoldable pub is_private_v6 : Text → Bool
is_private_v6 s =
    text_eq s (text "::")
    || text_eq s (text "::1")
    || starts_with s (text "fc")
    || starts_with s (text "fd")
    || starts_with s (text "fe8")
    || starts_with s (text "fe9")
    || starts_with s (text "fea")
    || starts_with s (text "feb")
    || starts_with s (text "2001:db8:")
    || starts_with s (text "ff")

unfoldable pub is_private_address : (Text → ℕ) → Text → Bool
is_private_address is_ip address =
    let normalized = without_mapped (to_lower address) in
    if is_ip normalized == 4
    then is_private_octets (octets 0 normalized)
    else if is_ip normalized == 6
    then is_private_v6 normalized
    else true

-- `.replace(/\.$/, '')`
unfoldable pub without_dot : Text → Text
without_dot [] = []
without_dot (c ∷ []) = if c == b'.' then [] else c ∷ []
without_dot (c ∷ d ∷ s) = c ∷ without_dot (d ∷ s)

-- `hostname.endsWith('.local')`
unfoldable pub ends_local : Text → Bool
ends_local s = leb 6 (length s) && text_eq (drop (length s - 6) s) (text ".local")

abbrev pub is_empty : Text → Bool
is_empty [] = true
is_empty (c ∷ s) = false

abbrev pub or_text : Text → Text → Text
or_text [] t = t
or_text (c ∷ s) t = c ∷ s

abbrev pub Checked : Type 0
Checked = Result BoundaryViolation (Unit {0}) × List AuditEntry

-- `block`: the entry, and the violation
abbrev pub block : Kind → Text → Reason → Checked
block k t r =
    let v : BoundaryViolation = record { kind = k; target = t; reason = r } in
    (err v, boundary_block v ∷ [])

module _ (config : BoundaryConfig) (network : Network) where
  abbrev pub canonical_host : Url → Text
  canonical_host url = without_dot (to_lower url.hostname)

  abbrev pub addresses_of : Text → List Text
  addresses_of host = if not (network.is_ip host == 0) then host ∷ [] else network.resolve_host host

  abbrev pub is_private : Text → Bool
  is_private address = is_private_address network.is_ip address

  -- Once the addresses are known
  unfoldable pub check_addresses : Url → Text → List Text → Checked
  check_addresses url host addresses =
      if length addresses == 0
      then block hostname host dns_resolution_failed
      else if any is_private addresses
      then block hostname host private_or_reserved_address
      else if config.audit_all_external_requests
      then (ok tt, data_query url.href host ∷ [])
      else (ok tt, [])

  -- The URL once it is parsed, with its text
  unfoldable pub check_url : Text → Url → Checked
  check_url raw url =
      let host = canonical_host url in
      if not (text_eq url.protocol (text "https:")) && not (text_eq url.protocol (text "http:"))
      then block source raw unsupported_url_scheme
      else if not (is_empty url.username) || not (is_empty url.password)
      then block source raw embedded_credentials
      else if is_empty host || text_eq host (text "localhost") || ends_local host
      then block hostname (or_text host raw) local_hostname
      else if is_hostname_denied config.denied_hostnames host
      then block hostname host denied_hostname
      else if not (network.is_ip host == 0) && is_private host
      then block hostname host private_or_reserved_address
      else if not (any (λ pattern. glob_match pattern url.href) config.url_patterns)
      then block source raw url_not_allowlisted
      else check_addresses url host (addresses_of host)

  unfoldable pub assert_url_allowed : Text → Checked
  assert_url_allowed raw = elim (network.parse_url raw) [
    | none ↦ block source raw malformed_url
    | some url ↦ check_url raw url
  ]
