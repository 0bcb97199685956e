-- ===== src/Boundary/Allowed.antt =====
-- Which URLs `assertUrlAllowed` of boundary.ts lets through, and which IPv4 ranges it does not.
use dymaxion.Prelude.{
  ◌≤◌, ◌≡◌, Text, text, text_eq, some, true, false, ◌&&◌, ◌||◌, is_ok, length, any, inl, inr,
  Option-cases, arith,
}
use dymaxion.Boundary.Glob.{glob_match, is_hostname_denied}
use dymaxion.Boundary.Url.{
  Url, BoundaryConfig, Network, canonical_host, addresses_of, is_private, check_addresses,
  check_url, assert_url_allowed, is_empty, ends_local,
}

module _ (config : BoundaryConfig) (network : Network) where
  -- A URL that may be reached: of the web, without credentials, with a host that is neither local
  -- nor denied, matched by an allowed pattern, and with addresses that are all public.
  pub record IsReachable (url : Url) : Type 0 where
    pub scheme :
        (text_eq url.protocol (text "https:") || text_eq url.protocol (text "http:")) ≡ true
    pub anonymous : (is_empty url.username && is_empty url.password) ≡ true
    pub nonlocal :
        (is_empty (canonical_host config network url)
          || text_eq (canonical_host config network url) (text "localhost")
          || ends_local (canonical_host config network url))
        ≡ false
    pub undenied :
        is_hostname_denied config.denied_hostnames (canonical_host config network url) ≡ false
    pub allowed : any (λ pattern. glob_match pattern url.href) config.url_patterns ≡ true
    pub addressed : 1 ≤ length (addresses_of config network (canonical_host config network url))
    pub public_only :
        any
          (is_private config network)
          (addresses_of config network (canonical_host config network url))
        ≡ false

  check_url-IsReachable :
      (raw : Text) (url : Url) → is_ok (check_url config network raw url).0 ≡ true → IsReachable url
  unfolding check_url check_addresses
  check_url-IsReachable raw url h = record {
    scheme = ground arith;
    anonymous = ground arith;
    nonlocal = ground arith;
    undenied = ground arith;
    allowed = ground arith;
    addressed = ground arith;
    public_only = ground arith;
  }

  -- A text that `assertUrlAllowed` lets through parses as a URL that may be reached: by http or
  -- https, without credentials, its host not local and not denied, its whole text matched by a
  -- pattern of the allowlist, and its host with at least one address and none that is private.
  pub assert_url_allowed-IsReachable :
      (raw : Text)
      → is_ok (assert_url_allowed config network raw).0 ≡ true
      → (url : Url) × (network.parse_url raw ≡ some url) × IsReachable url
  unfolding assert_url_allowed
  assert_url_allowed-IsReachable raw h = elim (Option-cases (network.parse_url raw)) [
    | inl bad ↦ absurd (ground arith)
    | inr (url, parsed) ↦
        let h' : is_ok (check_url config network raw url).0 ≡ true =
          rw (assert_url_allowed, parsed) at h in
        (url, parsed, check_url-IsReachable raw url h')
  ]
