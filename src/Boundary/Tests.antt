-- ===== src/Boundary/Tests.antt =====
-- An allowed URL and a few addresses, for the definitions of boundary.ts.
use dymaxion.Prelude.{
  ℕ, zero, suc, ◌≤◌, ◌≡◌, refl, ap, ◌∙◌, inl, none, Text, text, text_eq, starts_with, some, true,
  if◌then◌else◌, [], ◌∷◌, is_ok, arith, ok,
}
use mathlib.Core.Path.{subst}
use dymaxion.Boundary.Glob.{glob_match, after_star, lower, is_hostname_denied, is_line_end}
use dymaxion.Boundary.Url.{
  Url, BoundaryConfig, Network, assert_url_allowed, check_url, check_addresses, is_private_address,
  is_private_v4, octets, without_dot, ends_local,
}
use dymaxion.Boundary.Allowed.{IsReachable, assert_url_allowed-IsReachable}
use dymaxion.Boundary.Paths.{
  FilePath, FileSystem, PathConfig, nearest, nearest_real_path, canonical_boundary_path,
  before_star, without_slash, relative, contained_by, some_of, root_from_pattern, configured_root,
  environment_root, roots_of, is_path_denied, is_path_allowed, assert_path_allowed,
}
use dymaxion.Boundary.Contained.{IsResolving, IsNormal}
use dymaxion.Boundary.Payload.{
  string, object, Node, array, entries, assert_execution_boundary, visit, visit_object, visit_items,
  visit_entries, check_string, settle, contains, delete, has_uri_scheme, scheme_ends, is_url_field,
  is_path_field, words_of, path_like, max_depth,
}
use dymaxion.Boundary.Lawful.{
  itself, in_array, in_object, IsLawful, assert_execution_boundary-IsLawful,
}
use dymaxion.Boundary.Ranges.{address, is_reserved, is_private_v4-reserved}

abbrev layer_url : Text
layer_url = text "https://gis.org/a"

abbrev parsed : Url
parsed = record {
  protocol = text "https:";
  username = [];
  password = [];
  hostname = text "gis.org";
  href = layer_url;
}

abbrev network : Network
network = record {
  parse_url = λ t. some parsed;
  is_ip = λ t. if starts_with t (text "93.") then 4 else 0;
  resolve_host = λ t. text "93.184.216.34" ∷ [];
}

abbrev config : BoundaryConfig
config = record {
  url_patterns = text "https://gis.org/*" ∷ [];
  denied_hostnames = text "*.corp" ∷ [];
  audit_all_external_requests = true;
}

layer_allowed : is_ok (assert_url_allowed config network layer_url).0 ≡ true
unfolding assert_url_allowed check_url text_eq without_dot lower ends_local is_hostname_denied
    glob_match after_star is_line_end starts_with check_addresses is_private_address octets
    is_private_v4
layer_allowed = refl

assert_url_allowed-IsReachable_example :
    (url : Url) × (some parsed ≡ some url) × IsReachable config network url
assert_url_allowed-IsReachable_example =
    assert_url_allowed-IsReachable config network layer_url layer_allowed

is_private_v4-reserved_example : is_private_v4 172 20 1 ≡ is_reserved (address 172 20 1 9)
is_private_v4-reserved_example =
    is_private_v4-reserved 172 20 1 9 (omega arith) (omega arith) (omega arith)

-- A file system in which every text but `/data` and `/etc` stands for one file
abbrev raw_file : FilePath
raw_file = text "data" ∷ text "raw" ∷ []

abbrev resolved : Text → FilePath
resolved t =
    if text_eq t (text "/data")
    then text "data" ∷ []
    else if text_eq t (text "/etc")
    then text "etc" ∷ []
    else raw_file

abbrev rendered : FilePath → Text
rendered (first ∷ []) = if text_eq first (text "etc") then text "/etc" else text "/data"
rendered _ = text "/data/raw"

abbrev files : FileSystem
files = record {
  resolve = resolved;
  render = rendered;
  exists = λ p. true;
  realpath = λ p. some p;
  file_url_to_path = λ t. some t;
}

canonical_resolved : (t : Text) → canonical_boundary_path files t ≡ some (resolved t)
unfolding canonical_boundary_path nearest_real_path nearest text_eq
canonical_resolved t = ground arith

resolved_settled : (t : Text) → resolved (rendered (resolved t)) ≡ resolved t
unfolding text_eq
resolved_settled t = ground arith

resolved-IsNormal : (t : Text) → IsNormal (resolved t)
unfolding text_eq
resolved-IsNormal t = ground arith

files-IsResolving : IsResolving files
files-IsResolving = record {
  settled = λ t p c.
      let same : resolved t ≡ p = cc (canonical_resolved t) in
      subst (λ (q : FilePath). canonical_boundary_path files (rendered q) ≡ some q) same
        (canonical_resolved (rendered (resolved t)) ∙ ap some (resolved_settled t));
  normal = λ t p c.
      let same : resolved t ≡ p = cc (canonical_resolved t) in
      subst IsNormal same (resolved-IsNormal t);
}

abbrev path_config : PathConfig
path_config = record {
  sources = record { path_pattern = some (text "/data/*"); env_root = none } ∷ [];
  denied_paths = text "/etc" ∷ [];
}

-- A URL in a list, and a path
abbrev objects : ℕ → Node
objects zero = entries ((text "urls", object 1) ∷ (text "path", string (text "/data/raw")) ∷ [])
objects (suc i) = array (string layer_url ∷ [])

payload_accepted :
    (assert_execution_boundary config network path_config files objects (object 0)).0 ≡ ok tt
unfolding assert_execution_boundary visit visit_object visit_items visit_entries check_string settle
    contains delete has_uri_scheme scheme_ends path_like is_path_field is_url_field words_of
    assert_path_allowed is_path_allowed is_path_denied roots_of environment_root configured_root
    root_from_pattern some_of contained_by relative without_slash before_star
    canonical_boundary_path nearest_real_path nearest assert_url_allowed check_url text_eq
    without_dot lower ends_local is_hostname_denied glob_match after_star is_line_end starts_with
    check_addresses is_private_address octets is_private_v4
payload_accepted = refl

assert_execution_boundary-IsLawful_example :
    (2 ≤ max_depth) × IsLawful config network path_config files (string layer_url) (text "urls")
assert_execution_boundary-IsLawful_example =
    assert_execution_boundary-IsLawful config network path_config files files-IsResolving objects
      (object 0) payload_accepted
      (in_object (text "urls") (object 1) refl (inl refl)
        (in_array (string layer_url) refl (inl refl) (itself refl refl)))
