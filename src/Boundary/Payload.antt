-- ===== src/Boundary/Payload.antt =====
-- `assertExecutionBoundary` of boundary.ts. A payload is a JavaScript value whose objects stand in a
-- heap, so that one may hold itself; an object is known by its place there.
use dymaxion.Prelude.{
  ℕ, zero, suc, ◌+◌, Text, text, text_eq, starts_with, Option, none, some, Bool, true, false, ◌&&◌,
  ◌||◌, if◌then◌else◌, ◌==◌, leb, ltb, List, [], ◌∷◌, ◌++◌, any, Result, ok, err,
}
use dymaxion.Boundary.Url.{
  Checked, AuditEntry, BoundaryViolation, BoundaryConfig, Network, Kind, block, assert_url_allowed,
  to_lower, unsupported_uri_scheme, url_field_not_url, boundary_structure_limit,
  cyclic_boundary_payload,
}
use dymaxion.Boundary.Paths.{FileSystem, PathConfig, assert_path_allowed}

pub data Value : Type 0 where
  string : Text → Value
  object : ℕ → Value
  scalar : Value  -- `null`, a number, a boolean, `undefined` or a function

pub data Node : Type 0 where
  array : List Value → Node
  entries : List (Text × Value) → Node  -- `Object.entries`

abbrev pub max_depth : ℕ
max_depth = 32

abbrev pub max_nodes : ℕ
max_nodes = 10_000

abbrev pub is_letter : ℕ → Bool
is_letter c = (leb b'A' c && leb c b'Z') || (leb b'a' c && leb c b'z')

abbrev pub is_scheme_unit : ℕ → Bool
is_scheme_unit c =
    is_letter c || (leb b'0' c && leb c b'9') || (c == b'+') || (c == b'.') || (c == b'-')

-- `[A-Za-z0-9+.-]*:`
unfoldable pub scheme_ends : Text → Bool
scheme_ends [] = false
scheme_ends (c ∷ s) = (c == b':') || (is_scheme_unit c && scheme_ends s)

-- `URI_SCHEME`
unfoldable pub has_uri_scheme : Text → Bool
has_uri_scheme [] = false
has_uri_scheme (c ∷ s) = is_letter c && scheme_ends s

-- The words of a field's name, between its underscores
unfoldable pub words_of : Text → Text → List Text
words_of word [] = word ∷ []
words_of word (c ∷ s) = elim (c == b'_') [
  | true ↦ word ∷ words_of [] s
  | false ↦ words_of (word ++ c ∷ []) s
]

abbrev pub has_word : List Text → Text → Bool
has_word words field = any (λ word. any (text_eq (to_lower word)) words) (words_of [] field)

-- `URL_FIELD` and `PATH_FIELD`
unfoldable pub is_url_field : Text → Bool
is_url_field = has_word (text "url" ∷ text "uri" ∷ text "endpoint" ∷ [])

unfoldable pub is_path_field : Text → Bool
is_path_field =
    has_word
      (text "path" ∷ text "paths" ∷ text "file" ∷ text "files" ∷ text "directory" ∷ text "dir" ∷ [])

abbrev pub nonempty : Text → Bool
nonempty [] = false
nonempty (c ∷ s) = true

-- `isAbsolute` is that of POSIX.
unfoldable pub path_like : Text → Text → Bool
path_like value field =
    starts_with value (text "file:")
    || starts_with value (text "/")
    || starts_with value (text "./")
    || starts_with value (text "../")
    || (is_path_field field && nonempty value)

-- What the visit carries: `seen`, `visited`, and the audit so far
pub record Visit : Type 0 where
  pub seen : List ℕ
  pub visited : ℕ
  pub audit : List AuditEntry

-- A violation, or another exception
pub data Refusal : Type 0 where
  violation : BoundaryViolation → Refusal
  exception : Refusal

abbrev pub Visiting : Type 0
Visiting = Visit → Result Refusal (Unit {0}) × Visit

unfoldable pub settle : Option Checked → Visiting
settle none v = (err exception, v)
settle (some (ok u, audited)) v = (ok tt, record v { audit = v.audit ++ audited })
settle (some (err e, audited)) v = (err (violation e), record v { audit = v.audit ++ audited })

infixl 5 ◌then_visit◌
abbrev pub ◌then_visit◌ :
    Result Refusal (Unit {0}) × Visit → Visiting → Result Refusal (Unit {0}) × Visit
(err e, v) then_visit next = (err e, v)
(ok u, v) then_visit next = next v

unfoldable pub contains : List ℕ → ℕ → Bool
contains [] i = false
contains (j ∷ js) i = (i == j) || contains js i

unfoldable pub delete : List ℕ → ℕ → List ℕ
delete [] i = []
delete (j ∷ js) i = if i == j then delete js i else j ∷ delete js i

-- The loops over an array's items, under its own field, and over an object's entries
unfoldable pub visit_items : (Value → Text → Visiting) → List Value → Text → Visiting
visit_items visit [] field v = (ok tt, v)
visit_items visit (item ∷ items) field v =
    visit item field v then_visit visit_items visit items field

unfoldable pub visit_entries : (Value → Text → Visiting) → List (Text × Value) → Visiting
visit_entries visit [] v = (ok tt, v)
visit_entries visit ((key, item) ∷ rest) v = visit item key v then_visit visit_entries visit rest

abbrev pub visit_node : (Value → Text → Visiting) → Node → Text → Visiting
visit_node visit (array items) field = visit_items visit items field
visit_node visit (entries rest) field = visit_entries visit rest

module _ (heap : ℕ → Node) where
  -- An object, whose own place is among the seen while its parts are visited
  unfoldable pub visit_object : (Value → Text → Visiting) → ℕ → Text → Visiting
  visit_object visit i field v =
      if contains v.seen i
      then settle (some (block Kind.source field cyclic_boundary_payload)) v
      else visit_node visit (heap i) field (record v { seen = i ∷ v.seen }) then_visit λ w.
          (ok tt, record w { seen = delete w.seen i })

module _ (config : BoundaryConfig) (network : Network) (paths : PathConfig) (fs : FileSystem) where
  unfoldable pub check_string : Text → Text → Option Checked
  check_string value field =
      if starts_with value (text "file:")
      then assert_path_allowed fs paths value
      else if has_uri_scheme value
      then if starts_with value (text "http://") || starts_with value (text "https://")
        then some (assert_url_allowed config network value)
        else some (block Kind.source value unsupported_uri_scheme)
      else if path_like value field
      then assert_path_allowed fs paths value
      else if is_url_field field
      then some (block Kind.source value url_field_not_url)
      else some (ok tt, [])

  module _ (heap : ℕ → Node) where
    abbrev pub visit_value : (Value → Text → Visiting) → Value → Text → Visiting
    visit_value visit (string s) field v = settle (check_string s field) v
    visit_value visit (object i) field v = visit_object heap visit i field v
    visit_value visit scalar field v = (ok tt, v)

    -- With how many levels may still follow: with none, the depth is past `MAX_DEPTH`.
    unfoldable pub visit : ℕ → Value → Text → Visiting
    visit zero value field v =
        settle (some (block Kind.source field boundary_structure_limit))
          (record v { visited = v.visited + 1 })
    visit (suc levels) value field v =
        let deeper =
          visit_value (visit levels) value field (record v { visited = v.visited + 1 }) in
        if ltb max_nodes (v.visited + 1)
        then settle (some (block Kind.source field boundary_structure_limit))
            (record v { visited = v.visited + 1 })
        else deeper

    unfoldable pub assert_execution_boundary : Value → Result Refusal (Unit {0}) × List AuditEntry
    assert_execution_boundary payload =
        let (r, v) =
          visit (max_depth + 1) payload (text "$")
            (record { seen = []; visited = 0; audit = [] }) in
        (r, v.audit)
