-- ===== src/Boundary/Paths.antt =====
-- The filesystem half of boundary.ts: `nearestRealPath`, `rootFromPattern`,
-- `allowedFilesystemRoots`, `containedBy`, `isPathDenied`, `isPathAllowed` and `assertPathAllowed`.
-- An absolute path is the list of its names below the root; node's `path` and `fs` are arguments,
-- `relative` is the POSIX one, written out.
use dymaxion.Prelude.{
  Text, text, text_eq, starts_with, Option, none, some, bind, Bool, true, false, not, ◌||◌,
  if◌then◌else◌, ◌==◌, List, [], ◌∷◌, ◌++◌, any, map, ok,
}
use dymaxion.Boundary.Url.{Checked, Kind, block, malformed_path, path_not_allowlisted}
use mathlib.Core.List.{reverse}

abbrev pub FilePath : Type 0
FilePath = List Text

-- What node is asked for. A `none` is an exception.
pub record FileSystem : Type 0 where
  pub resolve : Text → FilePath
  pub render : FilePath → Text  -- the text of an absolute path
  pub exists : FilePath → Bool
  pub realpath : FilePath → Option FilePath
  pub file_url_to_path : Text → Option Text

-- An entry of `allowed_data_sources`, as far as paths go
pub record DataSource : Type 0 where
  pub path_pattern : Option Text
  pub env_root : Option Text  -- `process.env[root_env]`, where there is such a `root_env`

pub record PathConfig : Type 0 where
  pub sources : List DataSource
  pub denied_paths : List Text

module _ (fs : FileSystem) where
  -- The loop of `nearestRealPath` over a path from its last name up, with the names taken off
  unfoldable pub nearest : FilePath → FilePath → FilePath → Option FilePath
  nearest absolute [] missing =
      if fs.exists [] then bind (fs.realpath []) (λ real. some (real ++ missing)) else some absolute
  nearest absolute (name ∷ up) missing =
      let parent = nearest absolute up (name ∷ missing) in
      let cursor = reverse (name ∷ up) in
      if fs.exists cursor
      then bind (fs.realpath cursor) (λ real. some (real ++ missing))
      else parent

  unfoldable pub nearest_real_path : Text → Option FilePath
  nearest_real_path input =
      let absolute = fs.resolve input in nearest absolute (reverse absolute) []

  -- `canonicalBoundaryPath`
  unfoldable pub canonical_boundary_path : Text → Option FilePath
  canonical_boundary_path input =
      if starts_with input (text "file:")
      then bind (fs.file_url_to_path input) nearest_real_path
      else nearest_real_path input

-- `pattern.slice(0, wildcard)`, or all of it
unfoldable pub before_star : Text → Text
before_star [] = []
before_star (c ∷ s) = if c == b'*' then [] else c ∷ before_star s

-- `.replace(/[\\/]$/, '')`
unfoldable pub without_slash : Text → Text
without_slash [] = []
without_slash (c ∷ []) = if (c == 0x5c) || (c == b'/') then [] else c ∷ []
without_slash (c ∷ d ∷ s) = c ∷ without_slash (d ∷ s)

abbrev pub or_root : Text → Text
or_root [] = text "/"
or_root (c ∷ s) = c ∷ s

-- `relative(root, path)`: up out of what is left of the root, then down; by names
unfoldable pub relative : FilePath → FilePath → FilePath
relative [] path = path
relative (r ∷ root) [] = map (λ name. text "..") (r ∷ root)
relative (r ∷ root) (p ∷ path) = elim (text_eq r p) [
  | true ↦ relative root path
  | false ↦ map (λ name. text "..") (r ∷ root) ++ p ∷ path
]

-- The relative path is empty, or its first name is not the one of the parent folder. It is never
-- absolute, since POSIX has one root.
abbrev pub stays_below : FilePath → Bool
stays_below [] = true
stays_below (name ∷ rel) = not (text_eq name (text ".."))

unfoldable pub contained_by : FilePath → FilePath → Bool
contained_by path root = stays_below (relative root path)

-- `values.some(test)` where the test may throw
unfoldable pub some_of : (Text → Option Bool) → List Text → Option Bool
some_of test [] = some false
some_of test (t ∷ ts) =
    let rest = some_of test ts in bind (test t) (λ found. if found then some true else rest)

module _ (fs : FileSystem) where
  unfoldable pub root_from_pattern : Text → Option FilePath
  root_from_pattern pattern = nearest_real_path fs (or_root (without_slash (before_star pattern)))

  -- The root of a pattern, and the one of the environment, where they are there and not empty
  unfoldable pub configured_root : Option Text → Option (List FilePath)
  configured_root none = some []
  configured_root (some []) = some []
  configured_root (some (c ∷ s)) = bind (root_from_pattern (c ∷ s)) (λ root. some (root ∷ []))

  unfoldable pub environment_root : Option Text → Option (List FilePath)
  environment_root none = some []
  environment_root (some []) = some []
  environment_root (some (c ∷ s)) = bind (nearest_real_path fs (c ∷ s)) (λ root. some (root ∷ []))

  -- `flatMap`; that the source drops repetitions makes no difference to the one use below.
  unfoldable pub roots_of : List DataSource → Option (List FilePath)
  roots_of [] = some []
  roots_of (s ∷ sources) = bind (configured_root s.path_pattern) λ configured.
      bind (environment_root s.env_root)
        λ environment. bind (roots_of sources) λ rest. some ((configured ++ environment) ++ rest)

module _ (fs : FileSystem) (config : PathConfig) where
  abbrev pub allowed_filesystem_roots : Option (List FilePath)
  allowed_filesystem_roots = roots_of fs config.sources

  unfoldable pub is_path_denied : Text → Option Bool
  is_path_denied input = bind (canonical_boundary_path fs input) λ path.
      some_of
        (λ pattern. bind (root_from_pattern fs pattern) (λ root. some (contained_by path root)))
        config.denied_paths

  unfoldable pub is_path_allowed : Text → Option Bool
  is_path_allowed input = bind (canonical_boundary_path fs input) λ path.
      bind (is_path_denied (fs.render path)) λ denied.
        if denied
        then some false
        else bind allowed_filesystem_roots
            (λ roots. some (any (λ root. contained_by path root) roots))

  -- An exception of the second check is none of `block`, and nothing is audited then.
  unfoldable pub assert_path_allowed : Text → Option Checked
  assert_path_allowed input = elim (canonical_boundary_path fs input) [
    | none ↦ some (block Kind.path input malformed_path)
    | some p ↦ bind (is_path_allowed (fs.render p)) (λ allowed.
        some (if allowed then (ok tt, []) else block Kind.path (fs.render p) path_not_allowlisted))
  ]
