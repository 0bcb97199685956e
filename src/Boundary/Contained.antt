-- ===== src/Boundary/Contained.antt =====
-- Which paths `containedBy` and `assertPathAllowed` of boundary.ts let through.
use dymaxion.Prelude.{
  ◌≡◌, ◌↔◌, ◌≢◌, refl, sym, ◌∙◌, Text, text, text_eq, text_eq_refl, text_eq_iff, Option, some, bind,
  Bool, true, false, if◌then◌else◌, List, [], ◌∷◌, ◌++◌, any, ok, inl, inr, Bool-cases,
  Option-cases, arith, Among, any-Among, bind-eq-some,
}
use mathlib.Core.Path.{subst}
use dymaxion.Boundary.Url.{AuditEntry}
use dymaxion.Boundary.Paths.{
  FilePath, FileSystem, PathConfig, canonical_boundary_path, relative, contained_by, some_of,
  root_from_pattern, roots_of, is_path_denied, is_path_allowed, assert_path_allowed,
}

-- The path is the root with names below it, or the root itself.
abbrev pub IsBelow : FilePath → FilePath → Type 0
IsBelow path root = (names : FilePath) × (root ++ names ≡ path)

contained_same :
    (p r : Text) (path root : FilePath)
    → text_eq r p ≡ true
    → contained_by path root ≡ contained_by (p ∷ path) (r ∷ root)
unfolding contained_by relative
contained_same p r path root same = rw (same, relative)

contained_other :
    (p r : Text) (path root : FilePath)
    → text_eq r p ≡ false
    → contained_by (p ∷ path) (r ∷ root) ≢ true
unfolding contained_by relative text_eq
contained_other p r path root other h = ground arith

contained_by-IsBelow : (path root : FilePath) → contained_by path root ≡ true → IsBelow path root
unfolding contained_by relative text_eq
contained_by-IsBelow path [] h = (path, refl)
contained_by-IsBelow [] (r ∷ root) h = cc
contained_by-IsBelow (p ∷ path) (r ∷ root) h = elim (Bool-cases (text_eq r p)) [
  | inl same ↦
      let (names, e) = contained_by-IsBelow path root (contained_same p r path root same ∙ h) in
      (names, cc (e, (text_eq_iff r p).0 same))
  | inr other ↦ absurd (contained_other p r path root other h)
]

abbrev pub IsNormal : FilePath → Type 0
IsNormal path = any (λ name. text_eq name (text "..")) path ≡ false

IsBelow-contained :
    (names root : FilePath) → IsNormal (root ++ names) → contained_by (root ++ names) root ≡ true
unfolding contained_by relative
IsBelow-contained [] [] n = refl
IsBelow-contained (name ∷ names) [] n = ground arith
IsBelow-contained names (r ∷ root) n =
    sym (contained_same r r (root ++ names) root (text_eq_refl r))
    ∙ IsBelow-contained names root (ground arith)

-- A path of names, none of which is `..`, is contained exactly in the paths that it begins with.
pub contained_by_iff :
    (path root : FilePath) → IsNormal path → (contained_by path root ≡ true) ↔ IsBelow path root
contained_by_iff path root n = (
  contained_by-IsBelow path root,
  λ (names, e).
      subst (λ (p : FilePath). contained_by p root ≡ true) e
        (IsBelow-contained names root (subst IsNormal (sym e) n)),
)

-- Names are resolved: what is canonical is so once more, and no name in it is `..`.
pub record IsResolving (fs : FileSystem) : Type 0 where
  pub settled :
      (input : Text) (path : FilePath)
      → canonical_boundary_path fs input ≡ some path
      → canonical_boundary_path fs (fs.render path) ≡ some path
  pub normal :
      (input : Text) (path : FilePath)
      → canonical_boundary_path fs input ≡ some path
      → IsNormal path

module _ (fs : FileSystem) (config : PathConfig) where
  -- A path below an allowed root, and below none that is denied
  pub record IsPermitted (path : FilePath) : Type 0 where
    pub roots : List FilePath
    pub of_config : roots_of fs config.sources ≡ some roots
    pub root : FilePath
    pub among : Among root roots
    pub below : IsBelow path root
    pub undenied :
        (pattern : Text) (denied : FilePath)
        → Among pattern config.denied_paths
        → root_from_pattern fs pattern ≡ some denied
        → ¬ IsBelow path denied

  some_of-false :
      (test : Text → Option Bool) (ts : List Text) (t : Text)
      → some_of test ts ≡ some false
      → Among t ts
      → test t ≡ some false
  unfolding some_of
  some_of-false test [] t h a = absurd a
  some_of-false test (u ∷ ts) t h (inl e) =
      subst (λ (s : Text). test s ≡ some false) e (ground arith)
  some_of-false test (u ∷ ts) t h (inr a) = some_of-false test ts t (ground arith) a

  -- What the two checks found where they let a path through
  is_path_allowed-parts :
      (input : Text) (path : FilePath)
      → canonical_boundary_path fs input ≡ some path
      → is_path_allowed fs config input ≡ some true
      → (roots : List FilePath) × (is_path_denied fs config (fs.render path) ≡ some false)
        × (roots_of fs config.sources ≡ some roots)
        × (any (λ root. contained_by path root) roots ≡ true)
  unfolding is_path_allowed
  is_path_allowed-parts input path c h =
      let (denied, d, k) =
        bind-eq-some (is_path_denied fs config (fs.render path))
          (λ denied.
            if denied
            then some false
            else bind (roots_of fs config.sources)
                (λ roots. some (any (λ root. contained_by path root) roots)))
          (rw (is_path_allowed, c) at h) in
      elim (Bool-cases denied) [
        | inl e ↦ absurd (ground arith)
        | inr e ↦
            let (roots, of_config, found) =
              bind-eq-some (roots_of fs config.sources)
                (λ roots. some (any (λ root. contained_by path root) roots)) (rw e at k) in
            (roots, cc, of_config, ground arith)
      ]

  is_path_denied-none :
      (input pattern : Text) (path denied : FilePath)
      → canonical_boundary_path fs input ≡ some path
      → is_path_denied fs config input ≡ some false
      → Among pattern config.denied_paths
      → root_from_pattern fs pattern ≡ some denied
      → contained_by path denied ≡ false
  unfolding is_path_denied
  is_path_denied-none input pattern path denied c h a r =
      let passed =
        some_of-false
          (λ pattern. bind (root_from_pattern fs pattern) (λ root. some (contained_by path root)))
          config.denied_paths pattern (rw c at h) a in
      ground arith

  module _ (resolving : IsResolving fs) where
    is_path_allowed-IsPermitted :
        (input : Text) (path : FilePath)
        → canonical_boundary_path fs input ≡ some path
        → is_path_allowed fs config input ≡ some true
        → IsPermitted path
    is_path_allowed-IsPermitted input path c h =
        let (roots, undenied, of_config, found) = is_path_allowed-parts input path c h in
        let (root, among, contained) = any-Among (λ root. contained_by path root) roots found in
        record {
          roots = roots;
          of_config = of_config;
          root = root;
          among = among;
          below = contained_by-IsBelow path root contained;
          undenied = λ pattern denied a r b. ground (
            arith,
            is_path_denied-none (fs.render path) pattern path denied
                (resolving.settled input path c) undenied a r,
            (contained_by_iff path denied (resolving.normal input path c)).1 b,
          );
        }

    -- A path that passes `assertPathAllowed`
    pub assert_path_allowed-IsPermitted :
        (input : Text) {audited : List AuditEntry}
        → assert_path_allowed fs config input ≡ some (ok tt, audited)
        → (path : FilePath) × (canonical_boundary_path fs input ≡ some path) × IsPermitted path
    unfolding assert_path_allowed
    assert_path_allowed-IsPermitted input h =
        elim (Option-cases (canonical_boundary_path fs input)) [
          | inl bad ↦ absurd (ground arith)
          | inr (path, c) ↦ (
            path,
            c,
            is_path_allowed-IsPermitted (fs.render path) path (resolving.settled input path c)
                (ground arith),
          )
        ]
