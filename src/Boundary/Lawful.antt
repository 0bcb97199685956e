-- ===== src/Boundary/Lawful.antt =====
-- What a payload holds that `assertExecutionBoundary` of boundary.ts lets through.
use dymaxion.Prelude.{
  ℕ, zero, suc, ◌+◌, ◌<◌, ◌≤◌, ◌≡◌, ◌≢◌, refl, Text, text, starts_with, Option, none, some, true,
  false, ◌||◌, List, [], ◌∷◌, ok, err, inl, inr, ◌⊎◌, arith, Among, Bool-cases,
}
use mathlib.Core.Path.{subst, subst₂}
use dymaxion.Boundary.Url.{BoundaryConfig, Network, Url, Checked, AuditEntry, assert_url_allowed}
use dymaxion.Boundary.Allowed.{IsReachable, assert_url_allowed-IsReachable}
use dymaxion.Boundary.Paths.{
  FilePath, FileSystem, PathConfig, canonical_boundary_path, assert_path_allowed,
}
use dymaxion.Boundary.Contained.{IsPermitted, IsResolving, assert_path_allowed-IsPermitted}
use dymaxion.Boundary.Payload.{
  Value, string, object, scalar, Node, array, entries, Visit, Visiting, settle, check_string,
  visit_items, visit_entries, visit_node, visit_object, visit_value, visit,
  assert_execution_boundary, has_uri_scheme, path_like, is_url_field, max_depth,
}

module _ (heap : ℕ → Node) where
  -- The value holds another one so many levels down, which stands under that field there.
  pub data Holds (inner : Value) (name : Text) : Value → Text → ℕ → Type 0 where
    itself :
        {value : Value} {field : Text}
        → value ≡ inner
        → field ≡ name
        → Holds inner name value field 0
    in_array :
        {i levels : ℕ} {field : Text} {items : List Value} (item : Value)
        → heap i ≡ array items
        → Among item items
        → Holds inner name item field levels
        → Holds inner name (object i) field (suc levels)
    in_object :
        {i levels : ℕ} {field : Text} {parts : List (Text × Value)} (key : Text) (item : Value)
        → heap i ≡ entries parts
        → Among (key, item) parts
        → Holds inner name item key levels
        → Holds inner name (object i) field (suc levels)

module _ (visiting : Value → Text → Visiting) where
  -- The call of the visit that came to a part, and returned
  abbrev Returns : Value → Text → Type 0
  Returns item field = (v : Visit) × ((visiting item field v).0 ≡ ok tt)

  visit_items-Among :
      (items : List Value) (item : Value) (field : Text) (v : Visit)
      → (visit_items visiting items field v).0 ≡ ok tt
      → Among item items
      → Returns item field
  unfolding visit_items
  visit_items-Among [] item field v h a = absurd a
  visit_items-Among (i ∷ items) item field v h (inl e) =
      subst (λ (j : Value). Returns j field) e (v, ground arith)
  visit_items-Among (i ∷ items) item field v h (inr a) =
      visit_items-Among items item field (visiting i field v).1 (ground arith) a

  visit_entries-Among :
      (parts : List (Text × Value)) (key : Text) (item : Value) (v : Visit)
      → (visit_entries visiting parts v).0 ≡ ok tt
      → Among (key, item) parts
      → Returns item key
  unfolding visit_entries
  visit_entries-Among [] key item v h a = absurd a
  visit_entries-Among ((k, i) ∷ parts) key item v h (inl e) =
      subst (λ (p : Text × Value). Returns p.1 p.0) e (v, ground arith)
  visit_entries-Among ((k, i) ∷ parts) key item v h (inr a) =
      visit_entries-Among parts key item (visiting i k v).1 (ground arith) a

  -- An object that was let through was not open yet, and its parts were visited.
  visit_object-parts :
      (heap : ℕ → Node) (i : ℕ) (field : Text) (v : Visit)
      → (visit_object heap visiting i field v).0 ≡ ok tt
      → (w : Visit) × ((visit_node visiting (heap i) field w).0 ≡ ok tt)
  unfolding visit_object settle
  visit_object-parts heap i field v h = (record v { seen = i ∷ v.seen }, ground arith)

module _ (config : BoundaryConfig) (network : Network) (paths : PathConfig) (fs : FileSystem) where
  -- A text that may stand in a payload: a URL of the web that may be reached, a path that is
  -- permitted, or neither a URL nor a path, under a field that is not for URLs.
  abbrev pub IsLawfulText : Text → Text → Type 0
  IsLawfulText s field =
      (((starts_with s (text "http://") || starts_with s (text "https://")) ≡ true)
        × ((url : Url) × (network.parse_url s ≡ some url) × IsReachable config network url))
      ⊎ ((path : FilePath) × (canonical_boundary_path fs s ≡ some path) × IsPermitted fs paths path)
      ⊎ ((has_uri_scheme s ≡ false) × (path_like s field ≡ false) × (is_url_field field ≡ false))

  abbrev pub IsLawful : Value → Text → Type 0
  IsLawful (string s) field = IsLawfulText s field
  IsLawful _ field = Unit {0}

  module _ (resolving : IsResolving fs) where
    settled_ok :
        (checked : Option Checked) (v : Visit)
        → (settle checked v).0 ≡ ok tt
        → (audited : List AuditEntry) × (checked ≡ some (ok tt, audited))
    unfolding settle
    settled_ok none v h = cc
    settled_ok (some (ok tt, audited)) v h = (audited, refl)
    settled_ok (some (err e, audited)) v h = cc

    checked_path :
        (s field : Text) (audited : List AuditEntry)
        → assert_path_allowed fs paths s ≡ some (ok tt, audited)
        → IsLawfulText s field
    checked_path s field audited h =
        inr (inl (assert_path_allowed-IsPermitted fs paths resolving s h))

    checked_url :
        (s field : Text) (audited : List AuditEntry)
        → (starts_with s (text "http://") || starts_with s (text "https://")) ≡ true
        → some (assert_url_allowed config network s) ≡ some (ok tt, audited)
        → IsLawfulText s field
    checked_url s field audited web h =
        inl (web, assert_url_allowed-IsReachable config network s (ground arith))

    check_string-IsLawful :
        (s field : Text) (audited : List AuditEntry)
        → check_string config network paths fs s field ≡ some (ok tt, audited)
        → IsLawfulText s field
    unfolding check_string
    check_string-IsLawful s field audited h = elim (Bool-cases (starts_with s (text "file:"))) [
      | inl file ↦ checked_path s field audited (ground arith)
      | inr other ↦ elim (Bool-cases (has_uri_scheme s)) [
        | inl scheme ↦
            elim (Bool-cases (starts_with s (text "http://") || starts_with s (text "https://"))) [
              | inl web ↦ checked_url s field audited web (ground arith)
              | inr strange ↦ absurd (ground arith)
            ]
        | inr plain ↦ elim (Bool-cases (path_like s field)) [
          | inl file ↦ checked_path s field audited (ground arith)
          | inr word ↦ elim (Bool-cases (is_url_field field)) [
            | inl bad ↦ absurd (ground arith)
            | inr good ↦ inr (inr (plain, word, good))
          ]
        ]
      ]
    ]

    module _ (heap : ℕ → Node) where
      abbrev visiting : ℕ → Value → Text → Visiting
      visiting levels = visit config network paths fs heap levels

      -- What is let through with levels to go
      visit-step :
          (levels : ℕ) (value : Value) (field : Text) (v : Visit)
          → (visiting (suc levels) value field v).0 ≡ ok tt
          → (visit_value config network paths fs heap
              (visiting levels)
              value
              field
              (record v { visited = v.visited + 1 })).0
            ≡ ok tt
      unfolding visit settle
      visit-step levels value field v h = ground arith

      visit-zero :
          (value : Value) (field : Text) (v : Visit) → (visiting zero value field v).0 ≢ ok tt
      unfolding visit settle
      visit-zero value field v h = ground arith

      -- The value itself
      own-IsLawful :
          (deeper : Value → Text → Visiting) (value : Value) (field : Text) (v : Visit)
          → (visit_value config network paths fs heap deeper value field v).0 ≡ ok tt
          → IsLawful value field
      own-IsLawful deeper (string s) field v h =
          let (audited, checked) = settled_ok _ v h in check_string-IsLawful s field audited checked
      own-IsLawful deeper (object i) field v h = tt
      own-IsLawful deeper scalar field v h = tt

      visit-IsLawful :
          (levels : ℕ) {value inner : Value} {field name : Text} {depth : ℕ} (v : Visit)
          → (visiting levels value field v).0 ≡ ok tt
          → Holds heap inner name value field depth
          → (depth < levels) × IsLawful inner name
      visit-IsLawful zero v h holds = absurd (visit-zero _ _ v h)
      visit-IsLawful (suc levels) {value} {field = field} v h (itself e f) = (
        omega arith,
        subst₂ IsLawful e f
            (own-IsLawful (visiting levels) value field _ (visit-step levels value field v h)),
      )
      visit-IsLawful (suc levels) {field = field} v h
            (in_array {i = i} {items = items} item at a holds) =
          let (w, parts) =
            visit_object-parts (visiting levels) heap i field _ (visit-step levels _ field v h) in
          let (x, returned) =
            visit_items-Among (visiting levels) items item field w (rw at at parts) a in
          let (depth, lawful) = visit-IsLawful levels x returned holds in (omega arith, lawful)
      visit-IsLawful (suc levels) {field = field} v h
            (in_object {i = i} {parts = ps} key item at a holds) =
          let (w, parts) =
            visit_object-parts (visiting levels) heap i field _ (visit-step levels _ field v h) in
          let (x, returned) =
            visit_entries-Among (visiting levels) ps key item w (rw at at parts) a in
          let (depth, lawful) = visit-IsLawful levels x returned holds in (omega arith, lawful)

      -- In a payload that `assertExecutionBoundary` lets through nothing lies more than `MAX_DEPTH`
      -- levels down, and every text, at whatever depth and under whatever field, is a web URL that
      -- may be reached, a path below an allowed root and no denied one, or neither a URL nor a path
      -- and under a field that is not for URLs. Of node it is assumed that a canonical path is so
      -- once more and has no name `..`.
      pub assert_execution_boundary-IsLawful :
          (payload : Value) {inner : Value} {name : Text} {depth : ℕ}
          → (assert_execution_boundary config network paths fs heap payload).0 ≡ ok tt
          → Holds heap inner name payload (text "$") depth
          → (depth ≤ max_depth) × IsLawful inner name
      unfolding assert_execution_boundary
      assert_execution_boundary-IsLawful payload h holds =
          let (below, lawful) = visit-IsLawful 33 _ h holds in (omega arith, lawful)
