-- ===== src/Zip/Prepare.antt =====
-- What the checks of `createDeterministicZip` in deterministic-zip.ts let through.
use dymaxion.Prelude.{
  ℕ, ◌+◌, ◌≤◌, ◌≡◌, refl, Text, text_eq, ltb, false, List, [], ◌∷◌, ◌++◌, ok, length, any, arith,
  >>=-eq-ok, throw_if-eq-ok,
}
use dymaxion.Zip.Bytes.{
  Bytes, duplicate_name, entry_too_large, input_too_large, output_too_large, zip32_bounds,
}
use dymaxion.Zip.Crc.{crc32}
use dymaxion.Zip.Names.{validate_entry_name}
use dymaxion.Zip.Headers.{PreparedEntry}
use dymaxion.Zip.Create.{
  EntryInput, Progress, start, prepare_entry, prepare, assert_uint32, max_entry_bytes,
  max_input_bytes, max_output_bytes,
}
use dymaxion.Zip.Layout.{IsMeasured, local_size, central_size}

-- What holds of the loop's variables.
pub record IsReady (p : Progress) : Type 0 where
  pub measured : IsMeasured p.prepared
  pub sized : p.output_bytes ≡ 22 + local_size p.prepared + central_size p.prepared
  pub bounded : p.output_bytes ≤ max_output_bytes

local_size-append :
    (es : List PreparedEntry) (e : PreparedEntry)
    → local_size (es ++ e ∷ []) ≡ local_size es + (30 + length e.name_bytes + e.bytes)
local_size-append [] e = omega arith
local_size-append (f ∷ es) e = omega (arith, local_size-append es e)

central_size-append :
    (es : List PreparedEntry) (e : PreparedEntry)
    → central_size (es ++ e ∷ []) ≡ central_size es + (46 + length e.name_bytes)
central_size-append [] e = omega arith
central_size-append (f ∷ es) e = omega (arith, central_size-append es e)

IsMeasured-append :
    (es : List PreparedEntry) (e : PreparedEntry)
    → IsMeasured es
    → e.bytes ≡ length e.payload
    → IsMeasured (es ++ e ∷ [])
IsMeasured-append [] e h m = (m, tt)
IsMeasured-append (f ∷ es) e h m = (h.0, IsMeasured-append es e h.1 m)

-- The bytes that an entry adds to the archive: its local record and its central one.
abbrev pub entry_size : Bytes → EntryInput → ℕ
entry_size bs e = 30 + length bs + length e.bytes + (46 + length bs)

module _ (sha256 : Bytes → Text) where
  abbrev pub prepared_entry : EntryInput → Bytes → PreparedEntry
  prepared_entry e bs = record {
    name = e.name;
    sha256 = sha256 e.bytes;
    bytes = length e.bytes;
    crc32 = crc32 e.bytes;
    payload = e.bytes;
    name_bytes = bs;
    local_header_offset = 0;
  }

  -- The loop's variables after an entry that passed every check.
  abbrev pub advance : EntryInput → Bytes → Progress → Progress
  advance e bs p = record {
    names = e.name ∷ p.names;
    total_input_bytes = p.total_input_bytes + length e.bytes;
    output_bytes = p.output_bytes + entry_size bs e;
    prepared = p.prepared ++ prepared_entry e bs ∷ [];
  }

  -- What an entry that was prepared has passed.
  pub record IsPassed (e : EntryInput) (p q : Progress) : Type 0 where
    pub name_bytes : Bytes
    pub valid : validate_entry_name e.name ≡ ok name_bytes
    pub unseen : any (text_eq e.name) p.names ≡ false
    pub small : p.output_bytes + entry_size name_bytes e ≤ max_output_bytes
    pub advanced : advance e name_bytes p ≡ q

  pub prepare_entry-IsPassed :
      (e : EntryInput) (p q : Progress) → prepare_entry sha256 e p ≡ ok q → IsPassed e p q
  unfolding prepare_entry assert_uint32
  prepare_entry-IsPassed e p q made =
      let (bs, good, m₁) = >>=-eq-ok (validate_entry_name e.name) _ made in
      let out = p.output_bytes + entry_size bs e in
      let (fresh, m₂) = throw_if-eq-ok (any (text_eq e.name) p.names) duplicate_name _ m₁ in
      let (_, m₃) = throw_if-eq-ok (ltb max_entry_bytes (length e.bytes)) entry_too_large _ m₂ in
      let (_, m₄) =
        throw_if-eq-ok (ltb max_input_bytes (p.total_input_bytes + length e.bytes)) input_too_large
          _ m₃ in
      let (_, m₅) =
        throw_if-eq-ok (ltb 4294967295 (30 + length bs + length e.bytes)) zip32_bounds _ m₄ in
      let (_, m₆) = throw_if-eq-ok (ltb 4294967295 (46 + length bs)) zip32_bounds _ m₅ in
      let (_, m₇) = throw_if-eq-ok (ltb 4294967295 out) zip32_bounds _ m₆ in
      let (small, m₈) = throw_if-eq-ok (ltb max_output_bytes out) output_too_large _ m₇ in
      record { name_bytes = bs; valid = good; unseen = fresh; small = ground arith; advanced = cc }

  prepare_entry-IsReady :
      (e : EntryInput) (p q : Progress) → IsReady p → prepare_entry sha256 e p ≡ ok q → IsReady q
  prepare_entry-IsReady e p q h made =
      let passed = prepare_entry-IsPassed e p q made in
      let new = prepared_entry e passed.name_bytes in
      rw (← passed.advanced) (record {
        measured = IsMeasured-append p.prepared new h.measured refl;
        sized =
            omega (
              arith,
              h.sized,
              local_size-append p.prepared new,
              central_size-append p.prepared new,
            );
        bounded = passed.small;
      })

  pub prepare-IsReady :
      (es : List EntryInput) (p q : Progress) → IsReady p → prepare sha256 es p ≡ ok q → IsReady q
  unfolding prepare
  prepare-IsReady [] p q h made = let same : p ≡ q = cc in rw (← same) h
  prepare-IsReady (e ∷ es) p q h made =
      let (p', first, rest) = >>=-eq-ok (prepare_entry sha256 e p) _ made in
      prepare-IsReady es p' q (prepare_entry-IsReady e p p' h first) rest

pub start-IsReady : IsReady start
start-IsReady = record { measured = tt; sized = refl; bounded = omega arith }
