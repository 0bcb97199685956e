-- ===== src/Zip/Layout.antt =====
-- The archive of deterministic-zip.ts as one list of bytes, and that `assemble` builds it.
use dymaxion.Prelude.{
  ℕ, ◌+◌, ◌≤◌, ◌≡◌, refl, sym, ◌∙◌, List, [], ◌∷◌, ◌++◌, ok, length, length-append, arith,
}
use dymaxion.Zip.Bytes.{Bytes}
use dymaxion.Zip.Headers.{
  PreparedEntry, local_fields, central_fields, eocd_fields, write_local_header,
  write_central_header,
}
use dymaxion.Zip.Create.{assert_uint32}
use dymaxion.Zip.Splice.{concat_fields, IsContiguous, write_fields-splice}

unfoldable pub local_bytes : PreparedEntry → Bytes
local_bytes e = concat_fields (local_fields e)

unfoldable pub central_bytes : PreparedEntry → Bytes
central_bytes e = concat_fields (central_fields e)

unfoldable pub eocd_bytes : ℕ → ℕ → ℕ → Bytes
eocd_bytes n size offset = concat_fields (eocd_fields n size offset)

-- An entry records the length of its own bytes.
abbrev pub IsMeasured : List PreparedEntry → Type 0
IsMeasured [] = Unit {0}
IsMeasured (e ∷ es) = (e.bytes ≡ length e.payload) × IsMeasured es

-- The entries, each at the offset where its local header goes.
abbrev pub place : ℕ → List PreparedEntry → List PreparedEntry
place offset [] = []
place offset (e ∷ es) =
    record e { local_header_offset = offset }
    ∷ place (offset + 30 + length e.name_bytes + e.bytes) es

abbrev pub locals_bytes : List PreparedEntry → Bytes
locals_bytes [] = []
locals_bytes (e ∷ es) = local_bytes e ++ locals_bytes es

abbrev pub centrals_bytes : List PreparedEntry → Bytes
centrals_bytes [] = []
centrals_bytes (e ∷ es) = central_bytes e ++ centrals_bytes es

-- How many bytes the local and the central records take.
abbrev pub local_size : List PreparedEntry → ℕ
local_size [] = 0
local_size (e ∷ es) = 30 + length e.name_bytes + e.bytes + local_size es

abbrev pub central_size : List PreparedEntry → ℕ
central_size [] = 0
central_size (e ∷ es) = 46 + length e.name_bytes + central_size es

pub length-local_bytes :
    (e : PreparedEntry)
    → e.bytes ≡ length e.payload
    → length (local_bytes e) ≡ 30 + length e.name_bytes + e.bytes
unfolding local_bytes local_fields
length-local_bytes e h =
    omega (arith, length-append e.name_bytes (e.payload ++ []), length-append e.payload [])

pub length-central_bytes : (e : PreparedEntry) → length (central_bytes e) ≡ 46 + length e.name_bytes
unfolding central_bytes central_fields
length-central_bytes e = omega (arith, length-append e.name_bytes [])

pub length-eocd_bytes : (n size offset : ℕ) → length (eocd_bytes n size offset) ≡ 22
unfolding eocd_bytes eocd_fields
length-eocd_bytes n size offset = refl

local_fields-IsContiguous : (e : PreparedEntry) → IsContiguous 0 (local_fields e)
unfolding local_fields
local_fields-IsContiguous e = omega arith

central_fields-IsContiguous : (e : PreparedEntry) → IsContiguous 0 (central_fields e)
unfolding central_fields
central_fields-IsContiguous e = omega arith

pub eocd_fields-IsContiguous : (n size offset : ℕ) → IsContiguous 0 (eocd_fields n size offset)
unfolding eocd_fields
eocd_fields-IsContiguous n size offset = omega arith

pub write_local_header_lem :
    (e : PreparedEntry) (pre mid post : Bytes) (offset : ℕ)
    → e.bytes ≡ length e.payload
    → length pre ≡ offset
    → length mid ≡ 30 + length e.name_bytes + e.bytes
    → write_local_header (pre ++ (mid ++ post)) offset e
      ≡ ok (pre ++ (local_bytes e ++ post), offset + 30 + length e.name_bytes + e.bytes)
unfolding write_local_header local_bytes
write_local_header_lem e pre mid post offset h at same = rw (
    write_fields-splice (local_fields e) 0 pre mid post offset (local_fields-IsContiguous e)
      (omega arith) (same ∙ sym (unfold local_bytes in length-local_bytes e h)))

pub write_central_header_lem :
    (e : PreparedEntry) (pre mid post : Bytes) (offset : ℕ)
    → length pre ≡ offset
    → length mid ≡ 46 + length e.name_bytes
    → write_central_header (pre ++ (mid ++ post)) offset e
      ≡ ok (pre ++ (central_bytes e ++ post), offset + 46 + length e.name_bytes)
unfolding write_central_header central_bytes
write_central_header_lem e pre mid post offset at same = rw (
    write_fields-splice (central_fields e) 0 pre mid post offset (central_fields-IsContiguous e)
      (omega arith) (same ∙ sym (unfold central_bytes in length-central_bytes e)))

pub assert_uint32_ok : (v : ℕ) → v ≤ 4294967295 → assert_uint32 v ≡ ok tt
unfolding assert_uint32
assert_uint32_ok v h = ground arith
