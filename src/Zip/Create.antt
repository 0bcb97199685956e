-- ===== src/Zip/Create.antt =====
-- `createDeterministicZip`: the checks on the entries, and the assembly of the archive.
use dymaxion.Prelude.{
  ℕ, zero, suc, ◌+◌, ◌-◌, Text, text_eq, ltb, ◌==◌, if◌then◌else◌, not, ◌||◌, List, [], ◌∷◌, ◌++◌,
  Result, ok, err, ◌>>=◌, ◌>>◌, throw_if, length, any,
}
use dymaxion.Zip.Bytes.{
  Bytes, ZipError, bad_count, duplicate_name, entry_too_large, input_too_large, output_too_large,
  zip32_bounds, assembly_failed,
}
use dymaxion.Zip.Crc.{crc32}
use dymaxion.Zip.Names.{validate_entry_name}
use dymaxion.Zip.Headers.{PreparedEntry, write_local_header, write_central_header, write_eocd}

pub record EntryInput : Type 0 where
  pub name : Text
  pub bytes : Bytes

pub record EntryMetadata : Type 0 where
  pub name : Text
  pub sha256 : Text
  pub bytes : ℕ
  pub crc32 : ℕ

pub record ZipResult : Type 0 where
  pub bytes : Bytes
  pub entries : List EntryMetadata
  pub sha256 : Text

abbrev pub max_entries : ℕ
max_entries = 4

abbrev pub max_entry_bytes : ℕ
max_entry_bytes = 2097152

abbrev pub max_input_bytes : ℕ
max_input_bytes = 4194304

abbrev pub max_output_bytes : ℕ
max_output_bytes = 5242880

-- `assertUint32`, of a number that is no negative
unfoldable pub assert_uint32 : ℕ → Result ZipError (Unit {0})
assert_uint32 v = throw_if (ltb 4294967295 v) zip32_bounds

-- The loop's variables: `names`, `totalInputBytes`, `outputBytes` and `prepared`
pub record Progress : Type 0 where
  pub names : List Text
  pub total_input_bytes : ℕ
  pub output_bytes : ℕ
  pub prepared : List PreparedEntry

abbrev pub start : Progress
start = record { names = []; total_input_bytes = 0; output_bytes = 22; prepared = [] }

-- `new Uint8Array(size)`
unfoldable pub zeros : ℕ → Bytes
zeros zero = []
zeros (suc n) = 0 ∷ zeros n

module _ (sha256 : Bytes → Text) where
  -- The body of the first loop
  unfoldable pub prepare_entry : EntryInput → Progress → Result ZipError Progress
  prepare_entry e p = do
    name_bytes ← validate_entry_name e.name
    throw_if (any (text_eq e.name) p.names) duplicate_name
    throw_if (ltb max_entry_bytes (length e.bytes)) entry_too_large
    let total = p.total_input_bytes + length e.bytes
    throw_if (ltb max_input_bytes total) input_too_large
    let local = 30 + length name_bytes + length e.bytes
    let central = 46 + length name_bytes
    assert_uint32 local
    assert_uint32 central
    let out = p.output_bytes + (local + central)
    assert_uint32 out
    throw_if (ltb max_output_bytes out) output_too_large
    ok (record {
      names = e.name ∷ p.names;
      total_input_bytes = total;
      output_bytes = out;
      prepared =
          p.prepared
          ++ record {
            name = e.name;
            sha256 = sha256 e.bytes;
            bytes = length e.bytes;
            crc32 = crc32 e.bytes;
            payload = e.bytes;
            name_bytes = name_bytes;
            local_header_offset = 0;
          }
            ∷ [];
    })

  unfoldable pub prepare : List EntryInput → Progress → Result ZipError Progress
  prepare [] p = ok p
  prepare (e ∷ es) p = prepare_entry e p >>= λ p'. prepare es p'

-- The second loop gives each entry its offset, and returns the entries that it has changed.
unfoldable pub write_locals :
    List PreparedEntry → Bytes → ℕ → Result ZipError (List PreparedEntry × Bytes × ℕ)
write_locals [] output offset = ok ([], output, offset)
write_locals (e ∷ es) output offset =
    let placed = record e { local_header_offset = offset } in
    write_local_header output offset placed >>= λ (output', offset').
    assert_uint32 offset' >> write_locals es output' offset' >>= λ (rest, output'', offset'').
    ok (placed ∷ rest, output'', offset'')

-- The third loop
unfoldable pub write_centrals : List PreparedEntry → Bytes → ℕ → Result ZipError (Bytes × ℕ)
write_centrals [] output offset = ok (output, offset)
write_centrals (e ∷ es) output offset =
    write_central_header output offset e >>= λ (output', offset').
    assert_uint32 offset' >> write_centrals es output' offset'

abbrev pub metadata : List PreparedEntry → List EntryMetadata
metadata [] = []
metadata (e ∷ es) =
    record { name = e.name; sha256 = e.sha256; bytes = e.bytes; crc32 = e.crc32 } ∷ metadata es

-- From the prepared entries to the archive
unfoldable pub assemble : List PreparedEntry → ℕ → Result ZipError (Bytes × List PreparedEntry)
assemble prepared size =
    write_locals prepared (zeros size) 0 >>= λ (placed, output, central_offset).
    write_centrals placed output central_offset >>= λ (output', offset).
    assert_uint32 (offset - central_offset)
    >> write_eocd output' offset (length placed) (offset - central_offset) central_offset
    >>= λ (output'', end).
        throw_if (not (end == length output'')) assembly_failed >> ok (output'', placed)

module _ (sha256 : Bytes → Text) where
  unfoldable pub create_deterministic_zip : List EntryInput → Result ZipError ZipResult
  create_deterministic_zip entries =
      if (length entries == 0) || ltb max_entries (length entries)
      then err bad_count
      else prepare sha256 entries start >>= λ p.
          assemble p.prepared p.output_bytes >>= λ (output, placed).
          ok (record { bytes = output; entries = metadata placed; sha256 = sha256 output })
