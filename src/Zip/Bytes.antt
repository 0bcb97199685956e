-- ===== src/Zip/Bytes.antt =====
-- A Uint8Array is the list of its bytes; a write outside it throws a RangeError.
use dymaxion.Prelude.{
  ℕ, ◌+◌, ◌/◌, ◌%◌, leb, if◌then◌else◌, List, [], ◌∷◌, ◌++◌, Result, ok, err, ◌>>=◌, length, take,
  drop,
}

pub data ZipError : Type 0 where
  bad_count bad_name duplicate_name entry_too_large input_too_large output_too_large zip32_bounds
        assembly_failed range_error :
      ZipError

abbrev pub Bytes : Type 0
Bytes = List ℕ

-- `setUint16(offset, value, true)` and `setUint32(offset, value >>> 0, true)`: the bytes written
abbrev pub le16 : ℕ → Bytes
le16 v = (v % 256) ∷ (v / 256 % 256) ∷ []

abbrev pub le32 : ℕ → Bytes
le32 v = (v % 256) ∷ (v / 256 % 256) ∷ (v / 65536 % 256) ∷ (v / 16777216 % 256) ∷ []

-- `output.set(bytes, offset)`, which the writes through a DataView are too
unfoldable pub write : Bytes → ℕ → Bytes → Result ZipError Bytes
write output offset bs =
    if leb (offset + length bs) (length output)
    then ok (take offset output ++ (bs ++ drop (offset + length bs) output))
    else err range_error

-- A row of writes: each field's place relative to the record, and its bytes.
abbrev pub Field : Type 0
Field = ℕ × Bytes

unfoldable pub write_fields : Bytes → ℕ → List Field → Result ZipError Bytes
write_fields output offset [] = ok output
write_fields output offset ((k, bs) ∷ fs) = do
  output' ← write output (offset + k) bs
  write_fields output' offset fs
