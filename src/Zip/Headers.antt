-- ===== src/Zip/Headers.antt =====
-- `writeLocalHeader`, `writeCentralDirectoryHeader` and `writeEocd`: their writes, in order.
use dymaxion.Prelude.{ℕ, ◌+◌, ◌*◌, Text, List, [], ◌∷◌, Result, ok, ◌>>=◌, length}
use dymaxion.Zip.Bytes.{Bytes, ZipError, Field, le16, le32, write_fields}

pub record PreparedEntry : Type 0 where
  pub name : Text
  pub sha256 : Text
  pub bytes : ℕ
  pub crc32 : ℕ
  pub payload : Bytes  -- `data`
  pub name_bytes : Bytes
  pub local_header_offset : ℕ

abbrev pub utf8_flag : ℕ
utf8_flag = 0x0800

abbrev pub version_needed : ℕ
version_needed = 20

-- `(0o100644 << 16) >>> 0`
abbrev pub external_attrs : ℕ
external_attrs = 0o100644 * 65536

unfoldable pub local_fields : PreparedEntry → List Field
local_fields e =
    (0, le32 0x04034b50)
    ∷ (4, le16 version_needed)
    ∷ (6, le16 utf8_flag)
    ∷ (8, le16 0)
    ∷ (10, le16 0)
    ∷ (12, le16 33)
    ∷ (14, le32 e.crc32)
    ∷ (18, le32 e.bytes)
    ∷ (22, le32 e.bytes)
    ∷ (26, le16 (length e.name_bytes))
    ∷ (28, le16 0)
    ∷ (30, e.name_bytes)
    ∷ (30 + length e.name_bytes, e.payload)
    ∷ []

unfoldable pub central_fields : PreparedEntry → List Field
central_fields e =
    (0, le32 0x02014b50)
    ∷ (4, le16 0x0314)
    ∷ (6, le16 version_needed)
    ∷ (8, le16 utf8_flag)
    ∷ (10, le16 0)
    ∷ (12, le16 0)
    ∷ (14, le16 33)
    ∷ (16, le32 e.crc32)
    ∷ (20, le32 e.bytes)
    ∷ (24, le32 e.bytes)
    ∷ (28, le16 (length e.name_bytes))
    ∷ (30, le16 0)
    ∷ (32, le16 0)
    ∷ (34, le16 0)
    ∷ (36, le16 0)
    ∷ (38, le32 external_attrs)
    ∷ (42, le32 e.local_header_offset)
    ∷ (46, e.name_bytes)
    ∷ []

unfoldable pub eocd_fields : ℕ → ℕ → ℕ → List Field
eocd_fields count central_size central_offset =
    (0, le32 0x06054b50)
    ∷ (4, le16 0)
    ∷ (6, le16 0)
    ∷ (8, le16 count)
    ∷ (10, le16 count)
    ∷ (12, le32 central_size)
    ∷ (16, le32 central_offset)
    ∷ (20, le16 0)
    ∷ []

-- Each returns the array and the offset behind the record.
unfoldable pub write_local_header : Bytes → ℕ → PreparedEntry → Result ZipError (Bytes × ℕ)
write_local_header output offset e = do
  output' ← write_fields output offset (local_fields e)
  ok (output', offset + 30 + length e.name_bytes + e.bytes)

unfoldable pub write_central_header : Bytes → ℕ → PreparedEntry → Result ZipError (Bytes × ℕ)
write_central_header output offset e = do
  output' ← write_fields output offset (central_fields e)
  ok (output', offset + 46 + length e.name_bytes)

unfoldable pub write_eocd : Bytes → ℕ → ℕ → ℕ → ℕ → Result ZipError (Bytes × ℕ)
write_eocd output offset count central_size central_offset = do
  output' ← write_fields output offset (eocd_fields count central_size central_offset)
  ok (output', offset + 22)
