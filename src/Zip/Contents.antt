-- ===== src/Zip/Contents.antt =====
-- The archive of `createDeterministicZip` in deterministic-zip.ts holds the entries it was given.
use dymaxion.Prelude.{List}
use dymaxion.Zip.Bytes.{Bytes}
use dymaxion.Zip.Headers.{PreparedEntry}
use dymaxion.Zip.Create.{EntryInput}

-- The input that a prepared entry was made of
abbrev pub input_of : PreparedEntry → EntryInput
input_of e = record { name = e.name; bytes = e.payload }
