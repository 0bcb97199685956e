-- ===== src/Zip/Archive.antt =====
-- `createDeterministicZip` of deterministic-zip.ts as a whole: its archive, and the size of it.
use dymaxion.Prelude.{
  ◌≤◌, ◌≡◌, Text, ltb, ◌==◌, false, ◌||◌, List, ok, ◌>>=◌, length, arith, if-err-eq-ok, >>=-eq-ok,
  Result-cases, inl, inr,
}
use dymaxion.Zip.Bytes.{Bytes, bad_count}
use dymaxion.Zip.Headers.{PreparedEntry}
use dymaxion.Zip.Create.{
  EntryInput, ZipResult, Progress, start, prepare, metadata, assemble, create_deterministic_zip,
  max_output_bytes, max_entries,
}
use dymaxion.Zip.Layout.{place}
use dymaxion.Zip.Assembly.{archive, assemble_lem, length-archive}
use dymaxion.Zip.Prepare.{prepare-IsReady, start-IsReady}

module _ (sha256 : Bytes → Text) where
  -- The result that describes the archive of the prepared entries.
  unfoldable pub describe : List PreparedEntry → ZipResult
  describe es = record {
    bytes = archive (place 0 es);
    entries = metadata (place 0 es);
    sha256 = sha256 (archive (place 0 es));
  }

  pub assemble-prepare :
      (es : List EntryInput) (p : Progress)
      → prepare sha256 es start ≡ ok p
      → assemble p.prepared p.output_bytes ≡ ok (archive (place 0 p.prepared), place 0 p.prepared)
  assemble-prepare es p made =
      let h = prepare-IsReady sha256 es start p start-IsReady made in
      assemble_lem p.prepared p.output_bytes h.measured h.sized (omega (arith, h.bounded))

  -- With one to `MAX_DETERMINISTIC_ZIP_ENTRIES` entries, `createDeterministicZip` throws what the
  -- checks of its first loop throw and nothing else: the range checks of the two later loops, the
  -- writes and the final comparison never fail, and its result is the archive in which the local
  -- records stand in order, each central record holds the offset of its local one, and the end
  -- record gives the count, the size and the place of the central records.
  pub create_refines :
      (es : List EntryInput)
      → 1 ≤ length es
      → length es ≤ max_entries
      → create_deterministic_zip sha256 es
        ≡ (prepare sha256 es start >>= λ p. ok (describe p.prepared))
  unfolding create_deterministic_zip describe
  create_refines es some few =
      let counted : ((length es == 0) || ltb max_entries (length es)) ≡ false = ground arith in
      elim (Result-cases (prepare sha256 es start)) [
        | inl (p, made) ↦ rw counted (rw made (rw (assemble-prepare es p made)))
        | inr (e, bad) ↦ rw counted (rw bad)
      ]

  pub described :
      (p : Progress) (r : ZipResult)
      → assemble p.prepared p.output_bytes ≡ ok (archive (place 0 p.prepared), place 0 p.prepared)
      → (assemble p.prepared p.output_bytes >>= λ (output, placed).
          ok (record { bytes = output; entries = metadata placed; sha256 = sha256 output }))
        ≡ ok r
      → describe p.prepared ≡ r
  unfolding describe
  described p r made whole = cc

  -- An archive that `createDeterministicZip` returns has at most
  -- `MAX_DETERMINISTIC_ZIP_OUTPUT_BYTES` bytes, exactly as many as the first loop has counted.
  pub create_bounded :
      (es : List EntryInput) (r : ZipResult)
      → create_deterministic_zip sha256 es ≡ ok r
      → (p : Progress) × (prepare sha256 es start ≡ ok p)
        × (length r.bytes ≡ p.output_bytes)
        × (length r.bytes ≤ max_output_bytes)
  unfolding create_deterministic_zip
  create_bounded es r made =
      let (counted, rest) =
        if-err-eq-ok ((length es == 0) || ltb max_entries (length es)) bad_count _ made in
      let (p, prepared, whole) = >>=-eq-ok (prepare sha256 es start) _ rest in
      let h = prepare-IsReady sha256 es start p start-IsReady prepared in
      let built : describe p.prepared ≡ r = described p r (assemble-prepare es p prepared) whole in
      let measured : length r.bytes ≡ p.output_bytes =
        rw (← built)
          (unfold describe in omega (arith, length-archive p.prepared h.measured, h.sized)) in
      (p, prepared, measured, omega (arith, measured, h.bounded))
