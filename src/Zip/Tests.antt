-- ===== src/Zip/Tests.antt =====
-- Archives of small entries, for the definitions of deterministic-zip.ts.
use dymaxion.Prelude.{
  ◌≤◌, ◌≡◌, refl, ◌∙◌, Text, text, text_eq, starts_with, true, false, [], ◌∷◌, ok, err, ◌>>=◌,
  length, all, any, arith,
}
use dymaxion.Zip.Bytes.{Bytes, bad_name}
use dymaxion.Zip.Crc.{crc32, crc_loop, crc_byte, crc_table}
use dymaxion.Zip.Names.{
  validate_entry_name, is_bad_name, is_control, is_safe, ends_slash, has_double_slash, is_bad_part,
  split_slash, max_name_bytes, utf8, is_high, utf8_unit,
}
use dymaxion.Zip.Create.{
  EntryInput, Progress, start, prepare, prepare_entry, assert_uint32, create_deterministic_zip,
  max_output_bytes,
}
use dymaxion.Zip.Archive.{describe, create_refines, create_bounded}
use dymaxion.Zip.Prepare.{advance}
use dymaxion.Zip.Paths.{validate_entry_name-relative}

abbrev digest : Bytes → Text
digest bs = text "digest"

abbrev readme : EntryInput
readme = record { name = text "a.txt"; bytes = 104 ∷ 105 ∷ [] }

crc32_hi : crc32 (104 ∷ 105 ∷ []) ≡ 0xd8932aac
unfolding crc32 crc_loop crc_byte crc_table
crc32_hi = refl

parent_refused : validate_entry_name (text "a/../b") ≡ err bad_name
unfolding validate_entry_name is_bad_name is_control is_safe starts_with ends_slash has_double_slash
    split_slash text_eq
parent_refused = refl

readme_prepared :
    prepare digest (readme ∷ []) start ≡ ok (advance digest readme (text "a.txt") start)
unfolding prepare prepare_entry validate_entry_name is_bad_name is_control is_safe starts_with
    ends_slash has_double_slash split_slash text_eq utf8 is_high utf8_unit assert_uint32
readme_prepared = refl

create_refines_example :
    create_deterministic_zip digest (readme ∷ [])
    ≡ (prepare digest (readme ∷ []) start >>= λ p. ok (describe digest p.prepared))
create_refines_example = create_refines digest (readme ∷ []) (omega arith) (omega arith)

readme_zip :
    create_deterministic_zip digest (readme ∷ [])
    ≡ ok (describe digest (advance digest readme (text "a.txt") start).prepared)
readme_zip = create_refines_example ∙ rw readme_prepared refl

create_bounded_example :
    (p : Progress) × (prepare digest (readme ∷ []) start ≡ ok p)
    × (length (describe digest (advance digest readme (text "a.txt") start).prepared).bytes
        ≡ p.output_bytes)
    × (length (describe digest (advance digest readme (text "a.txt") start).prepared).bytes
        ≤ max_output_bytes)
create_bounded_example =
    create_bounded digest (readme ∷ [])
      (describe digest (advance digest readme (text "a.txt") start).prepared) readme_zip

accepted : validate_entry_name (text "a/b.txt") ≡ ok (text "a/b.txt")
unfolding validate_entry_name is_bad_name is_control is_safe starts_with ends_slash has_double_slash
    split_slash text_eq utf8 is_high utf8_unit
accepted = refl

validate_entry_name-relative_example :
    (text "a/b.txt" ≡ text "a/b.txt")
    × (1 ≤ length (text "a/b.txt"))
    × (length (text "a/b.txt") ≤ max_name_bytes)
    × (all is_safe (text "a/b.txt") ≡ true)
    × (starts_with (text "a/b.txt") (text "/") ≡ false)
    × (ends_slash (text "a/b.txt") ≡ false)
    × (any is_bad_part (split_slash [] (text "a/b.txt")) ≡ false)
validate_entry_name-relative_example =
    validate_entry_name-relative (text "a/b.txt") (text "a/b.txt") accepted
