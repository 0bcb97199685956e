-- ===== src/Zip/Paths.antt =====
-- The names that `validateEntryName` of deterministic-zip.ts lets through.
use dymaxion.Prelude.{
  ℕ, ◌≤◌, ◌<◌, ◌≡◌, refl, sym, ap, ◌∙◌, Text, text, starts_with, ltb, ◌==◌, Bool, true, false, not,
  ◌&&◌, ◌||◌, [], ◌∷◌, ok, length, all, any, arith, if-err-eq-ok,
}
use dymaxion.Zip.Bytes.{Bytes, bad_name}
use dymaxion.Zip.Names.{
  validate_entry_name, is_bad_name, is_bad_part, is_safe, split_slash, ends_slash, utf8, utf8_unit,
  is_high, is_low, max_name_bytes,
}

or_false : (a b : Bool) → (a || b) ≡ false → (a ≡ false) × (b ≡ false)
or_false a b h = ground arith

is_safe-lt : (c : ℕ) → is_safe c ≡ true → c < 128
unfolding is_safe
is_safe-lt c h = ground arith

utf8_unit-ascii : (c : ℕ) → c < 128 → utf8_unit c ≡ c ∷ []
unfolding utf8_unit
utf8_unit-ascii c h = let small : ltb c 0x80 ≡ true = ground arith in rw small

ascii_unpaired : (c d : ℕ) → c < 128 → (is_high c && is_low d) ≡ false
unfolding is_high
ascii_unpaired c d h = ground arith

-- Safe characters are encoded as themselves.
utf8-safe : (s : Text) → all is_safe s ≡ true → utf8 s ≡ s
unfolding utf8
utf8-safe [] h = refl
utf8-safe (c ∷ []) h = utf8_unit-ascii c (is_safe-lt c ground arith)
utf8-safe (c ∷ d ∷ s) h =
    let c_safe : is_safe c ≡ true = ground arith in
    let small = is_safe-lt c c_safe in
    let rest : all is_safe (d ∷ s) ≡ true = ground arith in
    rw (utf8, ascii_unpaired c d small)
      (rw (utf8_unit-ascii c small) (ap (λ t. c ∷ t) (utf8-safe (d ∷ s) rest)))

-- A name that `validateEntryName` accepts is encoded byte for byte, has between one and
-- `MAX_DETERMINISTIC_ZIP_ENTRY_NAME_BYTES` bytes of the safe characters, does not begin or end
-- with a slash, and none of its parts between slashes is empty, `.` or `..`.
pub validate_entry_name-relative :
    (name : Text) (bytes : Bytes)
    → validate_entry_name name ≡ ok bytes
    → (bytes ≡ name)
      × (1 ≤ length name)
      × (length name ≤ max_name_bytes)
      × (all is_safe name ≡ true)
      × (starts_with name (text "/") ≡ false)
      × (ends_slash name ≡ false)
      × (any is_bad_part (split_slash [] name) ≡ false)
unfolding validate_entry_name is_bad_name
validate_entry_name-relative name bytes h =
    let (good, h₁) = if-err-eq-ok (is_bad_name name) bad_name _ h in
    let (_, h₂) =
      if-err-eq-ok
        (not (length (utf8 name) == length name) || ltb max_name_bytes (length (utf8 name)))
        bad_name _ h₁ in
    let safe : all is_safe name ≡ true = ground arith in
    let same : utf8 name ≡ bytes = cc in
    (
      sym same ∙ utf8-safe name safe,
      ground arith,
      ground arith,
      safe,
      ground arith,
      ground arith,
      ground arith,
    )
