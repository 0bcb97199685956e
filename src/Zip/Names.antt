-- ===== src/Zip/Names.antt =====
-- `validateEntryName`: the names that an archive may hold. A control character is never a safe one.
use dymaxion.Prelude.{
  ℕ, ◌+◌, ◌-◌, ◌*◌, ◌/◌, ◌%◌, Text, text, text_eq, starts_with, leb, ltb, ◌==◌, if◌then◌else◌, Bool,
  true, false, not, ◌&&◌, ◌||◌, List, [], ◌∷◌, ◌++◌, Result, ok, err, length, all, any,
}
use dymaxion.Zip.Bytes.{Bytes, ZipError, bad_name}

abbrev pub max_name_bytes : ℕ
max_name_bytes = 255

-- `/[\u0000-\u001f\u007f]/`
unfoldable pub is_control : ℕ → Bool
is_control c = leb c 31 || (c == 127)

-- `/^[A-Za-z0-9._/-]+$/`, of one character
unfoldable pub is_safe : ℕ → Bool
is_safe c =
    (leb b'A' c && leb c b'Z')
    || (leb b'a' c && leb c b'z')
    || (leb b'0' c && leb c b'9')
    || (c == b'.')
    || (c == b'_')
    || (c == b'/')
    || (c == b'-')

-- `name.split('/')`: the part so far, reversed at its end by appending
unfoldable pub split_slash : Text → Text → List Text
split_slash part [] = part ∷ []
split_slash part (c ∷ s) = elim (c == b'/') [
  | true ↦ part ∷ split_slash [] s
  | false ↦ split_slash (part ++ c ∷ []) s
]

unfoldable pub is_bad_part : Text → Bool
is_bad_part p = (length p == 0) || text_eq p (text ".") || text_eq p (text "..")

-- `name.endsWith('/')`
unfoldable pub ends_slash : Text → Bool
ends_slash [] = false
ends_slash (c ∷ []) = c == b'/'
ends_slash (c ∷ d ∷ s) = ends_slash (d ∷ s)

-- `name.includes('//')`
unfoldable pub has_double_slash : Text → Bool
has_double_slash [] = false
has_double_slash (c ∷ []) = false
has_double_slash (c ∷ d ∷ s) = ((c == b'/') && (d == b'/')) || has_double_slash (d ∷ s)

unfoldable pub is_high : ℕ → Bool
is_high c = leb 0xd800 c && leb c 0xdbff

unfoldable pub is_low : ℕ → Bool
is_low c = leb 0xdc00 c && leb c 0xdfff

-- The bytes of one unit that is no part of a surrogate pair; a lone surrogate becomes U+FFFD.
unfoldable pub utf8_unit : ℕ → Bytes
unfolding is_high is_low
utf8_unit c =
    if ltb c 0x80
    then c ∷ []
    else if ltb c 0x800
    then (0xc0 + c / 64) ∷ (0x80 + c % 64) ∷ []
    else if is_high c || is_low c
    then 0xef ∷ 0xbf ∷ 0xbd ∷ []
    else (0xe0 + c / 4096) ∷ (0x80 + c / 64 % 64) ∷ (0x80 + c % 64) ∷ []

unfoldable pub utf8_pair : ℕ → ℕ → Bytes
utf8_pair c d =
    let p = 0x10000 + (c - 0xd800) * 1024 + (d - 0xdc00) in
    (0xf0 + p / 262144) ∷ (0x80 + p / 4096 % 64) ∷ (0x80 + p / 64 % 64) ∷ (0x80 + p % 64) ∷ []

-- `Buffer.from(name, 'utf8')`
unfoldable pub utf8 : Text → Bytes
utf8 [] = []
utf8 (c ∷ []) = utf8_unit c
utf8 (c ∷ d ∷ s) = elim (is_high c && is_low d) [
  | true ↦ utf8_pair c d ++ utf8 s
  | false ↦ utf8_unit c ++ utf8 (d ∷ s)
]

unfoldable pub is_bad_name : Text → Bool
unfolding is_bad_part
is_bad_name name =
    (length name == 0)
    || ltb max_name_bytes (length name)
    || any is_control name
    || not (all is_safe name)
    || starts_with name (text "/")
    || starts_with name (text "./")
    || starts_with name (text "../")
    || ends_slash name
    || any (λ c. c == 92) name
    || any (λ c. c == b':') name
    || has_double_slash name
    || any is_bad_part (split_slash [] name)

unfoldable pub validate_entry_name : Text → Result ZipError Bytes
validate_entry_name name =
    let bytes = utf8 name in
    if is_bad_name name
    then err bad_name
    else if not (length bytes == length name) || ltb max_name_bytes (length bytes)
    then err bad_name
    else ok bytes
