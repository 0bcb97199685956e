-- ===== src/Canonical/Quote.antt =====
-- `JSON.stringify` of a string: ECMA-262's QuoteJSONString, a part of the language.
use dymaxion.Prelude.{
  ℕ, ◌+◌, ◌/◌, ◌%◌, Text, text, ltb, leb, ◌==◌, if◌then◌else◌, Bool, true, false, ◌&&◌, ◌||◌, [],
  ◌∷◌, ◌++◌,
}

unfoldable pub is_high : ℕ → Bool
is_high c = leb 0xd800 c && leb c 0xdbff

unfoldable pub is_low : ℕ → Bool
is_low c = leb 0xdc00 c && leb c 0xdfff

unfoldable pub hex_digit : ℕ → ℕ
hex_digit d = if ltb d 10 then 48 + d else 87 + d

unfoldable pub unicode_escape : ℕ → Text
unfolding hex_digit
unicode_escape c =
    b'\\'
    ∷ b'u'
    ∷ hex_digit (c / 4096 % 16)
    ∷ hex_digit (c / 256 % 16)
    ∷ hex_digit (c / 16 % 16)
    ∷ hex_digit (c % 16)
    ∷ []

unfoldable pub escape_unit : ℕ → Text
unfolding unicode_escape is_high is_low
escape_unit c =
    if c == 8
    then text "\\b"
    else if c == 9
    then text "\\t"
    else if c == 10
    then text "\\n"
    else if c == 12
    then text "\\f"
    else if c == 13
    then text "\\r"
    else if c == 34
    then 92 ∷ 34 ∷ []
    else if c == 92
    then 92 ∷ 92 ∷ []
    else if ltb c 32 || is_high c || is_low c
    then unicode_escape c
    else c ∷ []

unfoldable pub quote_units : Text → Text
unfolding escape_unit is_high is_low
quote_units [] = []
quote_units (c ∷ []) = escape_unit c
quote_units (c ∷ d ∷ s) = elim (is_high c && is_low d) [
  | true ↦ c ∷ d ∷ quote_units s
  | false ↦ escape_unit c ++ quote_units (d ∷ s)
]

unfoldable pub quote : Text → Text
unfolding quote_units
quote s = 34 ∷ (quote_units s ++ 34 ∷ [])
