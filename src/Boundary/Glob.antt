-- ===== src/Boundary/Glob.antt =====
-- `globMatch` of boundary.ts: a star stands for any text without a line end, and letters match in
-- either case. Case is that of ASCII.
use dymaxion.Prelude.{
  ℕ, ◌+◌, Text, leb, ◌==◌, if◌then◌else◌, Bool, true, false, not, ◌&&◌, ◌||◌, List, [], ◌∷◌, any,
}

unfoldable pub lower : ℕ → ℕ
lower c = if leb b'A' c && leb c b'Z' then c + 32 else c

-- The characters that `.` does not match
unfoldable pub is_line_end : ℕ → Bool
is_line_end c = (c == 10) || (c == 13) || (c == 0x2028) || (c == 0x2029)

-- `.*`, and then what the rest of the pattern matches
unfoldable pub after_star : (Text → Bool) → Text → Bool
after_star rest [] = rest []
after_star rest (c ∷ s) = rest (c ∷ s) || (not (is_line_end c) && after_star rest s)

unfoldable pub glob_match : Text → Text → Bool
glob_match [] [] = true
glob_match [] (c ∷ s) = false
glob_match (p ∷ ps) s = elim (p == b'*') [
  | true ↦ after_star (glob_match ps) s
  | false ↦ elim s [ [] ↦ false | c ∷ s' ↦ (lower p == lower c) && glob_match ps s' ]
]

-- `isHostnameDenied`
unfoldable pub is_hostname_denied : List Text → Text → Bool
is_hostname_denied denied hostname = any (λ pattern. glob_match pattern hostname) denied
