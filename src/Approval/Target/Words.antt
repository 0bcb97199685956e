-- ===== src/Approval/Target/Words.antt =====
-- The patterns of `deriveApprovalTarget`, written out, and the decimal text of an array index.
use dymaxion.Prelude.{
  ◌≡◌, refl, arith, ℕ, zero, suc, ◌+◌, ◌/◌, ◌%◌, Text, text, starts_with, leb, ltb, ◌==◌,
  if◌then◌else◌, Bool, true, false, ◌&&◌, ◌||◌, List, [], ◌∷◌, all, any, length, drop,
}

-- `[0-9a-f]`
unfoldable pub is_lower_hex : ℕ → Bool
is_lower_hex c = (leb b'0' c && leb c b'9') || (leb b'a' c && leb c b'f')

-- `/^[a-f0-9]{64}$/`
unfoldable pub is_sha256_hex : Text → Bool
unfolding is_lower_hex
is_sha256_hex s = (length s == 64) && all is_lower_hex s

-- One class of characters for each place: `/^[0-9a-f]{8}-[0-9a-f]{4}-[1-5][0-9a-f]{3}-[89ab]…$/`
abbrev Classes : Type 0
Classes = List (ℕ → Bool)

unfoldable pub fits : Classes → Text → Bool
fits [] [] = true
fits [] (c ∷ s) = false
fits (p ∷ ps) [] = false
fits (p ∷ ps) (c ∷ s) = p c && fits ps s

unfoldable pub repeat : ℕ → (ℕ → Bool) → Classes → Classes
repeat zero p ps = ps
repeat (suc n) p ps = p ∷ repeat n p ps

unfoldable pub dash : ℕ → Bool
dash c = c == b'-'

unfoldable pub version : ℕ → Bool
version c = leb b'1' c && leb c b'5'

unfoldable pub variant : ℕ → Bool
variant c = (c == b'8') || (c == b'9') || (c == b'a') || (c == b'b')

unfoldable pub uuid_classes : Classes
unfolding repeat
uuid_classes = repeat 8 is_lower_hex (
    dash
    ∷ repeat 4 is_lower_hex (
        dash
        ∷ version
        ∷ repeat 3 is_lower_hex
            (dash ∷ variant ∷ repeat 3 is_lower_hex (dash ∷ repeat 12 is_lower_hex []))))

unfoldable pub is_uuid : Text → Bool
unfolding fits uuid_classes is_lower_hex dash version variant
is_uuid s = fits uuid_classes s

unfoldable pub target_words : List Text
target_words =
    text "target"
    ∷ text "destination"
    ∷ text "url"
    ∷ text "uri"
    ∷ text "endpoint"
    ∷ text "path"
    ∷ text "file"
    ∷ text "directory"
    ∷ text "service"
    ∷ text "service_name"
    ∷ text "layer"
    ∷ text "layer_id"
    ∷ text "table"
    ∷ text "schema"
    ∷ text "database"
    ∷ text "project"
    ∷ text "project_id"
    ∷ text "org"
    ∷ text "organization"
    ∷ text "item_id"
    ∷ text "dataset_id"
    ∷ text "group_id"
    ∷ []

-- The flag `i` of the pattern, for its ASCII words
unfoldable pub to_lower : ℕ → ℕ
to_lower c = if leb b'A' c && leb c b'Z' then c + 32 else c

unfoldable pub lower : Text → Text
unfolding to_lower
lower [] = []
lower (c ∷ s) = to_lower c ∷ lower s

-- `(?:$|_)`
unfoldable pub ends_word : Text → Bool
ends_word [] = true
ends_word (c ∷ s) = c == b'_'

-- A word of the list at the head of the text
unfoldable pub word_at : Text → Bool
unfolding target_words ends_word
word_at s = any (λ w. starts_with s w && ends_word (drop (length w) s)) target_words

-- The same after some underscore: `(?:^|_)` at a later place
unfoldable pub after_underscore : Text → Bool
unfolding word_at
after_underscore [] = false
after_underscore (c ∷ s) = ((c == b'_') && word_at s) || after_underscore s

unfoldable pub is_target_key : Text → Bool
unfolding word_at after_underscore lower
is_target_key k = word_at (lower k) || after_underscore (lower k)

-- The decimal digits of a number below `10 ^ fuel`
unfoldable pub digits_fuel : ℕ → ℕ → Text → Text
digits_fuel zero n acc = acc
digits_fuel (suc f) n acc =
    let rest = digits_fuel f (n / 10) ((48 + n % 10) ∷ acc) in
    if ltb n 10 then (48 + n % 10) ∷ acc else rest

unfoldable pub decimal : ℕ → Text
unfolding digits_fuel
decimal n = digits_fuel (suc n) n []

fits-length : (ps : Classes) (s : Text) → fits ps s ≡ true → length s ≡ length ps
unfolding fits
fits-length [] [] h = refl
fits-length [] (c ∷ s) h = cc
fits-length (p ∷ ps) [] h = cc
fits-length (p ∷ ps) (c ∷ s) h = ground (arith, fits-length ps s)

-- A UUID has 36 characters.
pub is_uuid-length : (s : Text) → is_uuid s ≡ true → length s ≡ 36
unfolding is_uuid
is_uuid-length s h = fits-length uuid_classes s h
