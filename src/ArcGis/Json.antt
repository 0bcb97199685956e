-- ===== src/ArcGis/Json.antt =====
-- The values of `JSON.parse`, and the tests on them that the ArcGIS capabilities share. A number is
-- whole, or another finite one by its text, or what `1e999` is read as. The keys of an object stand
-- in the order of `Object.keys`.
use dymaxion.Prelude.{
  ℕ, ◌-◌, ◌^◌, Text, text_eq, Option, none, some, Bool, true, false, List, [], ◌∷◌, leb, ltb,
}
use dymaxion.Prelude.Int.{ℤ, pos, negsuc}

mutual
  pub data Json : Type 0 where
    null : Json
    bool : Bool → Json
    string : Text → Json
    whole : ℤ → Json
    fraction : Text → Json
    infinite : Json
    array : Items → Json
    object : Fields → Json

  pub data Items : Type 0 where
    nil : Items
    cons : Json → Items → Items

  pub data Fields : Type 0 where
    end : Fields
    field : Text → Json → Fields → Fields

-- `value[key]`; `none` is `undefined`
unfoldable pub get : Text → Fields → Option Json
get key end = none
get key (field k v fs) = elim (text_eq k key) [ true ↦ some v | false ↦ get key fs ]

-- `Object.entries`
unfoldable pub entries_of : Fields → List (Text × Json)
entries_of end = []
entries_of (field k v fs) = (k, v) ∷ entries_of fs

unfoldable pub items_of : Items → List Json
items_of nil = []
items_of (cons x xs) = x ∷ items_of xs

-- `isPlainObject`, with the object
abbrev pub plain_object : Json → Option Fields
plain_object (object fs) = some fs
plain_object _ = none

-- `Array.isArray`, with the items
abbrev pub array_items : Option Json → Option (List Json)
array_items (some (array xs)) = some (items_of xs)
array_items _ = none

abbrev pub max_safe_integer : ℕ
max_safe_integer = 2 ^ 53 - 1

abbrev pub is_safe : ℤ → Bool
is_safe (pos n) = leb n max_safe_integer
is_safe (negsuc n) = ltb n max_safe_integer

-- A text that is not empty, or null: `optionalString`
abbrev pub optional_string : Option Json → Option Text
optional_string (some (string (c ∷ s))) = some (c ∷ s)
optional_string _ = none
