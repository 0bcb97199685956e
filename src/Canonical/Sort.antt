-- ===== src/Canonical/Sort.antt =====
-- `entries.sort(([a], [b]) => a < b ? -1 : a > b ? 1 : 0)`: a stable sort by key.
use dymaxion.Prelude.{Text, text_lt, List, [], ◌∷◌, if◌then◌else◌}

module _ {ℓ} {V : Type ℓ} where
  abbrev pub insert_entry : Text × V → List (Text × V) → List (Text × V)
  insert_entry e [] = e ∷ []
  insert_entry e (f ∷ l) = if text_lt f.0 e.0 then f ∷ insert_entry e l else e ∷ f ∷ l

  abbrev pub sort_entries : List (Text × V) → List (Text × V)
  sort_entries [] = []
  sort_entries (e ∷ l) = insert_entry e (sort_entries l)
