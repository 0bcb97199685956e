-- ===== src/Trace/Impact.antt =====
-- `reachableCount` of trace-arcgis-dependencies.ts, over the map of successors, or of predecessors,
-- that its caller makes of the sorted edges: which end is which is an argument.
use dymaxion.Prelude.{
  ℕ, zero, suc, ◌+◌, Text, text_eq, Option, none, some, Bool, true, false, ◌||◌, if◌then◌else◌,
  List, [], ◌∷◌, ◌++◌, length,
}
use dymaxion.Trace.Types.{Edge}

-- `has` of a set, whose members a list has
unfoldable pub has_member : List Text → Text → Bool
has_member [] x = false
has_member (y ∷ ys) x = text_eq y x || has_member ys x

-- `add`
abbrev pub add_member : List Text → Text → List Text
add_member set x = if has_member set x then set else set ++ x ∷ []

-- `delete`
unfoldable pub delete_member : List Text → Text → List Text
delete_member [] x = []
delete_member (y ∷ ys) x = let rest = delete_member ys x in if text_eq y x then rest else y ∷ rest

-- The inner loop: those that have not been seen
unfoldable pub unseen : List Text → List Text → List Text
unseen seen [] = []
unseen seen (x ∷ xs) = let rest = unseen seen xs in if has_member seen x then rest else x ∷ rest

module _ (from to : Edge → Text) where
  -- `successors.get(node) ?? []`, with what has been added
  unfoldable pub neighbours : Text → List Text → List Edge → List Text
  neighbours node set [] = set
  neighbours node set (e ∷ es) =
      neighbours node (if text_eq (from e) node then add_member set (to e) else set) es

  module _ (edges : List Edge) where
    -- The loop, with a bound of its rounds; the newest member of `seen` stands first.
    unfoldable pub search : ℕ → List Text → List Text → Option (List Text)
    search rounds seen [] = some seen
    search zero seen (node ∷ queue) = none
    search (suc rounds) seen (node ∷ queue) = elim (has_member seen node) [
      | true ↦ search rounds seen queue
      | false ↦
          search rounds (node ∷ seen) (queue ++ unseen (node ∷ seen) (neighbours node [] edges))
    ]

    abbrev pub count_without : Text → Option (List Text) → Option ℕ
    count_without start none = none
    count_without start (some seen) = some (length (delete_member seen start))

    unfoldable pub reachable_count : Text → Option ℕ
    reachable_count start =
        count_without start (search (length edges + length edges) [] (neighbours start [] edges))
