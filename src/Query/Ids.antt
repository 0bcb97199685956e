-- ===== src/Query/Ids.antt =====
-- `validateObjectIds` of query-feature-service.ts.
use dymaxion.Prelude.{
  Text, text, text_eq, Option, none, some, Bool, false, not, ◌||◌, if◌then◌else◌, List, [], ◌∷◌,
  ◌++◌, Result, ok, err, ◌>>=◌, ◌>>◌, throw_if,
}
use dymaxion.Prelude.Int.{ℤ, int_eq, int_lt}
use dymaxion.Boundary.Url.{to_lower}
use dymaxion.ArcGis.Json.{Json, null, bool, string, whole, array, Fields, get, items_of, is_safe}
use dymaxion.ArcGis.Session.{
  Failure, exception, exceeded_not_boolean, ids_incomplete, ids_other_field, missing_ids, unsafe_id,
  duplicate_id,
}

unfoldable pub has_id : List ℤ → ℤ → Bool
has_id [] i = false
has_id (j ∷ js) i = int_eq j i || has_id js i

-- `sort((a, b) => a - b)`
unfoldable pub insert_id : ℤ → List ℤ → List ℤ
insert_id i [] = i ∷ []
insert_id i (j ∷ js) = let later = j ∷ insert_id i js in if int_lt j i then later else i ∷ j ∷ js

unfoldable pub sort_ids : List ℤ → List ℤ
sort_ids [] = []
sort_ids (i ∷ is) = insert_id i (sort_ids is)

-- `exceededTransferLimit`: whether it is set, where it is a boolean or missing
abbrev pub exceeded_flag : Option Json → Option Bool
exceeded_flag none = some false
exceeded_flag (some (bool b)) = some b
exceeded_flag (some other) = none

abbrev pub check_exceeded : Option Json → Result Failure (Unit {0})
check_exceeded flag = elim (exceeded_flag flag) [
  | none ↦ err (exception exceeded_not_boolean)
  | some b ↦ throw_if b (exception ids_incomplete)
]

abbrev pub check_declared : Text → Option Json → Result Failure (Unit {0})
check_declared field none = ok tt
check_declared field (some null) = ok tt
check_declared field (some (string t)) =
    throw_if (not (text_eq (to_lower t) (to_lower field))) (exception ids_other_field)
check_declared field (some other) = err (exception ids_other_field)

-- A number whose value is a safe integer
abbrev pub safe_integer : Json → Option ℤ
safe_integer (whole n) = if is_safe n then some n else none
safe_integer _ = none

-- The loop, with what it has seen
unfoldable pub take_ids : List ℤ → List Json → Result Failure (List ℤ)
take_ids seen [] = ok seen
take_ids seen (v ∷ vs) = elim (safe_integer v) [
  | none ↦ err (exception unsafe_id)
  | some i ↦ if has_id seen i then err (exception duplicate_id) else take_ids (seen ++ i ∷ []) vs
]

abbrev pub ids_of : Option Json → Result Failure (List ℤ)
ids_of (some null) = ok []
ids_of (some (array raw)) = take_ids [] (items_of raw) >>= λ seen. ok (sort_ids seen)
ids_of _ = err (exception missing_ids)

unfoldable pub validate_object_ids : Fields → Text → Result Failure (List ℤ)
validate_object_ids json field = do
  check_exceeded (get (text "exceededTransferLimit") json)
  check_declared field (get (text "objectIdFieldName") json)
  ids_of (get (text "objectIds") json)
