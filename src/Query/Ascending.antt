-- ===== src/Query/Ascending.antt =====
-- `validateObjectIds` of query-feature-service.ts returns each identifier once, in ascending order.
use dymaxion.Prelude.{
  ℕ, zero, suc, ◌+◌, ◌≡◌, refl, Text, text, Option, none, some, true, false, if◌then◌else◌, List,
  [], ◌∷◌, ◌++◌, take, ok, >>=-eq-ok, arith, inl, inr, Bool-cases, Option-cases,
}
use mathlib.Core.Path.{subst}
use dymaxion.Prelude.Int.{
  ℤ, int_eq, int_lt, int_eq_iff, int_eq_refl, int_lt_trans, int_lt_irrefl, int_lt_total,
}
use dymaxion.ArcGis.Json.{Json, null, array, Fields, get, items_of}
use dymaxion.Query.Counting.{times, times-append, not_has_id-times}
use dymaxion.Query.Ids.{
  has_id, insert_id, sort_ids, safe_integer, take_ids, ids_of, check_exceeded, check_declared,
  validate_object_ids,
}
use dymaxion.Query.Kept.{IsOnce}

abbrev pub IsBelowAll : ℤ → List ℤ → Type 0
IsBelowAll i [] = Unit {0}
IsBelowAll i (j ∷ js) = (int_lt i j ≡ true) × IsBelowAll i js

abbrev pub IsAscending : List ℤ → Type 0
IsAscending [] = Unit {0}
IsAscending (i ∷ is) = IsBelowAll i is × IsAscending is

IsBelowAll-lt : (i j : ℤ) (js : List ℤ) → int_lt i j ≡ true → IsBelowAll j js → IsBelowAll i js
IsBelowAll-lt i j [] h b = tt
IsBelowAll-lt i j (k ∷ js) h b = (int_lt_trans i j k h b.0, IsBelowAll-lt i j js h b.1)

IsBelowAll-times : (i : ℤ) (js : List ℤ) → IsBelowAll i js → times i js ≡ 0
unfolding times
IsBelowAll-times i [] b = refl
IsBelowAll-times i (j ∷ js) b = elim (Bool-cases (int_eq j i)) [
  | inl same ↦ absurd (ground (arith, b.0, (int_eq_iff j i).0 same, int_lt_irrefl i))
  | inr other ↦ ground (arith, IsBelowAll-times i js b.1)
]

pub IsAscending-IsOnce : (is : List ℤ) → IsAscending is → IsOnce is
unfolding times
IsAscending-IsOnce [] a k = omega arith
IsAscending-IsOnce (i ∷ is) a k = elim (Bool-cases (int_eq i k)) [
  | inl same ↦
      let none_left : times k is ≡ 0 =
        subst (λ (j : ℤ). times j is ≡ 0) ((int_eq_iff i k).0 same) (IsBelowAll-times i is a.0) in
      ground arith
  | inr other ↦ ground (arith, IsAscending-IsOnce is a.1 k)
]

IsBelowAll-take : (n : ℕ) (i : ℤ) (is : List ℤ) → IsBelowAll i is → IsBelowAll i (take n is)
IsBelowAll-take zero i is b = tt
IsBelowAll-take (suc n) i [] b = tt
IsBelowAll-take (suc n) i (j ∷ js) b = (b.0, IsBelowAll-take n i js b.1)

pub IsAscending-take : (n : ℕ) (is : List ℤ) → IsAscending is → IsAscending (take n is)
IsAscending-take zero is a = tt
IsAscending-take (suc n) [] a = tt
IsAscending-take (suc n) (i ∷ is) a = (IsBelowAll-take n i is a.0, IsAscending-take n is a.1)

IsBelowAll-insert :
    (i k : ℤ) (js : List ℤ) → int_lt i k ≡ true → IsBelowAll i js → IsBelowAll i (insert_id k js)
unfolding insert_id
IsBelowAll-insert i k [] h b = (h, tt)
IsBelowAll-insert i k (j ∷ js) h b = elim (Bool-cases (int_lt j k)) [
  | inl later ↦ rw later (b.0, IsBelowAll-insert i k js h b.1)
  | inr first ↦ rw first (h, (b.0, b.1))
]

times-insert :
    (k i : ℤ) (js : List ℤ) → times k (insert_id i js) ≡ (if int_eq i k then 1 else 0) + times k js
unfolding times insert_id
times-insert k i [] = refl
times-insert k i (j ∷ js) = ground (arith, times-insert k i js)

times-sort : (k : ℤ) (is : List ℤ) → times k (sort_ids is) ≡ times k is
unfolding times sort_ids
times-sort k [] = refl
times-sort k (i ∷ is) = omega (arith, times-insert k i (sort_ids is), times-sort k is)

insert-IsAscending :
    (i : ℤ) (js : List ℤ) → times i js ≡ 0 → IsAscending js → IsAscending (insert_id i js)
unfolding times insert_id
insert-IsAscending i [] t a = (tt, tt)
insert-IsAscending i (j ∷ js) t a = elim (Bool-cases (int_lt j i)) [
  | inl later ↦
      rw later (IsBelowAll-insert j i js later a.0, insert-IsAscending i js (ground arith) a.1)
  | inr first ↦
      let other : int_eq j i ≡ false = ground arith in
      let below : int_lt i j ≡ true = int_lt_total j i first other in
      rw first ((below, IsBelowAll-lt i j js below a.0), a)
]

sort_ids-IsAscending : (is : List ℤ) → IsOnce is → IsAscending (sort_ids is)
unfolding times sort_ids
sort_ids-IsAscending [] once = tt
sort_ids-IsAscending (i ∷ is) once =
    insert-IsAscending i (sort_ids is) (ground (arith, times-sort i is, once i, int_eq_refl i))
      (sort_ids-IsAscending is (λ k. ground (arith, once k)))

take_ids-IsOnce :
    (seen : List ℤ) (raw : List Json) (ids : List ℤ)
    → IsOnce seen
    → take_ids seen raw ≡ ok ids
    → IsOnce ids
unfolding take_ids times
take_ids-IsOnce seen [] ids once h = subst IsOnce (cc) once
take_ids-IsOnce seen (v ∷ vs) ids once h = elim (Option-cases (safe_integer v)) [
  | inl bad ↦ absurd (ground arith)
  | inr (i, e) ↦ elim (Bool-cases (has_id seen i)) [
    | inl old ↦ absurd (ground arith)
    | inr new ↦
        take_ids-IsOnce (seen ++ i ∷ []) vs ids
          (λ k. elim (Bool-cases (int_eq i k)) [
            | inl same ↦
                let none_yet : times k seen ≡ 0 =
                  subst (λ (j : ℤ). times j seen ≡ 0) ((int_eq_iff i k).0 same)
                    (not_has_id-times seen i new) in
                ground (arith, times-append k seen (i ∷ []))
            | inr other ↦ ground (arith, times-append k seen (i ∷ []), once k)
          ])
          (ground arith)
  ]
]

ids_of-IsAscending : (value : Option Json) (ids : List ℤ) → ids_of value ≡ ok ids → IsAscending ids
unfolding times
ids_of-IsAscending none ids h = cc
ids_of-IsAscending (some null) ids h = let same : [] ≡ ids = cc in subst IsAscending same tt
ids_of-IsAscending (some (array raw)) ids h =
    let (seen, t, k) = >>=-eq-ok (take_ids [] (items_of raw)) _ h in
    let same : sort_ids seen ≡ ids = cc in
    subst IsAscending same
      (sort_ids-IsAscending seen (take_ids-IsOnce [] (items_of raw) seen (λ k. omega arith) t))
ids_of-IsAscending (some other) ids h = cc

pub validate_object_ids-IsAscending :
    (json : Fields) (field : Text) (ids : List ℤ)
    → validate_object_ids json field ≡ ok ids
    → IsAscending ids
unfolding validate_object_ids
validate_object_ids-IsAscending json field ids h =
    let (u, e, h₁) = >>=-eq-ok (check_exceeded (get (text "exceededTransferLimit") json)) _ h in
    let (v, d, h₂) = >>=-eq-ok (check_declared field (get (text "objectIdFieldName") json)) _ h₁ in
    ids_of-IsAscending (get (text "objectIds") json) ids h₂
