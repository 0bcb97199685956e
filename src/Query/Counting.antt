-- ===== src/Query/Counting.antt =====
-- How often an identifier stands in a list: two lists that agree in this have one length.
use dymaxion.Prelude.{
  ℕ, suc, ◌+◌, ◌≤◌, ◌≡◌, refl, true, false, if◌then◌else◌, List, [], ◌∷◌, ◌++◌, length, arith,
}
use dymaxion.Prelude.Int.{ℤ, int_eq, int_eq_iff, int_eq_refl}
use dymaxion.Query.Ids.{has_id}

unfoldable pub times : ℤ → List ℤ → ℕ
times i [] = 0
times i (j ∷ js) = (if int_eq j i then 1 else 0) + times i js

pub times-append : (i : ℤ) (xs ys : List ℤ) → times i (xs ++ ys) ≡ times i xs + times i ys
unfolding times
times-append i [] ys = omega arith
times-append i (x ∷ xs) ys = omega (arith, times-append i xs ys)

pub has_id-times : (xs : List ℤ) (i : ℤ) → has_id xs i ≡ true → 1 ≤ times i xs
unfolding times has_id
has_id-times [] i h = cc
has_id-times (x ∷ xs) i h = ground (arith, has_id-times xs i)

pub times-has_id : (xs : List ℤ) (i : ℤ) → 1 ≤ times i xs → has_id xs i ≡ true
unfolding times has_id
times-has_id [] i h = absurd (omega arith)
times-has_id (x ∷ xs) i h = ground (arith, times-has_id xs i)

pub not_has_id-times : (xs : List ℤ) (i : ℤ) → has_id xs i ≡ false → times i xs ≡ 0
unfolding times has_id
not_has_id-times [] i h = refl
not_has_id-times (x ∷ xs) i h = ground (arith, not_has_id-times xs i)

-- The list without one of the identifier's places
without : ℤ → List ℤ → List ℤ
without i [] = []
without i (j ∷ js) = let rest = j ∷ without i js in if int_eq j i then js else rest

length-without : (i : ℤ) (xs : List ℤ) → 1 ≤ times i xs → length xs ≡ suc (length (without i xs))
unfolding times without
length-without i [] h = absurd (omega arith)
length-without i (x ∷ xs) h = ground (arith, length-without i xs)

times-without :
    (i k : ℤ) (xs : List ℤ)
    → 1 ≤ times i xs
    → times k xs ≡ (if int_eq i k then 1 else 0) + times k (without i xs)
unfolding times without
times-without i k [] h = absurd (omega arith)
times-without i k (x ∷ xs) h =
    ground (arith, times-without i k xs, int_eq_iff x i, int_eq_iff x k, int_eq_iff i k)

pub length_of_times : (xs ys : List ℤ) → ((i : ℤ) → times i xs ≡ times i ys) → length xs ≡ length ys
unfolding times
length_of_times [] [] same = refl
length_of_times [] (y ∷ ys) same = absurd (ground (arith, same y, int_eq_refl y))
length_of_times (x ∷ xs) ys same =
    let there : 1 ≤ times x ys = ground (arith, same x, int_eq_refl x) in
    let rest : (i : ℤ) → times i xs ≡ times i (without x ys) =
      λ i. omega (arith, same i, times-without x i ys there) in
    omega (arith, length_of_times xs (without x ys) rest, length-without x ys there)
