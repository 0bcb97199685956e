-- ===== src/Trace/Reach.antt =====
-- The sets and the queue of `reachableCount` in trace-arcgis-dependencies.ts.
use dymaxion.Prelude.{
  ◌≤◌, ◌≡◌, refl, Text, text_eq, text_eq_iff, true, false, if◌then◌else◌, List, [], ◌∷◌, ◌++◌,
  length, arith, inl, inr, Bool-cases, Among,
}
use dymaxion.Trace.Impact.{has_member, delete_member, unseen}

pub has_member-Among : (xs : List Text) (x : Text) → has_member xs x ≡ true → Among x xs
unfolding has_member
has_member-Among [] x h = cc
has_member-Among (y ∷ ys) x h = elim (Bool-cases (text_eq y x)) [
  | inl same ↦ inl ((text_eq_iff y x).0 same)
  | inr other ↦ inr (has_member-Among ys x (ground arith))
]

pub Among-has_member : (xs : List Text) (x : Text) → Among x xs → has_member xs x ≡ true
unfolding has_member
Among-has_member (y ∷ ys) x (inl same) = rw ((text_eq_iff y x).1 same) refl
Among-has_member (y ∷ ys) x (inr rest) = ground (arith, Among-has_member ys x rest)
Among-has_member [] x a = absurd a

pub Among-left : (x : Text) (xs ys : List Text) → Among x xs → Among x (xs ++ ys)
Among-left x (y ∷ xs) ys (inl same) = inl same
Among-left x (y ∷ xs) ys (inr rest) = inr (Among-left x xs ys rest)
Among-left x [] ys a = absurd a

pub Among-right : (x : Text) (xs ys : List Text) → Among x ys → Among x (xs ++ ys)
Among-right x [] ys a = a
Among-right x (y ∷ xs) ys a = inr (Among-right x xs ys a)

-- Each member stands once.
abbrev pub AreOnce : List Text → Type 0
AreOnce [] = Unit {0}
AreOnce (x ∷ xs) = (has_member xs x ≡ false) × AreOnce xs

delete_member-has :
    (xs : List Text) (x y : Text)
    → has_member xs y ≡ false
    → has_member (delete_member xs x) y ≡ false
unfolding delete_member has_member
delete_member-has [] x y h = refl
delete_member-has (z ∷ xs) x y h = ground (arith, delete_member-has xs x y)

pub delete_member-AreOnce : (xs : List Text) (x : Text) → AreOnce xs → AreOnce (delete_member xs x)
unfolding delete_member
delete_member-AreOnce [] x once = tt
delete_member-AreOnce (y ∷ xs) x (fresh, once) = elim (Bool-cases (text_eq y x)) [
  | inl same ↦ rw same (delete_member-AreOnce xs x once)
  | inr other ↦ rw other (delete_member-has xs x y fresh, delete_member-AreOnce xs x once)
]

pub has_member-delete_member :
    (xs : List Text) (x y : Text)
    → has_member (delete_member xs x) y ≡ (if text_eq x y then false else has_member xs y)
unfolding delete_member has_member
has_member-delete_member [] x y = ground arith
has_member-delete_member (z ∷ xs) x y =
    ground
      (arith, has_member-delete_member xs x y, text_eq_iff z x, text_eq_iff x y, text_eq_iff z y)

pub Among-unseen :
    (seen xs : List Text) (x : Text)
    → Among x xs
    → has_member seen x ≡ false
    → Among x (unseen seen xs)
unfolding unseen
Among-unseen seen (y ∷ xs) x (inl same) fresh =
    let fresh' : has_member seen y ≡ false = rw same fresh in rw fresh' (inl same)
Among-unseen seen (y ∷ xs) x (inr rest) fresh = elim (Bool-cases (has_member seen y)) [
  | inl old ↦ rw old (Among-unseen seen xs x rest fresh)
  | inr new ↦ rw new (inr (Among-unseen seen xs x rest fresh))
]
Among-unseen seen [] x a fresh = absurd a

pub unseen-Among : (seen xs : List Text) (x : Text) → Among x (unseen seen xs) → Among x xs
unfolding unseen
unseen-Among seen [] x a = a
unseen-Among seen (y ∷ xs) x a = elim (Bool-cases (has_member seen y)) [
  | inl old ↦ inr (unseen-Among seen xs x (rw old at a))
  | inr new ↦ elim (rw new at a) [
    | inl same ↦ inl same
    | inr rest ↦ inr (unseen-Among seen xs x rest)
  ]
]

pub length-unseen : (seen xs : List Text) → length (unseen seen xs) ≤ length xs
unfolding unseen
length-unseen seen [] = omega arith
length-unseen seen (x ∷ xs) = ground (arith, length-unseen seen xs)
