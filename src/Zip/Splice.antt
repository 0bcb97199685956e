-- ===== src/Zip/Splice.antt =====
-- Writes of deterministic-zip.ts into an array that is split where they go.
use dymaxion.Prelude.{
  ℕ, suc, ◌+◌, ◌≡◌, refl, sym, ap, ◌∙◌, leb, true, List, [], ◌∷◌, ◌++◌, ok, ◌>>=◌, length, take,
  drop, length-append, take-append-drop, length-take, length-drop, arith,
}
use mathlib.Core.List.{append_assoc}
use dymaxion.Zip.Bytes.{Bytes, Field, write, write_fields}

take-append : (xs ys : Bytes) → take (length xs) (xs ++ ys) ≡ xs
take-append [] ys = refl
take-append (x ∷ xs) ys = ap (λ t. x ∷ t) (take-append xs ys)

pub drop-append : (n : ℕ) (xs ys : Bytes) → drop (length xs + n) (xs ++ ys) ≡ drop n ys
drop-append n [] ys = ap (λ k. drop k ys) (omega arith)
drop-append n (x ∷ xs) ys =
    let e : suc (length xs) + n ≡ suc (length xs + n) = omega arith in rw e (drop-append n xs ys)

-- A write over a part of its own length replaces that part.
pub write-splice :
    (pre mid post bs : Bytes) (offset : ℕ)
    → length pre ≡ offset
    → length mid ≡ length bs
    → write (pre ++ (mid ++ post)) offset bs ≡ ok (pre ++ (bs ++ post))
unfolding write
write-splice pre mid post bs offset at same =
    let fits : leb (offset + length bs) (length (pre ++ (mid ++ post))) ≡ true =
      ground (arith, length-append pre (mid ++ post), length-append mid post) in
    let front : take offset (pre ++ (mid ++ post)) ≡ pre =
      rw (← at) (take-append pre (mid ++ post)) in
    let back : drop (offset + length bs) (pre ++ (mid ++ post)) ≡ post =
      rw (← at, ← same)
        (drop-append (length mid) pre (mid ++ post)
          ∙ (ap (λ k. drop k (mid ++ post)) (omega arith) ∙ drop-append 0 mid post)) in
    rw fits (rw (front, back))

-- The bytes of a row of fields, and that each field stands where the one before it ends.
abbrev pub concat_fields : List Field → Bytes
concat_fields [] = []
concat_fields ((k, bs) ∷ fs) = bs ++ concat_fields fs

abbrev pub IsContiguous : ℕ → List Field → Type 0
IsContiguous n [] = Unit {0}
IsContiguous n ((k, bs) ∷ fs) = (k ≡ n) × IsContiguous (n + length bs) fs

pub write_fields-splice :
    (fs : List Field) (n : ℕ) (pre mid post : Bytes) (offset : ℕ)
    → IsContiguous n fs
    → length pre ≡ offset + n
    → length mid ≡ length (concat_fields fs)
    → write_fields (pre ++ (mid ++ post)) offset fs ≡ ok (pre ++ (concat_fields fs ++ post))
unfolding write_fields
write_fields-splice [] n pre [] post offset c at same = refl
write_fields-splice [] n pre (m ∷ mid) post offset c at same = absurd (omega arith)
write_fields-splice ((k, bs) ∷ fs) n pre mid post offset (here, rest) at same =
    let size = length-append bs (concat_fields fs) in
    let m₁ = take (length bs) mid in
    let m₂ = drop (length bs) mid in
    let split : mid ++ post ≡ m₁ ++ (m₂ ++ post) =
      ap (λ t. t ++ post) (sym (take-append-drop (length bs) mid)) ∙ append_assoc m₁ m₂ post in
    let first =
      write-splice pre m₁ (m₂ ++ post) bs (offset + k) (omega arith)
        (omega (arith, length-take (length bs) mid)) in
    let later =
      write_fields-splice fs (n + length bs) (pre ++ bs) m₂ post offset rest
        (omega (arith, length-append pre bs)) (omega (arith, length-drop (length bs) mid)) in
    rw split (
      rw (first, ◌>>=◌)
        (rw (← append_assoc pre bs (m₂ ++ post)) (
          later
          ∙ ap ok (
              append_assoc pre bs (concat_fields fs ++ post)
              ∙ ap (λ t. pre ++ t) (sym (append_assoc bs (concat_fields fs) post))))))
