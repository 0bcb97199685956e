-- ===== src/Query/Exact.antt =====
-- What `executeFeatureServiceQuery` reports.
use dymaxion.Prelude.{
  suc, ◌≡◌, refl, sym, ap, ◌∙◌, Text, some, true, List, [], ◌∷◌, length, ok, arith, inl, inr,
  Bool-cases, Among,
}
use mathlib.Core.Path.{subst}
use dymaxion.Prelude.Int.{ℤ, int_eq, int_eq_iff, int_eq_refl}
use dymaxion.Query.Ids.{has_id}
use dymaxion.Query.Counting.{times, has_id-times, times-has_id, length_of_times}
use dymaxion.Query.Page.{Feature, ids_of_features}
use dymaxion.Query.PageLaws.{names_of}
use dymaxion.Query.Collect.{find_feature, pick, finish}
use dymaxion.Query.Kept.{IsKept, flat}

find_feature-has_id :
    (features : List Feature) (i : ℤ)
    → has_id (ids_of_features features) i ≡ true
    → (f : Feature) × (find_feature features i ≡ some f) × (f.id ≡ i) × Among f features
unfolding find_feature has_id
find_feature-has_id [] i h = cc
find_feature-has_id (f ∷ fs) i h = elim (Bool-cases (int_eq f.id i)) [
  | inl same ↦ (f, rw same, (int_eq_iff f.id i).0 same, inl refl)
  | inr other ↦
      let (g, found, named, among) = find_feature-has_id fs i (ground arith) in
      (g, rw other found, named, inr among)
]

-- The features that are picked, where each identifier has one
record Picked (features : List Feature) (ids : List ℤ) : Type 0 where
  picked : List Feature
  found : pick features ids ≡ ok picked
  ids_of : ids_of_features picked ≡ ids
  among : (f : Feature) → Among f picked → Among f features

pick-Picked :
    (features : List Feature) (ids : List ℤ)
    → ((i : ℤ) → has_id ids i ≡ true → has_id (ids_of_features features) i ≡ true)
    → Picked features ids
unfolding pick has_id
pick-Picked features [] all = record {
  picked = [];
  found = refl;
  ids_of = refl;
  among = λ f a. absurd a;
}
pick-Picked features (i ∷ ids) all =
    let (f, found, named, among) =
      find_feature-has_id features i (all i (ground (arith, int_eq_refl i))) in
    let rest : Picked features ids = pick-Picked features ids (λ k h. all k (ground arith)) in
    record {
      picked = f ∷ rest.picked;
      found = ground (arith, found, rest.found);
      ids_of = cc (named, rest.ids_of);
      among = λ g a. elim a [
        | inl same ↦ subst (λ (h : Feature). Among h features) same among
        | inr later ↦ rest.among g later
      ];
    }

length-ids : (features : List Feature) → length (ids_of_features features) ≡ length features
length-ids [] = refl
length-ids (f ∷ fs) = ap suc (length-ids fs)

-- A collection with just the selected identifiers passes the last checks.
pub finish-exact :
    (fields : List Text) (selected : List ℤ) (collected : List Feature)
    → IsKept fields selected [] collected
    → (features : List Feature) × (finish selected collected ≡ ok features)
      × (ids_of_features features ≡ selected)
      × ((f : Feature) → Among f features → names_of f ≡ fields)
unfolding finish flat times
finish-exact fields selected collected k =
    let same : (i : ℤ) → times i (ids_of_features collected) ≡ times i selected =
      λ i. omega (arith, k.kept i) in
    let size : length collected ≡ length selected =
      sym (length-ids collected) ∙ length_of_times (ids_of_features collected) selected same in
    let all : (i : ℤ) → has_id selected i ≡ true → has_id (ids_of_features collected) i ≡ true =
      λ i h.
        times-has_id (ids_of_features collected) i
          (omega (arith, same i, has_id-times selected i h)) in
    let made : Picked collected selected = pick-Picked collected selected all in
    (made.picked, ground (arith, made.found), made.ids_of, λ f a. k.names f (made.among f a))
