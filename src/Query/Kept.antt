-- ===== src/Query/Kept.antt =====
-- The loop of `executeFeatureServiceQuery` loses and repeats no identifier.
use dymaxion.Prelude.{
  ℕ, ◌+◌, ◌≤◌, ◌≡◌, sym, ap, ◌∙◌, Text, Option, true, false, ◌==◌, List, [], ◌∷◌, ◌++◌, length,
  take, drop, take-append-drop, ok, arith, inl, inr, Bool-cases, Result-cases, Among, Among-append,
  ◌⊎◌,
}
use mathlib.Core.List.{map-append, append-nil, append_assoc}
use mathlib.Core.Path.{subst}
use dymaxion.Prelude.Int.{ℤ, int_eq_refl}
use dymaxion.ArcGis.Rest.{JsonResult}
use dymaxion.ArcGis.Session.{Outside}
use dymaxion.Query.Metadata.{Sanitizers, LayerMetadata}
use dymaxion.Query.Ids.{has_id}
use dymaxion.Query.Counting.{times, times-append, has_id-times, not_has_id-times}
use dymaxion.Query.Page.{Feature, FeaturePage, PageQuery, ids_of_features, validate_feature_page}
use dymaxion.Query.PageLaws.{names_of, IsWhole, validate_feature_page-IsWhole}
use dymaxion.Query.Collect.{
  QueryInput, Collection, check_wkid, collect_page, half, after_page, take_batch, query_of,
  expected_wkid,
}

-- Each identifier stands there at most once.
abbrev pub IsOnce : List ℤ → Type 0
IsOnce ids = (i : ℤ) → times i ids ≤ 1

unfoldable pub flat : List (List ℤ) → List ℤ
flat [] = []
flat (b ∷ bs) = b ++ flat bs

-- A whole page has just the identifiers of its batch.
IsWhole-times :
    (sanitizers : Sanitizers) (query : PageQuery) (features : List Feature)
    → IsOnce query.batch
    → IsWhole sanitizers query features
    → (i : ℤ) → times i (ids_of_features features) ≡ times i query.batch
IsWhole-times sanitizers query features once whole i = elim (Bool-cases (has_id query.batch i)) [
  | inl asked ↦ omega (
    arith,
    has_id-times query.batch i asked,
    once i,
    has_id-times (ids_of_features features) i (whole.came i asked),
    whole.taken.once i,
  )
  | inr other ↦ elim (Bool-cases (has_id (ids_of_features features) i)) [
    | inl came ↦ absurd (cc (whole.taken.requested i came))
    | inr absent ↦
        not_has_id-times (ids_of_features features) i absent
        ∙ sym (not_has_id-times query.batch i other)
  ]
]

ids-append :
    (xs ys : List Feature) → ids_of_features (xs ++ ys) ≡ ids_of_features xs ++ ids_of_features ys
ids-append xs ys = map-append (λ f. f.id) xs ys

times-ids-append :
    (i : ℤ) (xs ys : List Feature)
    → times i (ids_of_features (xs ++ ys))
      ≡ times i (ids_of_features xs) + times i (ids_of_features ys)
times-ids-append i xs ys = rw ids-append (times-append i (ids_of_features xs) (ids_of_features ys))

-- A page whose identifiers are new is collected whole.
collect_page-append :
    (collected features : List Feature)
    → ((i : ℤ) → times i (ids_of_features collected) + times i (ids_of_features features) ≤ 1)
    → collect_page collected features ≡ ok (collected ++ features)
unfolding collect_page times
collect_page-append collected [] fresh = ap ok (sym (append-nil collected))
collect_page-append collected (f ∷ fs) fresh =
    elim (Bool-cases (has_id (ids_of_features collected) f.id)) [
      | inl old ↦ absurd (
          ground (
            arith,
            fresh f.id,
            has_id-times (ids_of_features collected) f.id old,
            int_eq_refl f.id,
          ))
      | inr new ↦ rw new (
          collect_page-append (collected ++ f ∷ []) fs
            (λ i. omega (arith, fresh i, times-ids-append i collected (f ∷ [])))
          ∙ ap ok (append_assoc collected (f ∷ []) fs))
    ]

-- What the loop has and what is pending are together just what has been selected.
pub record IsKept (fields : List Text) (selected : List ℤ) (pending : List (List ℤ))
    (collected : List Feature) : Type 0 where
  pub kept :
      (i : ℤ) → times i (ids_of_features collected) + times i (flat pending) ≡ times i selected
  pub names : (f : Feature) → Among f collected → names_of f ≡ fields

split-IsKept :
    (fields : List Text) (selected batch : List ℤ) (rest : List (List ℤ)) (collected : List Feature)
    → IsKept fields selected (batch ∷ rest) collected
    → IsKept fields selected (take (half batch) batch ∷ drop (half batch) batch ∷ rest) collected
unfolding flat
split-IsKept fields selected batch rest collected k =
    let first = take (half batch) batch in
    let second = drop (half batch) batch in
    let whole : first ++ second ≡ batch = take-append-drop (half batch) batch in
    record {
      kept = λ i. omega (
        arith,
        k.kept i,
        times-append i first (second ++ flat rest),
        times-append i second (flat rest),
        times-append i batch (flat rest),
        times-append i first second,
        ap (times i) whole,
      );
      names = k.names;
    }

page-IsKept :
    (sanitizers : Sanitizers) (query : PageQuery) (selected : List ℤ) (rest : List (List ℤ))
    (collected features : List Feature)
    → IsOnce selected
    → IsKept query.effective_fields selected (query.batch ∷ rest) collected
    → IsWhole sanitizers query features
    → (collect_page collected features ≡ ok (collected ++ features))
      × IsKept query.effective_fields selected rest (collected ++ features)
unfolding flat
page-IsKept sanitizers query selected rest collected features once k whole =
    let batch_once : IsOnce query.batch =
      λ i. omega (arith, once i, k.kept i, times-append i query.batch (flat rest)) in
    let same = IsWhole-times sanitizers query features batch_once whole in
    (
      collect_page-append collected features
          (λ i. omega (arith, once i, k.kept i, times-append i query.batch (flat rest), same i)),
      record {
        kept = λ i. omega (
          arith,
          k.kept i,
          times-append i query.batch (flat rest),
          same i,
          times-ids-append i collected features,
        );
        names = λ f a. elim (Among-append f collected features a) [
          | inl before ↦ k.names f before
          | inr new ↦ whole.taken.names f new
        ];
      },
    )

module _ (outside : Outside) (sanitizers : Sanitizers) (input : QueryInput)
    (metadata : LayerMetadata) (fields : List Text) where
  -- What one page makes of what is pending and collected
  after_page-IsKept :
      (selected batch : List ℤ) (rest pending : List (List ℤ)) (c c' : Collection) (wkid : Option ℕ)
      (page : FeaturePage)
      → IsOnce selected
      → IsKept fields selected (batch ∷ rest) c.collected
      → (page.exceeded ≡ true)
        ⊎ ((page.exceeded ≡ false)
            × IsWhole sanitizers
                (query_of outside sanitizers input metadata fields batch)
                page.features)
      → after_page batch rest c wkid page ≡ ok (pending, c')
      → IsKept fields selected pending c'.collected
  unfolding after_page
  after_page-IsKept selected batch rest pending c c' wkid page once k (inl exceeded) h =
      elim (Bool-cases (length batch == 1)) [
        | inl single ↦ absurd (ground arith)
        | inr several ↦
            let p : (take (half batch) batch ∷ drop (half batch) batch ∷ rest) ≡ pending =
              ground arith in
            let d : c.collected ≡ c'.collected = ground arith in
            subst (λ (q : List (List ℤ)). IsKept fields selected q c'.collected) p
              (subst
                (λ (l : List Feature).
                  IsKept fields selected (take (half batch) batch ∷ drop (half batch) batch ∷ rest)
                    l)
                d (split-IsKept fields selected batch rest c.collected k))
      ]
  after_page-IsKept selected batch rest pending c c' wkid page once k (inr (shown, whole)) h =
      let (collects, kept) =
        page-IsKept sanitizers (query_of outside sanitizers input metadata fields batch) selected
          rest c.collected page.features once k whole in
      let p : rest ≡ pending = ground arith in
      let d : c.collected ++ page.features ≡ c'.collected = ground arith in
      subst (λ (q : List (List ℤ)). IsKept fields selected q c'.collected) p
        (subst (λ (l : List Feature). IsKept fields selected rest l) d kept)

  pub take_batch-IsKept :
      (selected batch : List ℤ) (rest pending : List (List ℤ)) (c c' : Collection)
      (page : JsonResult)
      → IsOnce selected
      → IsKept fields selected (batch ∷ rest) c.collected
      → take_batch outside sanitizers input metadata fields batch rest c page ≡ ok (pending, c')
      → IsKept fields selected pending c'.collected
  unfolding take_batch
  take_batch-IsKept selected batch rest pending c c' page once k h =
      let query = query_of outside sanitizers input metadata fields batch in
      elim (Result-cases (validate_feature_page sanitizers query page.json)) [
        | inr (e, bad) ↦ absurd (ground arith)
        | inl (page', good) ↦
            elim (Result-cases (
              check_wkid (expected_wkid outside sanitizers input metadata fields) c.verified_wkid
                page'.wkid)) [
                  | inr (e, bad) ↦ absurd (ground arith)
                  | inl (wkid, same) ↦
                      after_page-IsKept selected batch rest pending c c' wkid page' once k
                        (validate_feature_page-IsWhole sanitizers query page.json page' good)
                        (ground arith)
                ]
      ]
