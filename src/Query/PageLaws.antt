-- ===== src/Query/PageLaws.antt =====
-- What a page is that `validateFeaturePage` of query-feature-service.ts lets through.
use dymaxion.Prelude.{
  ℕ, ◌+◌, ◌≤◌, ◌≡◌, Text, text, Option, Bool, true, false, not, if◌then◌else◌, List, [], ◌∷◌, ◌++◌,
  map, ok, >>=-eq-ok, throw_if-eq-ok, arith, inl, inr, Bool-cases, Option-cases, Among,
  Among-append, ◌⊎◌,
}
use mathlib.Core.List.{map-append}
use mathlib.Core.Path.{subst}
use dymaxion.Prelude.Int.{ℤ, int_eq, int_eq_iff}
use dymaxion.ArcGis.Json.{Json, Fields, get, entries_of, array_items}
use dymaxion.Query.Metadata.{Sanitizers}
use dymaxion.Query.Ids.{has_id, exceeded_flag}
use dymaxion.Query.Counting.{times, times-append, has_id-times, times-has_id, not_has_id-times}
use dymaxion.Query.Page.{
  Feature, FeaturePage, PageQuery, ids_of_features, own_ids, the_id, match_keys, attribute_of,
  attributes_of, geometry_value, feature_parts, take_feature, take_features, check_omitted,
  required_wkid, page_features, validate_feature_page,
}

abbrev pub names_of : Feature → List Text
names_of f = map (λ a. a.0) f.attributes

module _ (sanitizers : Sanitizers) (query : PageQuery) where
  attributes_of-names :
      (matched : List (Text × Json)) (fields : List Text) (made : List (Text × Json))
      → attributes_of sanitizers matched fields ≡ ok made
      → map (λ a. a.0) made ≡ fields
  unfolding attributes_of
  attributes_of-names matched [] made h = cc
  attributes_of-names matched (f ∷ fs) made h =
      let (v, first, h₁) = >>=-eq-ok (attribute_of sanitizers matched f) _ h in
      let (rest, others, h₂) = >>=-eq-ok (attributes_of sanitizers matched fs) _ h₁ in
      cc (attributes_of-names matched fs rest others)

  -- A feature that is taken was asked for, is new, and has just the effective fields.
  take_feature-parts :
      (collected : List Feature) (raw : Json) (f : Feature)
      → take_feature sanitizers query collected raw ≡ ok f
      → (has_id query.batch f.id ≡ true)
        × (has_id (ids_of_features collected) f.id ≡ false)
        × (names_of f ≡ query.effective_fields)
  unfolding take_feature
  take_feature-parts collected raw f h =
      let ((fs, attributes), p, h₁) = >>=-eq-ok (feature_parts sanitizers raw) _ h in
      let (oid, o, h₂) =
        >>=-eq-ok (the_id (own_ids query.object_id_field (entries_of attributes))) _ h₁ in
      let (requested, h₃) = throw_if-eq-ok (not (has_id query.batch oid)) _ _ h₂ in
      let (fresh, h₄) = throw_if-eq-ok (has_id (ids_of_features collected) oid) _ _ h₃ in
      let (matched, m, h₅) =
        >>=-eq-ok (match_keys query.effective_fields [] (entries_of attributes)) _ h₄ in
      let (values, v, h₆) =
        >>=-eq-ok (attributes_of sanitizers matched query.effective_fields) _ h₅ in
      let (geometry, g, h₇) = >>=-eq-ok (geometry_value sanitizers query.return_geometry _) _ h₆ in
      let made : Feature = record { id = oid; attributes = values; geometry = geometry } in
      let same : made ≡ f = cc in
      subst
        (λ (f : Feature).
          (has_id query.batch f.id ≡ true)
          × (has_id (ids_of_features collected) f.id ≡ false)
          × (names_of f ≡ query.effective_fields))
        same (ground arith, fresh, attributes_of-names matched query.effective_fields values v)

  -- What has been taken so far: identifiers asked for, each once, and just the effective fields
  pub record IsTaken (features : List Feature) : Type 0 where
    pub requested :
        (i : ℤ) → has_id (ids_of_features features) i ≡ true → has_id query.batch i ≡ true
    pub once : (i : ℤ) → times i (ids_of_features features) ≤ 1
    pub names : (f : Feature) → Among f features → names_of f ≡ query.effective_fields

  times-snoc :
      (i : ℤ) (collected : List Feature) (f : Feature)
      → times i (ids_of_features (collected ++ f ∷ []))
        ≡ times i (ids_of_features collected) + (if int_eq f.id i then 1 else 0)
  unfolding times
  times-snoc i collected f =
      rw map-append (omega (arith, times-append i (ids_of_features collected) (f.id ∷ [])))

  IsTaken-snoc :
      (collected : List Feature) (f : Feature)
      → IsTaken collected
      → (has_id query.batch f.id ≡ true)
        × (has_id (ids_of_features collected) f.id ≡ false)
        × (names_of f ≡ query.effective_fields)
      → IsTaken (collected ++ f ∷ [])
  IsTaken-snoc collected f taken (asked, fresh, named) = record {
    requested = λ i h.
        let counted = has_id-times (ids_of_features (collected ++ f ∷ [])) i h in
        elim (Bool-cases (int_eq f.id i)) [
          | inl same ↦
              subst (λ (j : ℤ). has_id query.batch j ≡ true) ((int_eq_iff f.id i).0 same) asked
          | inr other ↦ taken.requested i (
              times-has_id (ids_of_features collected) i (ground (arith, times-snoc i collected f)))
        ];
    once = λ i. elim (Bool-cases (int_eq f.id i)) [
      | inl same ↦
          let none_yet = not_has_id-times (ids_of_features collected) i (
            subst (λ (j : ℤ). has_id (ids_of_features collected) j ≡ false)
              ((int_eq_iff f.id i).0 same) fresh) in
          ground (arith, times-snoc i collected f)
      | inr other ↦ ground (arith, times-snoc i collected f, taken.once i)
    ];
    names = λ g a. elim (Among-append g collected (f ∷ []) a) [
      | inl before ↦ taken.names g before
      | inr (inl same) ↦ subst (λ (h : Feature). names_of h ≡ query.effective_fields) same named
      | inr (inr none_left) ↦ absurd none_left
    ];
  }

  take_features-IsTaken :
      (collected : List Feature) (raw : List Json) (features : List Feature)
      → IsTaken collected
      → take_features sanitizers query collected raw ≡ ok features
      → IsTaken features
  unfolding take_features
  take_features-IsTaken collected [] features taken h = subst IsTaken (cc) taken
  take_features-IsTaken collected (r ∷ raw) features taken h =
      let (f, first, rest) = >>=-eq-ok (take_feature sanitizers query collected r) _ h in
      take_features-IsTaken (collected ++ f ∷ []) raw features
        (IsTaken-snoc collected f taken (take_feature-parts collected r f first)) rest

  check_omitted-has_id :
      (features : List Feature) (batch : List ℤ) (i : ℤ)
      → check_omitted sanitizers query features batch ≡ ok tt
      → has_id batch i ≡ true
      → has_id (ids_of_features features) i ≡ true
  unfolding check_omitted has_id
  check_omitted-has_id features [] i h a = cc
  check_omitted-has_id features (j ∷ batch) i h a =
      let (came, rest) = throw_if-eq-ok (not (has_id (ids_of_features features) j)) _ _ h in
      elim (Bool-cases (int_eq j i)) [
        | inl same ↦
            subst (λ (k : ℤ). has_id (ids_of_features features) k ≡ true) ((int_eq_iff j i).0 same)
              (ground arith)
        | inr other ↦ check_omitted-has_id features batch i rest (ground arith)
      ]

  -- A page that is not cut off
  pub record IsWhole (features : List Feature) : Type 0 where
    pub taken : IsTaken features
    pub came : (i : ℤ) → has_id query.batch i ≡ true → has_id (ids_of_features features) i ≡ true

  no_id : (i : ℤ) → has_id [] i ≡ true → has_id query.batch i ≡ true
  unfolding has_id
  no_id i h = cc

  no_times : (i : ℤ) → times i [] ≤ 1
  unfolding times
  no_times i = omega arith

  page_features-IsWhole :
      (json : Fields) (wkid : Option ℕ) (page : FeaturePage)
      → page_features sanitizers query json wkid ≡ ok page
      → (page.exceeded ≡ false) × IsWhole page.features
  page_features-IsWhole json wkid page h =
      elim (Option-cases (array_items (get (text "features") json))) [
        | inl missing ↦ absurd (ground arith)
        | inr (raw, e) ↦
            let (features, made, h₁) =
              >>=-eq-ok (take_features sanitizers query [] raw) _ (rw (page_features, e) at h) in
            let (u, complete, h₂) =
              >>=-eq-ok (check_omitted sanitizers query features query.batch) _ h₁ in
            let same : features ≡ page.features = cc in
            (
              cc,
              subst IsWhole same (record {
                taken =
                    take_features-IsTaken [] raw features
                      (record {
                        requested = λ i h. no_id i h;
                        once = λ i. no_times i;
                        names = λ f a. absurd a;
                      })
                      made;
                came = λ i a. check_omitted-has_id features query.batch i complete a;
              }),
            )
      ]

  received-IsWhole :
      (exceeded : Bool) (json : Fields) (wkid : Option ℕ) (page : FeaturePage)
      → (if exceeded
          then ok (record { exceeded = true; features = []; wkid = wkid })
          else page_features sanitizers query json wkid)
        ≡ ok page
      → (page.exceeded ≡ true) ⊎ ((page.exceeded ≡ false) × IsWhole page.features)
  received-IsWhole true json wkid page h = inl (cc)
  received-IsWhole false json wkid page h = inr (page_features-IsWhole json wkid page h)

  -- A page is cut off, and has no features, or it is whole.
  pub validate_feature_page-IsWhole :
      (json : Fields) (page : FeaturePage)
      → validate_feature_page sanitizers query json ≡ ok page
      → (page.exceeded ≡ true) ⊎ ((page.exceeded ≡ false) × IsWhole page.features)
  unfolding validate_feature_page
  validate_feature_page-IsWhole json page h =
      elim (Option-cases (exceeded_flag (get (text "exceededTransferLimit") json))) [
        | inl strange ↦ absurd (ground arith)
        | inr (exceeded, e) ↦
            let (wkid, w, h₁) =
              >>=-eq-ok (required_wkid sanitizers query json) _
                (rw (validate_feature_page, e) at h) in
            received-IsWhole exceeded json wkid page h₁
      ]
