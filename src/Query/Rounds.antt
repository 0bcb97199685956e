-- ===== src/Query/Rounds.antt =====
-- The loop of `executeFeatureServiceQuery` ends, and with what.
use dymaxion.Prelude.{
  ℕ, zero, suc, ◌+◌, ◌≤◌, ◌<◌, ◌≡◌, refl, ap, ◌∙◌, Text, Option, none, some, leb, List, [], ◌∷◌,
  ◌++◌, length, take, drop, take-append-drop, length-drop, Result, ok, err, arith, inl, inr,
  Bool-cases,
}
use dymaxion.Prelude.Int.{ℤ}
use dymaxion.Prelude.Stateful.{continue, continue-eq-run}
use dymaxion.ArcGis.Session.{Failure, Outside, Session, throw_if_aborted}
use dymaxion.ArcGis.Rest.{JsonResult}
use dymaxion.ArcGis.Counted.{Call}
use dymaxion.ArcGis.Accounting.{request_counted-IsCounted}
use dymaxion.Query.Metadata.{Sanitizers, LayerMetadata}
use dymaxion.Query.Counting.{times}
use dymaxion.Query.Collect.{
  QueryInput, Collection, no_features, batches, take_batch, dispatch, request_batch, collect,
  rounds_of,
}
use dymaxion.Query.Kept.{IsOnce, IsKept, flat, take_batch-IsKept}

-- With batches of one identifier or more, as many rounds as there are identifiers hold them all.
pub flat-batches :
    (rounds size : ℕ) (ids : List ℤ)
    → 1 ≤ size
    → length ids ≤ rounds
    → flat (batches rounds size ids) ≡ ids
unfolding flat batches
flat-batches zero size [] s r = refl
flat-batches zero size (i ∷ is) s r = absurd (omega arith)
flat-batches (suc rounds) size [] s r = refl
flat-batches (suc rounds) size (i ∷ is) s r =
    ap (λ (l : List ℤ). take size (i ∷ is) ++ l)
      (flat-batches rounds size (drop size (i ∷ is)) s (omega (arith, length-drop size (i ∷ is))))
    ∙ take-append-drop size (i ∷ is)

module _ (outside : Outside) (sanitizers : Sanitizers) where
  -- A dispatch that returns has used up one request of those that were left.
  dispatch-count :
      (call : Call) (s : Session) (page : JsonResult)
      → (dispatch outside sanitizers call s).0 ≡ ok page
      → (s.budget.request_count < s.budget.max_requests)
        × ((dispatch outside sanitizers call s).1.budget.request_count ≡ s.budget.request_count + 1)
        × ((dispatch outside sanitizers call s).1.budget.max_requests ≡ s.budget.max_requests)
  unfolding dispatch
  dispatch-count call s page h =
      let counted = request_counted-IsCounted outside call s in
      elim (Bool-cases (leb s.budget.max_requests s.budget.request_count)) [
        | inl spent ↦ absurd (ground arith)
        | inr room ↦ (ground arith, rw room counted.count, rw room counted.max_requests)
      ]

  module _ (input : QueryInput) (metadata : LayerMetadata) (fields : List Text) where
    -- What a round does where it returns: the page has been taken, and one request is used up.
    request_batch-parts :
        (batch : List ℤ) (rest pending : List (List ℤ)) (c c' : Collection) (s : Session)
        → (request_batch outside sanitizers input metadata fields batch rest c s).0
          ≡ ok (pending, c')
        → (page : JsonResult) × (take_batch outside sanitizers input metadata fields batch rest c
              page
            ≡ ok (pending, c'))
          × (s.budget.request_count < s.budget.max_requests)
          × ((request_batch outside sanitizers input metadata fields batch rest c
                s).1.budget.request_count
              ≡ s.budget.request_count + 1)
          × ((request_batch outside sanitizers input metadata fields batch rest c
                s).1.budget.max_requests
              ≡ s.budget.max_requests)
    unfolding request_batch throw_if_aborted
    request_batch-parts batch rest pending c c' s h =
        let (u, a, h₁, e₁) = continue-eq-run (throw_if_aborted outside s) _ h in
        let (page, d, h₂, e₂) =
          continue-eq-run (dispatch outside sanitizers (input.features_call (c.attempt + 1) _) _) _
            h₁ in
        let (room, count, ceiling) = dispatch-count _ _ page d in
        (page, h₂, room, rw (e₁, e₂) count, rw (e₁, e₂) ceiling)

    -- The outcomes of the loop: it does not run out of rounds, and what it returns has just the
    -- selected identifiers.
    abbrev pub Completes : List ℤ → Result Failure (Option Collection) → Type 0
    Completes selected (ok none) = ⊥
    Completes selected (ok (some c)) = IsKept fields selected [] c.collected
    Completes selected (err e) = Unit {0}

    next-Completes :
        (selected : List ℤ) (rounds : ℕ)
        (before : Result Failure (List (List ℤ) × Collection) × Session)
        → ((pending : List (List ℤ)) (c : Collection)
            → before.0 ≡ ok (pending, c)
            → Completes selected
                (collect outside sanitizers input metadata fields rounds pending c before.1).0)
        → Completes selected
            (continue
              (λ (pending, c). collect outside sanitizers input metadata fields rounds pending c)
              before).0
    next-Completes selected rounds (ok (pending, c), s) rest = rest pending c refl
    next-Completes selected rounds (err e, s) rest = tt

    collect-Completes :
        (selected : List ℤ) (rounds : ℕ) (pending : List (List ℤ)) (c : Collection) (s : Session)
        → IsOnce selected
        → IsKept fields selected pending c.collected
        → 1 ≤ rounds
        → s.budget.max_requests < s.budget.request_count + rounds
        → Completes selected (collect outside sanitizers input metadata fields rounds pending c s).0
    unfolding collect
    collect-Completes selected zero [] c s once k one room = k
    collect-Completes selected (suc rounds) [] c s once k one room = k
    collect-Completes selected zero (batch ∷ rest) c s once k one room = absurd (omega arith)
    collect-Completes selected (suc rounds) (batch ∷ rest) c s once k one room =
        next-Completes selected rounds
          (request_batch outside sanitizers input metadata fields batch rest c s)
          λ pending c' e.
            let (page, taken, left, count, ceiling) =
              request_batch-parts batch rest pending c c' s e in
            collect-Completes selected rounds pending c'
              (request_batch outside sanitizers input metadata fields batch rest c s).1 once
              (take_batch-IsKept outside sanitizers input metadata fields selected batch rest
                pending c c' page once k taken)
              (omega arith) (omega arith)

    -- From batches of a positive size of identifiers that are each there once, the loop ends within
    -- its rounds, one for each request that is left and one more, however often the server has pages
    -- split: it throws, or it returns a collection whose features are those of just these
    -- identifiers, each once and with just the effective fields.
    pub collect-batches-Completes :
        (selected : List ℤ) (size : ℕ) (s : Session)
        → IsOnce selected
        → 1 ≤ size
        → Completes selected
            (collect outside sanitizers input metadata fields
              (rounds_of s)
              (batches (length selected) size selected)
              no_features
              s).0
    unfolding times
    collect-batches-Completes selected size s once positive =
        collect-Completes selected (rounds_of s) (batches (length selected) size selected)
          no_features s once
          (record {
            kept = λ i. omega (
              arith,
              ap (times i) (flat-batches (length selected) size selected positive (omega arith)),
            );
            names = λ f a. absurd a;
          })
          (omega arith) (omega arith)
