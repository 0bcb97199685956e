-- ===== src/Query/Collect.antt =====
-- `executeFeatureServiceQuery` of query-feature-service.ts, up to the features that it reports. The
-- forms are texts that functions make; warnings, caveats and the evidence bundle are left out.
use dymaxion.Prelude.{
  ℕ, zero, suc, ◌+◌, ◌-◌, ◌/◌, Text, text_eq, text_lt, Option, none, some, is_none, get_or_else,
  or_else, Bool, false, not, ◌&&◌, if◌then◌else◌, leb, ◌==◌, List, [], ◌∷◌, ◌++◌, length, take,
  drop, Result, ok, err, lookup,
}
use Prim.Native.Nat.{min}
use dymaxion.Prelude.Int.{ℤ, int_eq}
use dymaxion.Prelude.Stateful.{◌>>=◌, ◌>>◌, lift}
use dymaxion.Boundary.Url.{to_lower}
use dymaxion.ArcGis.Session.{
  Failure, exception, request_ceiling, unknown_field, no_geometry, wkid_mismatch, wkid_inconsistent,
  singleton_exceeded, duplicate_across_batches, retrieval_incomplete, missing_record, out_of_rounds,
  Outside, Session, Action, throw_if_aborted,
}
use dymaxion.ArcGis.Rest.{JsonResult}
use dymaxion.ArcGis.Counted.{Call, request_counted}
use dymaxion.Query.Metadata.{Sanitizers, LayerMetadata, validate_layer_metadata}
use dymaxion.Query.Ids.{has_id, validate_object_ids}
use dymaxion.Query.Page.{Feature, FeaturePage, PageQuery, ids_of_features, validate_feature_page}

abbrev pub max_page_size : ℕ
max_page_size = 2_000

-- The input, with its defaults, and the texts made of it
pub record QueryInput : Type 0 where
  pub layer : ℕ
  pub out_fields : List Text
  pub return_geometry : Bool
  pub out_sr : Option ℕ
  pub page_size : Option ℕ
  pub max_records : ℕ
  pub metadata_call : Call
  pub ids_call : Call
  pub features_call : (attempt : ℕ) → PageQuery → Call

-- `sort()` of names
unfoldable pub insert_name : Text → List Text → List Text
insert_name t [] = t ∷ []
insert_name t (u ∷ us) =
    let later = u ∷ insert_name t us in if text_lt u t then later else t ∷ u ∷ us

unfoldable pub sort_names : List Text → List Text
sort_names [] = []
sort_names (t ∷ ts) = insert_name t (sort_names ts)

unfoldable pub requested_fields : LayerMetadata → List Text → Result Failure (List Text)
requested_fields metadata [] = ok []
requested_fields metadata (f ∷ fs) = elim (lookup (to_lower f) metadata.fields) [
  | none ↦ err (exception unknown_field)
  | some found ↦ elim (requested_fields metadata fs) [
    | ok rest ↦ ok (found.name ∷ rest)
    | err e ↦ err e
  ]
]

unfoldable pub without_name : Text → List Text → List Text
without_name t [] = []
without_name t (u ∷ us) = let rest = without_name t us in if text_eq u t then rest else u ∷ rest

-- `effectiveFields`: the object identifier's, and the requested ones in order
abbrev pub effective_fields : LayerMetadata → List Text → List Text
effective_fields metadata requested =
    metadata.object_id_field ∷ without_name metadata.object_id_field (sort_names requested)

abbrev pub page_size_of : QueryInput → LayerMetadata → ℕ
page_size_of input metadata =
    min (min (get_or_else input.page_size metadata.max_record_count) metadata.max_record_count)
      max_page_size

-- The batches of a page's size each; as many rounds as there are identifiers are enough.
unfoldable pub batches : ℕ → ℕ → List ℤ → List (List ℤ)
batches zero size ids = []
batches (suc rounds) size [] = []
batches (suc rounds) size (i ∷ is) = take size (i ∷ is) ∷ batches rounds size (drop size (i ∷ is))

-- What the loop carries from batch to batch
pub record Collection : Type 0 where
  pub collected : List Feature
  pub verified_wkid : Option ℕ
  pub attempt : ℕ

abbrev pub differs : ℕ → Option ℕ → Bool
differs n none = false
differs n (some m) = not (n == m)

-- The reference of a page: it is the expected one and that of the pages before.
abbrev pub check_wkid : Option ℕ → Option ℕ → Option ℕ → Result Failure (Option ℕ)
check_wkid expected verified none = ok verified
check_wkid expected verified (some n) =
    if differs n expected
    then err (exception wkid_mismatch)
    else if differs n verified
    then err (exception wkid_inconsistent)
    else ok (some n)

-- The features of a page, into the collection
unfoldable pub collect_page : List Feature → List Feature → Result Failure (List Feature)
collect_page collected [] = ok collected
collect_page collected (f ∷ fs) =
    if has_id (ids_of_features collected) f.id
    then err (exception duplicate_across_batches)
    else collect_page (collected ++ f ∷ []) fs

-- `Math.ceil(batch.length / 2)`
abbrev pub half : List ℤ → ℕ
half batch = (length batch + 1) / 2

-- What a page makes of what is pending and of the collection
unfoldable pub after_page :
    List ℤ
    → List (List ℤ)
    → Collection
    → Option ℕ
    → FeaturePage
    → Result Failure (List (List ℤ) × Collection)
after_page batch rest c wkid page =
    if page.exceeded
    then if length batch == 1
      then err (exception singleton_exceeded)
      else ok (
        take (half batch) batch ∷ drop (half batch) batch ∷ rest,
        record { collected = c.collected; verified_wkid = wkid; attempt = c.attempt + 1 },
      )
    else elim (collect_page c.collected page.features) [
      | err e ↦ err e
      | ok collected ↦
          ok (rest, record { collected = collected; verified_wkid = wkid; attempt = c.attempt + 1 })
    ]

-- `collected.get(oid)!` for every selected identifier
unfoldable pub find_feature : List Feature → ℤ → Option Feature
find_feature [] i = none
find_feature (f ∷ fs) i = let rest = find_feature fs i in if int_eq f.id i then some f else rest

unfoldable pub pick : List Feature → List ℤ → Result Failure (List Feature)
pick features [] = ok []
pick features (i ∷ is) = elim (find_feature features i) [
  | none ↦ err (exception missing_record)
  | some f ↦ elim (pick features is) [ ok rest ↦ ok (f ∷ rest) | err e ↦ err e ]
]

unfoldable pub finish : List ℤ → List Feature → Result Failure (List Feature)
finish selected collected =
    if length collected == length selected
    then pick collected selected
    else err (exception retrieval_incomplete)

abbrev pub finish_collection : List ℤ → Option Collection → Result Failure (List Feature)
finish_collection selected none = err (exception out_of_rounds)
finish_collection selected (some c) = finish selected c.collected

-- The parts of the report that are made here
pub record QueryReport : Type 0 where
  pub metadata : LayerMetadata
  pub effective : List Text
  pub matched : List ℤ
  pub selected : List ℤ
  pub features : List Feature
  pub request_count : ℕ

-- One for each request that is left, and one to be refused
abbrev pub rounds_of : Session → ℕ
rounds_of s = s.budget.max_requests - s.budget.request_count + 1

abbrev pub no_features : Collection
no_features = record { collected = []; verified_wkid = none; attempt = 0 }

abbrev pub require_geometry : QueryInput → LayerMetadata → Result Failure (Unit {0})
require_geometry input metadata =
    if input.return_geometry && is_none metadata.geometry_type
    then err (exception no_geometry)
    else ok tt

module _ (outside : Outside) (sanitizers : Sanitizers) where
  -- `dispatch`
  unfoldable pub dispatch : Call → Action JsonResult
  dispatch call s =
      if leb s.budget.max_requests s.budget.request_count
      then (err (exception request_ceiling), s)
      else request_counted outside call s

  module _ (input : QueryInput) (metadata : LayerMetadata) (fields : List Text) where
    abbrev pub expected_wkid : Option ℕ
    expected_wkid =
        if input.return_geometry then or_else input.out_sr metadata.source_wkid else none

    abbrev pub query_of : List ℤ → PageQuery
    query_of batch = record {
      batch = batch;
      effective_fields = fields;
      object_id_field = metadata.object_id_field;
      return_geometry = input.return_geometry;
    }

    -- What is made of the reply for a batch
    unfoldable pub take_batch :
        List ℤ
        → List (List ℤ)
        → Collection
        → JsonResult
        → Result Failure (List (List ℤ) × Collection)
    take_batch batch rest c page =
        elim (validate_feature_page sanitizers (query_of batch) page.json) [
          | err e ↦ err e
          | ok page' ↦ elim (check_wkid expected_wkid c.verified_wkid page'.wkid) [
            | err e ↦ err e
            | ok wkid ↦ after_page batch rest c wkid page'
          ]
        ]

    -- One round: the request for the first batch, and what it leaves
    unfoldable pub request_batch :
        List ℤ → List (List ℤ) → Collection → Action (List (List ℤ) × Collection)
    request_batch batch rest c = do
      throw_if_aborted outside
      page ← dispatch (input.features_call (c.attempt + 1) (query_of batch))
      lift (take_batch batch rest c page)

    -- The loop over what is pending; `none` where the rounds have run out
    unfoldable pub collect : ℕ → List (List ℤ) → Collection → Action (Option Collection)
    collect rounds [] c = lift (ok (some c))
    collect zero (batch ∷ rest) c = lift (ok none)
    collect (suc rounds) (batch ∷ rest) c =
        request_batch batch rest c >>= λ (pending, c'). collect rounds pending c'

  unfoldable pub retrieve : QueryInput → LayerMetadata → List Text → List ℤ → Action (List Feature)
  retrieve input metadata fields selected s =
      (collect input metadata fields (rounds_of s)
            (batches (length selected) (page_size_of input metadata) selected) no_features
          >>= λ c. lift (finish_collection selected c))
        s

  unfoldable pub execute_feature_service_query : QueryInput → Action QueryReport
  execute_feature_service_query input = do
    throw_if_aborted outside
    layer ← dispatch input.metadata_call
    metadata ← lift (validate_layer_metadata sanitizers layer.json input.layer)
    lift (require_geometry input metadata)
    requested ← lift (requested_fields metadata input.out_fields)
    ids ← dispatch input.ids_call
    matched ← lift (validate_object_ids ids.json metadata.object_id_field)
    let selected = take input.max_records matched
    let fields = effective_fields metadata requested
    features ← retrieve input metadata fields selected
    λ s. (
      ok (record {
        metadata = metadata;
        effective = fields;
        matched = matched;
        selected = selected;
        features = features;
        request_count = s.budget.request_count;
      }),
      s,
    )
