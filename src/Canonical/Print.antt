-- ===== src/Canonical/Print.antt =====
-- `canonicalJson` and `sha256Canonical`.
use dymaxion.Prelude.{Text, text, true, false, List, [], ◌∷◌, ◌++◌, Result, ok, err, ◌>>=◌}
use dymaxion.Canonical.Value.{
  Json, null, bool, str, num, not_finite, undefined, unsupported, foreign, arr, obj, Items, nil,
  cons, Fields, end, field, CanonicalError, number_not_finite, not_plain_object, undefined_at,
  type_not_allowed,
}
use dymaxion.Canonical.Quote.{quote}
use dymaxion.Canonical.Sort.{sort_entries}

-- `parts.join(',')`
abbrev pub join : List Text → Text
join [] = []
join (p ∷ []) = p
join (p ∷ q ∷ ps) = p ++ b',' ∷ join (q ∷ ps)

-- The first failure of a list of outcomes, or all the values.
abbrev pub sequence : {E A : Type 0} → List (Result E A) → Result E (List A)
sequence [] = ok []
sequence (ok a ∷ rs) = do as' ← sequence rs; ok (a ∷ as')
sequence (err e ∷ rs) = err e

-- One `"key":value` part; the key is checked and printed when the sorted entries are mapped.
abbrev pub Part : Type 0
Part = Result CanonicalError Text

abbrev pub entry_text : Text → Json → Part → Part
entry_text k undefined r = err (undefined_at k)
entry_text k v r = do t ← r; ok (quote k ++ b':' ∷ t)

abbrev pub values_of : List (Text × Part) → List Part
values_of [] = []
values_of ((k, r) ∷ l) = r ∷ values_of l

abbrev pub print_object : List (Text × Part) → Part
print_object entries = do
  parts ← sequence (values_of (sort_entries entries))
  ok (b'{' ∷ (join parts ++ b'}' ∷ []))

abbrev pub print_array : List Part → Part
print_array items = do parts ← sequence items; ok (b'[' ∷ (join parts ++ b']' ∷ []))

unfoldable mutual
  pub canonical_json : Json → Part
  canonical_json null = ok (text "null")
  canonical_json (bool true) = ok (text "true")
  canonical_json (bool false) = ok (text "false")
  canonical_json (str s) = ok (quote s)
  canonical_json (num t) = ok t
  canonical_json not_finite = err number_not_finite
  canonical_json undefined = err (type_not_allowed (text "undefined"))
  canonical_json (unsupported t) = err (type_not_allowed t)
  canonical_json foreign = err not_plain_object
  canonical_json (arr xs) = print_array (canonical_items xs)
  canonical_json (obj fs) = print_object (canonical_fields fs)

  pub canonical_items : Items → List Part
  canonical_items nil = []
  canonical_items (cons x xs) = canonical_json x ∷ canonical_items xs

  pub canonical_fields : Fields → List (Text × Part)
  canonical_fields end = []
  canonical_fields (field k v fs) = (k, entry_text k v (canonical_json v)) ∷ canonical_fields fs

-- `sha256Canonical`, over the digest of node:crypto.
unfoldable pub sha256_canonical : (Text → Text) → Json → Part
sha256_canonical sha256_text v = do t ← canonical_json v; ok (sha256_text t)
