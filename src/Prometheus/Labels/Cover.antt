-- ===== src/Prometheus/Labels/Cover.antt =====
-- Labels that have exactly the names of a vector, and what adding the metadata does to them.
use mq_metric_samples.Prelude.{
  ℕ, zero, suc, ◌+◌, ◌≤◌, ◌<◌, Bytes, bytes_eq, bytes_eq_iff, Bool, true, false, ◌&&◌, ◌==◌, List,
  [], ◌∷◌, ◌++◌, >>=-eq-some, append_assoc, append-nil, ◌||◌, some, lookup, insert, lookup-insert,
  length, length-append, get_elem?, All, All-append, All-weaken, ◌≡◌, refl, arith, Bool-cases, inl,
  inr,
}
use mq_metric_samples.Json.Labels.{Tags, meta_labels_from}
use mq_metric_samples.Otel.Gauges.{is_known}

-- Every name of the vector has a label, and there are no more labels than names.
abbrev pub Covers : List Bytes → Tags → Type 0
Covers names labels = All (λ n. is_known n labels ≡ true) names × (length labels ≡ length names)

-- Texts that are valid UTF-8, for every label.
abbrev pub ValidTexts : (Bytes → Bool) → Tags → Type 0
ValidTexts valid_text labels = All (λ kv. valid_text kv.1 ≡ true) labels

-- No name twice.
abbrev pub Distinct : List Bytes → Type 0
Distinct [] = Unit
Distinct (n ∷ ns) = All (λ m. bytes_eq n m ≡ false) ns × Distinct ns

abbrev pub New : List Bytes → Tags → Type 0
New names labels = All (λ n. is_known n labels ≡ false) names

insert-length :
    (k v : Bytes) (labels : Tags)
    → is_known k labels ≡ false
    → length (insert k v labels) ≡ suc (length labels)
unfolding insert lookup
insert-length k v [] h = refl
insert-length k v ((j, w) ∷ labels) h = elim (Bool-cases (bytes_eq j k)) [
  | inl same ↦ absurd (ground arith)
  | inr other ↦ rw other (omega (arith, insert-length k v labels (ground arith)))
]

insert-is_known :
    (k v j : Bytes) (labels : Tags)
    → is_known j labels ≡ true
    → is_known j (insert k v labels) ≡ true
insert-is_known k v j labels h = ground (arith, lookup-insert k j v labels)

insert-knows : (k v : Bytes) (labels : Tags) → is_known k (insert k v labels) ≡ true
insert-knows k v labels = ground (arith, lookup-insert k k v labels, bytes_eq_iff k k)

insert-New :
    (k v : Bytes) (names : List Bytes) (labels : Tags)
    → All (λ m. bytes_eq k m ≡ false) names
    → New names labels
    → New names (insert k v labels)
insert-New k v [] labels d h = tt
insert-New k v (n ∷ names) labels d h =
    (ground (arith, lookup-insert k n v labels), insert-New k v names labels d.1 h.1)

insert-Covers :
    (k v : Bytes) (names : List Bytes) (labels : Tags)
    → is_known k labels ≡ false
    → Covers names labels
    → Covers (names ++ k ∷ []) (insert k v labels)
insert-Covers k v names labels new c = (
  All-append (λ n. is_known n (insert k v labels) ≡ true) names (k ∷ [])
      (All-weaken (λ n h. insert-is_known k v n labels h) names c.0) (insert-knows k v labels, tt),
  omega (arith, insert-length k v labels new, c.1, length-append names (k ∷ [])),
)

value_at : (vs : List Bytes) (i : ℕ) → i < length vs → (v : Bytes) × (get_elem? vs i ≡ some v)
value_at (v ∷ vs) zero h = (v, refl)
value_at (v ∷ vs) (suc i) h = value_at vs i (omega arith)
value_at [] i h = absurd (omega arith)

-- With metadata of names that are new, each once, and a value for each, nothing panics, and the labels
-- have the names of the vector with those of the metadata.
pub meta_labels_from-Covers :
    (ms values : List Bytes) (i : ℕ) (names : List Bytes) (labels : Tags)
    → i + length ms ≤ length values
    → Distinct ms
    → New ms labels
    → Covers names labels
    → (labels' : Tags) × (meta_labels_from ms values i labels ≡ some labels')
      × Covers (names ++ ms) labels'
unfolding meta_labels_from
meta_labels_from-Covers [] values i names labels h d n c = (labels, refl, rw (append-nil names) c)
meta_labels_from-Covers (m ∷ ms) values i names labels h d n c =
    let (v, at) = value_at values i (omega arith) in
    let (labels', ran, covers) =
      meta_labels_from-Covers ms values (suc i) (names ++ m ∷ []) (insert m v labels) (omega arith)
        d.1 (insert-New m v ms labels d.0 n.1) (insert-Covers m v names labels n.0 c) in
    (labels', rw at ran, rw (append_assoc names (m ∷ []) ms) at covers)

insert-ValidTexts :
    (valid_text : Bytes → Bool) (k v : Bytes) (labels : Tags)
    → valid_text v ≡ true
    → ValidTexts valid_text labels
    → ValidTexts valid_text (insert k v labels)
unfolding insert
insert-ValidTexts valid_text k v [] h t = (h, tt)
insert-ValidTexts valid_text k v ((j, w) ∷ labels) h t = elim (Bool-cases (bytes_eq j k)) [
  | inl same ↦ rw same (h, t.1)
  | inr other ↦ rw other (t.0, insert-ValidTexts valid_text k v labels h t.1)
]

get_elem?-valid :
    (valid_text : Bytes → Bool) (values : List Bytes) (i : ℕ)
    → All (λ v. valid_text v ≡ true) values
    → (v : Bytes) → get_elem? values i ≡ some v
    → valid_text v ≡ true
get_elem?-valid valid_text (v ∷ values) zero t u e = let same : v ≡ u = cc e in rw same at t.0
get_elem?-valid valid_text (v ∷ values) (suc i) t u e = get_elem?-valid valid_text values i t.1 u e
get_elem?-valid valid_text [] i t u e = cc e

-- Metadata with valid values leaves the labels valid.
pub meta_labels_from-ValidTexts :
    (valid_text : Bytes → Bool) (ms values : List Bytes) (i : ℕ) (labels labels' : Tags)
    → All (λ v. valid_text v ≡ true) values
    → ValidTexts valid_text labels
    → meta_labels_from ms values i labels ≡ some labels'
    → ValidTexts valid_text labels'
unfolding meta_labels_from
meta_labels_from-ValidTexts valid_text [] values i labels labels' t l e =
    let same : labels ≡ labels' = cc e in rw same at l
meta_labels_from-ValidTexts valid_text (m ∷ ms) values i labels labels' t l e =
    let (v, at, rest) = >>=-eq-some (get_elem? values i) _ e in
    meta_labels_from-ValidTexts valid_text ms values (suc i) (insert m v labels) labels' t
      (insert-ValidTexts valid_text m v labels (get_elem?-valid valid_text values i t v at) l) rest

-- The test of a concrete set of labels: it covers the names, and its own names are reserved.
abbrev pub member : Bytes → List Bytes → Bool
member k [] = false
member k (j ∷ js) = bytes_eq j k || member k js

abbrev pub all_known : List Bytes → Tags → Bool
all_known [] labels = true
all_known (n ∷ ns) labels = is_known n labels && all_known ns labels

abbrev pub all_members : Tags → List Bytes → Bool
all_members [] reserved = true
all_members (e ∷ es) reserved = member e.0 reserved && all_members es reserved

abbrev pub is_exact : List Bytes → List Bytes → Tags → Bool
is_exact reserved names labels =
    all_known names labels && (length labels == length names && all_members labels reserved)

known_names :
    (names : List Bytes) (labels : Tags)
    → all_known names labels ≡ true
    → All (λ n. is_known n labels ≡ true) names
known_names [] labels h = tt
known_names (n ∷ names) labels h = (ground arith, known_names names labels (ground arith))

unreserved-is_known :
    (m : Bytes) (reserved : List Bytes) (labels : Tags)
    → all_members labels reserved ≡ true
    → member m reserved ≡ false
    → is_known m labels ≡ false
unfolding lookup
unreserved-is_known m reserved [] h n = refl
unreserved-is_known m reserved ((k, v) ∷ labels) h n = elim (Bool-cases (bytes_eq k m)) [
  | inl same ↦
      let found : member k reserved ≡ true = ground arith in
      let found_m : member m reserved ≡ true = rw ((bytes_eq_iff k m).0 same) at found in
      absurd (ground arith)
  | inr other ↦ rw other (unreserved-is_known m reserved labels (ground arith) n)
]

unreserved-New :
    (ms reserved : List Bytes) (labels : Tags)
    → all_members labels reserved ≡ true
    → All (λ m. member m reserved ≡ false) ms
    → New ms labels
unreserved-New [] reserved labels h n = tt
unreserved-New (m ∷ ms) reserved labels h n =
    (unreserved-is_known m reserved labels h n.0, unreserved-New ms reserved labels h n.1)

pub exact→Covers :
    (reserved names : List Bytes) (labels : Tags) (ms : List Bytes)
    → is_exact reserved names labels ≡ true
    → All (λ m. member m reserved ≡ false) ms
    → Covers names labels × New ms labels
exact→Covers reserved names labels ms h n = (
  (known_names names labels (ground arith), ground arith),
  unreserved-New ms reserved labels (ground arith) n,
)
