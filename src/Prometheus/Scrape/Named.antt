-- ===== src/Prometheus/Scrape/Named.antt =====
-- cmd/mq_prometheus/exporter.go: the loops over the vectors keep the label names that these have, and
-- do not panic where every vector is there and takes its labels.
use mq_metric_samples.Prelude.{
  Bytes, bytes_eq, bytes_eq_iff, Bool, true, false, not, ◌&&◌, ◌||◌, List, [], ◌∷◌, Option, some,
  ◌>>=◌, lookup, insert, lookup-insert, All, All-weaken, Bool-cases, inl, inr, if◌then◌else◌, ◌≡◌,
  refl, ap, ◌∙◌, arith,
}
use mq_metric_samples.Json.Labels.{Tags}
use mq_metric_samples.Mqmetric.{Attribute, StatusSet, Value}
use mq_metric_samples.Prometheus.Labels.{Labelling, labelled, left_out}
use mq_metric_samples.Prometheus.Scrape.{
  VecMap, reset_all, sent, add_labelled, add_value, add_values, add_all,
}
use mq_metric_samples.Prometheus.Vectors.{MqVec, reset, add_metric, updated, with_value}

if_some : {A : Type 0} (b : Bool) (x y : A) → (z : A) × ((if b then some x else some y) ≡ some z)
if_some true x y = (x, refl)
if_some false x y = (y, refl)

-- A number that is not negative is taken, by a gauge and by a counter.
pub with_value-updated :
    {F : Type 0} (with_labels : List Bytes → Tags → Bool) (same : Tags → Tags → Bool)
    (add : F → F → F) (negative : F → Bool) (labels : Tags) (f : F) (v : MqVec F)
    → negative f ≡ false
    → with_value with_labels same add negative labels f v
      ≡ some (updated with_labels same add negative labels f v)
unfolding with_value
with_value-updated with_labels same add negative labels f v h = elim (Bool-cases v.is_counter) [
  | inl counter ↦ rw (counter, h) refl
  | inr gauge ↦ rw gauge refl
]

module _ {F : Type 0} (names_at : Bytes → List Bytes) where
  -- There is a vector of the name, with its label names.
  abbrev pub Named : VecMap F → Bytes → Type 0
  Named m k = (v : MqVec F) × (lookup k m ≡ some v) × (v.label_names ≡ names_at k)

  abbrev pub Keeps : VecMap F → VecMap F → Type 0
  Keeps m m' = (k : Bytes) → Named m k → Named m' k

  abbrev pub Runs : VecMap F → Option (VecMap F) → Type 0
  Runs m o = (m' : VecMap F) × (o ≡ some m') × Keeps m m'

  -- Every attribute has its vector.
  abbrev pub HasAll : StatusSet → VecMap F → Type 0
  HasAll set m = All (λ a. Named m a.1.metric_name) set

  pub insert-Named :
      (k : Bytes) (v : MqVec F) (m : VecMap F) → v.label_names ≡ names_at k → Named (insert k v m) k
  insert-Named k v m n = (v, lookup-insert k k v m ∙ ground (arith, bytes_eq_iff k k), n)

  pub insert-Keeps :
      (k : Bytes) (v : MqVec F) (m : VecMap F) → v.label_names ≡ names_at k → Keeps m (insert k v m)
  insert-Keeps k v m n j (v', found, named) = elim (Bool-cases (bytes_eq k j)) [
    | inl same ↦
        (v, lookup-insert k j v m ∙ (rw same refl), n ∙ ap names_at ((bytes_eq_iff k j).0 same))
    | inr other ↦ (v', lookup-insert k j v m ∙ (rw other found), named)
  ]

  pub HasAll-Keeps : (set : StatusSet) (m m' : VecMap F) → Keeps m m' → HasAll set m → HasAll set m'
  HasAll-Keeps set m m' keeps h = All-weaken (λ a n. keeps a.1.metric_name n) set h

  pub Runs-none : (m : VecMap F) → Runs m (some m)
  Runs-none m = (m, refl, λ k n. n)

  pub Runs-insert :
      (k : Bytes) (v : MqVec F) (m : VecMap F)
      → v.label_names ≡ names_at k
      → Runs m (some (insert k v m))
  Runs-insert k v m n = (insert k v m, refl, insert-Keeps k v m n)

  pub Runs-then : (m m' : VecMap F) (o : Option (VecMap F)) → Keeps m m' → Runs m' o → Runs m o
  Runs-then m m' o keeps (r, e, keeps') = (r, e, λ k n. keeps' k (keeps k n))

  pub Runs-bind :
      (m : VecMap F) (o : Option (VecMap F)) (f : VecMap F → Option (VecMap F))
      → Runs m o
      → ((m' : VecMap F) → Keeps m m' → Runs m' (f m'))
      → Runs m (o >>= f)
  Runs-bind m o f (m', e, keeps) g = rw e (Runs-then m m' (f m') keeps (g m' keeps))

  pub Runs-lookup :
      (m : VecMap F) (k : Bytes) (f : MqVec F → Option (VecMap F))
      → Named m k
      → ((v : MqVec F) → v.label_names ≡ names_at k → Runs m (f v))
      → Runs m (lookup k m >>= f)
  Runs-lookup m k f (v, found, n) g = rw found (g v n)

  pub reset_all-Runs : (set : StatusSet) (m : VecMap F) → HasAll set m → Runs m (reset_all set m)
  unfolding reset_all
  reset_all-Runs [] m h = Runs-none m
  reset_all-Runs ((k, attr) ∷ set) m h = Runs-lookup m attr.metric_name _ h.0 (λ v n.
      let keeps = insert-Keeps attr.metric_name (reset v) m n in
      Runs-then m (insert attr.metric_name (reset v) m) _ keeps
        (reset_all-Runs set _ (HasAll-Keeps set m _ keeps h.1)))

  pub sent-runs :
      (b : Bool) (set : StatusSet) (m : VecMap F)
      → HasAll set m
      → (vs : List (MqVec F)) × (sent b set m ≡ some vs)
  unfolding sent
  sent-runs b [] m h = ([], refl)
  sent-runs b ((k, attr) ∷ set) m ((v, found, n), hs) =
      let (rest, e) = sent-runs b set m hs in
      rw (e, found) (if_some (not attr.pseudo && (b || not attr.delta)) (v ∷ rest) rest)

  module _ (with_labels : List Bytes → Tags → Bool) (same : Tags → Tags → Bool) (add : F → F → F)
      (negative : F → Bool) (meta : Tags → Option Tags) where
    -- The labels, with the metadata, are taken by a vector with the names.
    abbrev pub Taken : List Bytes → Labelling → Type 0
    Taken names left_out = Unit
    Taken names (labelled base) =
        (labels : Tags) × (meta base ≡ some labels) × (with_labels names labels ≡ true)

    pub Runs-add_metric :
        (m : VecMap F) (k : Bytes) (labels : Tags) (f : F)
        → with_labels (names_at k) labels ≡ true
        → negative f ≡ false
        → Named m k
        → Runs m (
            lookup k m >>= λ v.
            add_metric with_labels same add negative labels f v >>= λ v'. some (insert k v' m))
    unfolding add_metric updated
    Runs-add_metric m k labels f takes counts h = Runs-lookup m k _ h (λ v n.
        let accepted : with_labels v.label_names labels ≡ true = rw n takes in
        rw (accepted, with_value-updated with_labels same add negative labels f v counts)
          (Runs-insert k (updated with_labels same add negative labels f v) m n))

    module _ (labels_for : Bytes → Option Labelling) (number : Attribute → Value → F) where
      -- Every value has labels, which its vector takes, and a number that a counter takes.
      abbrev pub IsTaken : Attribute → Bytes × Value → Type 0
      IsTaken attr kv =
          (l : Labelling) × (labels_for kv.0 ≡ some l)
          × Taken (names_at attr.metric_name) l
          × (negative (number attr kv.1) ≡ false)

      abbrev pub AllTaken : StatusSet → Type 0
      AllTaken set = All (λ a. All (IsTaken a.1) a.1.values) set

      add_labelled-Runs :
          (attr : Attribute) (f : F) (l : Labelling) (m : VecMap F)
          → Taken (names_at attr.metric_name) l
          → negative f ≡ false
          → Named m attr.metric_name
          → Runs m (add_labelled with_labels same add negative labels_for meta number attr f l m)
      unfolding add_labelled
      add_labelled-Runs attr f left_out m t counts h = Runs-none m
      add_labelled-Runs attr f (labelled base) m (labels, e, takes) counts h =
          rw e (Runs-add_metric m attr.metric_name labels f takes counts h)

      add_value-Runs :
          (attr : Attribute) (key : Bytes) (value : Value) (m : VecMap F)
          → IsTaken attr (key, value)
          → Named m attr.metric_name
          → Runs m (add_value with_labels same add negative labels_for meta number attr key value m)
      unfolding add_value
      add_value-Runs attr key value m (l, e, t, number_taken) h =
          elim (Bool-cases (value.is_int64 && not attr.pseudo)) [
            | inl counts ↦
                rw (counts, e) (add_labelled-Runs attr (number attr value) l m t number_taken h)
            | inr not_counted ↦ rw not_counted (Runs-none m)
          ]

      add_values-Runs :
          (attr : Attribute) (vs : List (Bytes × Value)) (m : VecMap F)
          → All (IsTaken attr) vs
          → Named m attr.metric_name
          → Runs m (add_values with_labels same add negative labels_for meta number attr vs m)
      unfolding add_values
      add_values-Runs attr [] m t h = Runs-none m
      add_values-Runs attr ((key, value) ∷ vs) m t h =
          Runs-bind m _ _ (add_value-Runs attr key value m t.0 h)
            (λ m' keeps. add_values-Runs attr vs m' t.1 (keeps attr.metric_name h))

      pub add_all-Runs :
          (set : StatusSet) (m : VecMap F)
          → AllTaken set
          → HasAll set m
          → Runs m (add_all with_labels same add negative labels_for meta number set m)
      unfolding add_all
      add_all-Runs [] m t h = Runs-none m
      add_all-Runs ((k, attr) ∷ set) m t h =
          Runs-bind m _ _ (add_values-Runs attr attr.values m t.0 h.0)
            (λ m' keeps. add_all-Runs set m' t.1 (HasAll-Keeps set m m' keeps h.1))
