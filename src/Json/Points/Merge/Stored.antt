-- ===== src/Json/Points/Merge/Stored.antt =====
-- cmd/mq_json/exporter.go, Collect: each point has its own place among the stored maps of metrics.
use mq_metric_samples.Prelude.{
  ℕ, All, All-weaken, zero, suc, ◌⊎◌, sym, Bytes, bytes_eq, lookup, insert, Bool, true, false, List,
  [], ◌∷◌, ◌++◌, Option, none, some, ◌>>=◌, >>=-eq-some, Bool-cases, inl, inr, not, ◌&&◌,
  if◌then◌else◌, length, set, ◌<◌, ◌≤◌, ◌+◌, ◌≡◌, refl, arith,
}
use native.Mathlib.Nat.{le_trans}
use mq_metric_samples.Config.Record.{Config}
use mq_metric_samples.Json.Points.{Point, PointMap, Points, Described}
use mq_metric_samples.Json.Points.Merge.{
  find_point, or_else, preferred_point, take_point, put_metric, add_point, new_point, status_value,
  status_values, status_set, of_type, other_types, channel_loop, names_first,
}
use mq_metric_samples.Json.Points.Blocks.{described}
use mq_metric_samples.Json.Labels.{add_meta_labels}
use mq_metric_samples.Mqmetric.{
  Value, Attribute, StatusSet, Mq, ObjectType, ot_q, ot_channel, ot_topic, ot_sub, ot_cluster,
  ot_q_mgr, ot_bp, ot_ps, ot_channel_amqp, ot_channel_mqtt,
}

-- The places of a map's points are below `n`.
abbrev pub InStore : ℕ → PointMap → Type 0
InStore n m = All (λ (kv : Bytes × Point). kv.1.metric < n) m

pub lookup-InStore :
    {n : ℕ} (k : Bytes) (m : PointMap) {pt : Point}
    → InStore n m
    → lookup k m ≡ some pt
    → pt.metric < n
unfolding lookup
lookup-InStore k [] all e = cc e
lookup-InStore {n} k ((j, q) ∷ m) {pt} all e = elim (Bool-cases (bytes_eq j k)) [
  | inl same ↦ let is : q ≡ pt = cc (rw same at e) in rw (← is) all.0
  | inr other ↦ lookup-InStore k m all.1 (rw other at e)
]

-- The points' places are in the store.
abbrev pub IsStored : {F : Type 0} → Points F → Type 0
IsStored p = InStore (length p.store) p.published × InStore (length p.store) p.status

module _ {ℓ} {A : Type ℓ} where
  length-set : (xs : List A) (i : ℕ) (v : A) → length (set xs i v) ≡ length xs
  length-set [] i v = refl
  length-set (x ∷ xs) zero v = refl
  length-set (x ∷ xs) (suc i) v = ground (arith, length-set xs i v)

  length-snoc : (xs : List A) (v : A) → length (xs ++ v ∷ []) ≡ 1 + length xs
  length-snoc [] v = refl
  length-snoc (x ∷ xs) v = ground (arith, length-snoc xs v)

pub insert-InStore :
    {n : ℕ} (k : Bytes) (pt : Point) (m : PointMap)
    → pt.metric < n
    → InStore n m
    → InStore n (insert k pt m)
unfolding insert
insert-InStore k pt [] lt all = (lt, tt)
insert-InStore k pt ((j, q) ∷ m) lt all = elim (Bool-cases (bytes_eq j k)) [
  | inl same ↦ rw same (lt, all.1)
  | inr other ↦ rw other (all.0, insert-InStore k pt m lt all.1)
]

pub InStore-mono : {n n' : ℕ} (m : PointMap) → n ≤ n' → InStore n m → InStore n' m
InStore-mono m le all = All-weaken (λ kv lt. le_trans lt le) m all

or_else-some {ℓ} :
    {A : Type ℓ} (o o' : Option A) {x : A} → or_else o o' ≡ some x → (o ≡ some x) ⊎ (o' ≡ some x)
unfolding or_else
or_else-some (some a) o' e = inl e
or_else-some none o' e = inr e

preferred_point-InStore :
    {n : ℕ} (o : Option Bytes) (m : PointMap) {pt : Point}
    → InStore n m
    → preferred_point o m ≡ some pt
    → pt.metric < n
unfolding preferred_point
preferred_point-InStore none m all e = cc
preferred_point-InStore (some k) m {pt} all e = lookup-InStore k m all e

find_point-InStore :
    {F : Type 0} (d : Described) (p : Points F) {pt : Point}
    → IsStored p
    → find_point d p ≡ some pt
    → pt.metric < length p.store
unfolding find_point
find_point-InStore d p {pt} s e =
    elim (or_else-some (preferred_point d.preferred p.published) (lookup d.key1 p.status) e) [
      | inl h ↦ preferred_point-InStore d.preferred p.published s.0 h
      | inr h ↦ lookup-InStore d.key1 p.status s.1 h
    ]

module _ {F : Type 0} (trim_space : Bytes → Bytes) (topic_key : Bytes → Bytes → Bytes) (mq : Mq F)
    (c : Config) where
  kept :
      (pt : Point) (p : Points F) (ms : List (Bytes × F))
      → length p.store ≤ length (set p.store pt.metric ms)
  kept pt p ms = ground (arith, length-set p.store pt.metric ms)

  pub put_metric-IsStored :
      (key1 name : Bytes) (f : F) (pt : Point) (p : Points F)
      → pt.metric < length p.store
      → IsStored p
      → IsStored (put_metric trim_space topic_key mq c key1 name f (pt, p))
  unfolding put_metric
  put_metric-IsStored key1 name f pt p lt s = (
    InStore-mono p.published (kept pt p _) s.0,
    InStore-mono (insert key1 pt p.status) (kept pt p _) (insert-InStore key1 pt p.status lt s.1),
  )

  take_point-IsStored :
      (o : Option Point) (d : Described) (p : Points F) {r : Point × Points F}
      → IsStored p
      → ((pt : Point) → o ≡ some pt → pt.metric < length p.store)
      → take_point trim_space topic_key mq c o d p ≡ some r
      → (r.0.metric < length r.1.store) × IsStored r.1 × (length p.store ≤ length r.1.store)
  unfolding take_point
  take_point-IsStored (some pt) d p {r} s is e =
      let q : (pt, p) ≡ r = cc e in rw (sym q) (is pt refl, s, omega arith)
  take_point-IsStored none d p {r} s is e =
      let (tags, labelled, made) = >>=-eq-some (add_meta_labels c d.new_tags) _ e in
      let q : new_point trim_space topic_key mq c d tags p ≡ r = cc made in
      rw (sym q) (
        ground (arith, length-snoc p.store []),
        (
          InStore-mono p.published (ground (arith, length-snoc p.store [])) s.0,
          InStore-mono p.status (ground (arith, length-snoc p.store [])) s.1,
        ),
        ground (arith, length-snoc p.store []),
      )

  -- The invariant holds afterwards, and the store has not shrunk.
  abbrev pub Kept : Points F → Points F → Type 0
  Kept p p' = IsStored p' × (length p.store ≤ length p'.store)

  abbrev pub Keeps : (Points F → Option (Points F)) → Type 0
  Keeps g = (p p' : Points F) → IsStored p → g p ≡ some p' → Kept p p'

  pub put_metric-Kept :
      (key1 name : Bytes) (f : F) (pt : Point) (p : Points F)
      → pt.metric < length p.store
      → IsStored p
      → Kept p (put_metric trim_space topic_key mq c key1 name f (pt, p))
  unfolding put_metric
  put_metric-Kept key1 name f pt p lt s = (put_metric-IsStored key1 name f pt p lt s, kept pt p _)

  pub add_point-Keeps :
      (d : Described) (name : Bytes) (f : F) → Keeps (add_point trim_space topic_key mq c d name f)
  unfolding add_point
  add_point-Keeps d name f p p' s e =
      let (r, taken, is) =
        >>=-eq-some (take_point trim_space topic_key mq c (find_point d p) d p) _ e in
      let (lt, s', le) =
        take_point-IsStored (find_point d p) d p s (λ pt h. find_point-InStore d p s h) taken in
      let q : put_metric trim_space topic_key mq c d.key1 name f r ≡ p' = cc is in
      let (stored, le') = put_metric-Kept d.key1 name f r.0 r.1 lt s' in
      rw (sym q) (stored, le_trans le le')

  none_kept : Keeps some
  none_kept p p' s e = let q : p ≡ p' = cc e in rw (sym q) (s, omega arith)

  in_turn : {g h : Points F → Option (Points F)} → Keeps g → Keeps h → Keeps (λ p. g p >>= h)
  in_turn {g} keeps_g keeps_h p p' s e =
      let (p₁, first, second) = >>=-eq-some (g p) _ e in
      let (s₁, le₁) = keeps_g p p₁ s first in
      let (s', le') = keeps_h p₁ p' s₁ second in (s', le_trans le₁ le')

  either :
      (b : Bool) {g h : Points F → Option (Points F)}
      → Keeps g
      → Keeps h
      → Keeps (λ p. if b then g p else h p)
  either true keeps_g keeps_h = keeps_g
  either false keeps_g keeps_h = keeps_h

  of_described :
      (o : Option Described) {f : Described → Points F → Option (Points F)}
      → ((d : Described) → Keeps (f d))
      → Keeps (λ p. o >>= λ d. f d p)
  of_described none keeps p p' s e = cc
  of_described (some d) keeps p p' s e = keeps d p p' s e

  status_value-Keeps :
      (ot : ObjectType) (attr : Attribute) (key : Bytes) (value : Value)
      → Keeps (status_value trim_space topic_key mq c ot attr key value)
  unfolding status_value
  status_value-Keeps ot attr key value =
      let o = described trim_space topic_key mq c ot key in
      let number = mq.normalise ot attr value.value_int64 in
      either (names_first trim_space topic_key mq c ot)
        (of_described o (λ d.
          either (value.is_int64 && not attr.pseudo) (add_point-Keeps d attr.metric_name number)
            none_kept))
        (either value.is_int64 (of_described o (λ d. add_point-Keeps d attr.metric_name number))
          none_kept)

  status_values-Keeps :
      (ot : ObjectType) (attr : Attribute) (vs : List (Bytes × Value))
      → Keeps (status_values trim_space topic_key mq c ot attr vs)
  unfolding status_values
  status_values-Keeps ot attr [] = none_kept
  status_values-Keeps ot attr ((key, value) ∷ vs) =
      in_turn (status_value-Keeps ot attr key value) (status_values-Keeps ot attr vs)

  status_set-Keeps :
      (ot : ObjectType) (set : StatusSet) → Keeps (status_set trim_space topic_key mq c ot set)
  unfolding status_set
  status_set-Keeps ot [] = none_kept
  status_set-Keeps ot ((k, attr) ∷ set) =
      in_turn (status_values-Keeps ot attr attr.values) (status_set-Keeps ot set)

  of_type-Keeps : (ot : ObjectType) → Keeps (of_type trim_space topic_key mq c ot)
  of_type-Keeps ot = status_set-Keeps ot (mq.object_status ot)

  last_types-Keeps : Keeps (λ p.
      if mq.is_zos
      then (of_type trim_space topic_key mq c ot_bp p >>= of_type trim_space topic_key mq c ot_ps)
      else (of_type trim_space topic_key mq c ot_channel_amqp p
          >>= of_type trim_space topic_key mq c ot_channel_mqtt))
  last_types-Keeps =
      either mq.is_zos (in_turn (of_type-Keeps ot_bp) (of_type-Keeps ot_ps))
        (in_turn (of_type-Keeps ot_channel_amqp) (of_type-Keeps ot_channel_mqtt))

  other_types-Keeps : Keeps (other_types trim_space topic_key mq c)
  unfolding other_types
  other_types-Keeps = in_turn (of_type-Keeps ot_q) (
      in_turn (of_type-Keeps ot_topic) (
        in_turn (of_type-Keeps ot_q_mgr)
          (in_turn (of_type-Keeps ot_sub) (in_turn (of_type-Keeps ot_cluster) last_types-Keeps))))

  pub channel_loop-Keeps : (set : StatusSet) → Keeps (channel_loop trim_space topic_key mq c set)
  unfolding channel_loop
  channel_loop-Keeps [] = none_kept
  channel_loop-Keeps ((k, attr) ∷ set) =
      in_turn (status_values-Keeps ot_channel attr attr.values)
        (in_turn other_types-Keeps (channel_loop-Keeps set))
