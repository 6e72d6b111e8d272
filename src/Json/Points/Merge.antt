-- ===== src/Json/Points/Merge.antt =====
-- cmd/mq_json/exporter.go, Collect: a value goes into its point, and the loops over the status.
pub mod Shared
pub mod Stored
use mq_metric_samples.Prelude.{
  ℕ, zero, suc, ◌<◌, ◌==◌, ap, ◌∙◌, arith, bytes_eq, Bytes, Bool, true, false, not, ◌&&◌, List, [],
  ◌∷◌, ◌++◌, Option, none, some, ◌>>=◌, lookup, insert, length, get_elem?, set, if◌then◌else◌,
  lookup-insert, bytes_eq_self, ◌≡◌, refl,
}
use mq_metric_samples.Config.Record.{Config}
use mq_metric_samples.Json.Fixup.{Cache, fixup}
use mq_metric_samples.Json.Labels.{Tags, add_meta_labels}
use mq_metric_samples.Json.Points.{Point, PointMap, Points, Described}
use mq_metric_samples.Json.Points.Blocks.{described}
use mq_metric_samples.Mqmetric.{
  Value, Attribute, StatusSet, Mq, ObjectType, ot_q, ot_channel, ot_topic, ot_sub, ot_cluster,
  ot_q_mgr, ot_bp, ot_ps, ot_channel_amqp, ot_channel_mqtt,
}

pub or_else {ℓ} : {A : Type ℓ} → Option A → Option A → Option A
or_else (some a) o = some a
or_else none o = o

pub preferred_point : Option Bytes → PointMap → Option Point
unfolding lookup
preferred_point none m = none
preferred_point (some k) m = lookup k m

unfoldable pub metrics_at : {F : Type 0} → ℕ → List (List (Bytes × F)) → List (Bytes × F)
metrics_at i store = elim (get_elem? store i) [ some ms ↦ ms | none ↦ [] ]

-- The point that is there for a key, of those published first.
unfoldable pub find_point : {F : Type 0} → Described → Points F → Option Point
unfolding or_else preferred_point lookup
find_point d p = or_else (preferred_point d.preferred p.published) (lookup d.key1 p.status)

metrics_at-set :
    {F : Type 0} (i : ℕ) (ms : List (Bytes × F)) (store : List (List (Bytes × F)))
    → i < length store
    → metrics_at i (set store i ms) ≡ ms
unfolding metrics_at
metrics_at-set i ms [] h = absurd (omega arith)
metrics_at-set zero ms (m ∷ store) h = refl
metrics_at-set (suc i) ms (m ∷ store) h = metrics_at-set i ms store (omega arith)

metrics_elsewhere :
    {F : Type 0} (i j : ℕ) (ms : List (Bytes × F)) (store : List (List (Bytes × F)))
    → (i == j) ≡ false
    → metrics_at j (set store i ms) ≡ metrics_at j store
unfolding metrics_at
metrics_elsewhere i j ms [] h = refl
metrics_elsewhere zero zero ms (m ∷ store) h = cc h
metrics_elsewhere zero (suc j) ms (m ∷ store) h = refl
metrics_elsewhere (suc i) zero ms (m ∷ store) h = refl
metrics_elsewhere (suc i) (suc j) ms (m ∷ store) h = metrics_elsewhere i j ms store (ground arith)

module _ {F : Type 0} (trim_space : Bytes → Bytes) (topic_key : Bytes → Bytes → Bytes) (mq : Mq F)
    (c : Config) where
  abbrev pub new_point : Described → Tags → Points F → Point × Points F
  new_point d tags p = (
    record { object_type = d.new_type; point_tags = tags; metric = length p.store },
    record p { store = p.store ++ [] ∷ [] },
  )

  unfoldable pub take_point : Option Point → Described → Points F → Option (Point × Points F)
  unfolding add_meta_labels
  take_point (some pt) d p = some (pt, p)
  take_point none d p = add_meta_labels c d.new_tags >>= λ tags. some (new_point d tags p)

  -- `pt.Metric[fixup(…)] = …; ptMap[key1] = pt`
  unfoldable pub put_metric : Bytes → Bytes → F → Point × Points F → Points F
  unfolding fixup metrics_at insert
  put_metric key1 name f (pt, p) =
      let named = fixup name pt.object_type p.fixup_string in
      record p {
        fixup_string = named.1;
        store = set p.store pt.metric (insert named.0 f (metrics_at pt.metric p.store));
        status = insert key1 pt p.status;
      }

  unfoldable pub add_point : Described → Bytes → F → Points F → Option (Points F)
  unfolding take_point put_metric find_point
  add_point d name f p = take_point (find_point d p) d p >>= λ r. some (put_metric d.key1 name f r)

  -- What putting a number into a point leaves: the point is the one of the key, and its metrics, alone
  -- of all, have the number under the name, beside what they had.
  pub record IsPut (d : Described) (name : Bytes) (f : F) (p : Points F) (pt : Point)
      (p' : Points F) : Type 0 where
    pub of_key : lookup d.key1 p'.status ≡ some pt
    pub same_published : p'.published ≡ p.published
    pub has_number :
        (k : Bytes)
        → lookup k (metrics_at pt.metric p'.store) ≡ (
            if bytes_eq (fixup name pt.object_type p.fixup_string).0 k
            then some f
            else lookup k (metrics_at pt.metric p.store))
    pub no_other : (j : ℕ) → (pt.metric == j) ≡ false → metrics_at j p'.store ≡ metrics_at j p.store

  pub IsPut-found :
      (d : Described) (name : Bytes) (f : F) (p : Points F) {pt : Point}
      → find_point d p ≡ some pt
      → pt.metric < length p.store
      → (p' : Points F) × (add_point d name f p ≡ some p') × IsPut d name f p pt p'
  unfolding add_point take_point put_metric
  IsPut-found d name f p {pt} e inside =
      let key = (fixup name pt.object_type p.fixup_string).0 in
      let ms = insert key f (metrics_at pt.metric p.store) in
      (
        put_metric d.key1 name f (pt, p),
        simp e,
        record {
          of_key = simp (lookup-insert d.key1 d.key1 pt p.status, bytes_eq_self d.key1);
          same_published = refl;
          has_number = λ k.
              ap (lookup k) (metrics_at-set pt.metric ms p.store inside)
              ∙ lookup-insert key k f (metrics_at pt.metric p.store);
          no_other = λ j other. metrics_elsewhere pt.metric j ms p.store other;
        },
      )

  -- For buffer pools, page sets and clients the names are read whether a value is reported or not.
  pub names_first : ObjectType → Bool
  names_first ot_bp = true
  names_first ot_ps = true
  names_first ot_channel_amqp = true
  names_first ot_channel_mqtt = true
  names_first _ = false

  unfoldable pub status_value :
      ObjectType → Attribute → Bytes → Value → Points F → Option (Points F)
  unfolding described add_point names_first
  status_value ot attr key value p =
      let add = λ (d : Described).
        add_point d attr.metric_name (mq.normalise ot attr value.value_int64) p in
      if names_first ot
      then (described trim_space topic_key mq c ot key >>= λ d.
          if value.is_int64 && not attr.pseudo then add d else some p)
      else if value.is_int64
      then (described trim_space topic_key mq c ot key >>= add)
      else some p

  unfoldable pub status_values :
      ObjectType → Attribute → List (Bytes × Value) → Points F → Option (Points F)
  unfolding status_value
  status_values ot attr [] p = some p
  status_values ot attr ((key, value) ∷ vs) p =
      status_value ot attr key value p >>= λ p'. status_values ot attr vs p'

  unfoldable pub status_set : ObjectType → StatusSet → Points F → Option (Points F)
  unfolding status_values
  status_set ot [] p = some p
  status_set ot ((k, attr) ∷ set) p =
      status_values ot attr attr.values p >>= λ p'. status_set ot set p'

  abbrev pub of_type : ObjectType → Points F → Option (Points F)
  of_type ot p = status_set ot (mq.object_status ot) p

  unfoldable pub other_types : Points F → Option (Points F)
  unfolding status_set
  other_types p = of_type ot_q p >>= λ p₁. of_type ot_topic p₁ >>= λ p₂.
      of_type ot_q_mgr p₂ >>= λ p₃. of_type ot_sub p₃ >>= λ p₄. of_type ot_cluster p₄ >>= λ p₅.
      if mq.is_zos
      then (of_type ot_bp p₅ >>= λ p₆. of_type ot_ps p₆)
      else (of_type ot_channel_amqp p₅ >>= λ p₆. of_type ot_channel_mqtt p₆)

  -- The loops over all other types stand in the loop over the attributes of channels.
  unfoldable pub channel_loop : StatusSet → Points F → Option (Points F)
  unfolding status_values other_types
  channel_loop [] p = some p
  channel_loop ((k, attr) ∷ set) p = status_values ot_channel attr attr.values p >>= λ p'.
      other_types p' >>= λ p''. channel_loop set p''
