-- ===== src/Prometheus/Allocate/Fits.antt =====
-- cmd/mq_prometheus/exporter.go: the vectors that the functions allocate…Gauges leave.
use mq_metric_samples.Prelude.{
  ℕ, Bytes, Bool, true, false, List, [], ◌∷◌, ◌++◌, ◌==◌, insert, All, In, Bool-cases, inl, inr,
  if◌then◌else◌, ◌≡◌, refl, sym, ap, ◌∙◌, arith,
}
use mq_metric_samples.Config.Record.{Config}
use mq_metric_samples.Mqmetric.{
  Element, Mq, ObjectType, StatusSet, ot_q, ot_channel, ot_topic, ot_sub, ot_cluster, ot_q_mgr,
  ot_bp, ot_ps, ot_channel_amqp, ot_channel_mqtt,
}
use mq_metric_samples.Prometheus.Allocate.{
  Maps, Vecs, type_index, put_map, statistics_types, status_types, allocate_gauges, allocate_type,
  allocate_types,
}
use mq_metric_samples.Prometheus.Scrape.Named.{Named, Keeps, HasAll, insert-Named, insert-Keeps}
use mq_metric_samples.Prometheus.Scrape.{VecMap}
use mq_metric_samples.Prometheus.Vectors.{
  make_key, published_names, own_names, new_mq_vec, new_mq_vec_obj,
}

of_index : ℕ → ObjectType
of_index n =
    if n == 0
    then ot_q
    else if n == 1
    then ot_channel
    else if n == 2
    then ot_topic
    else if n == 3
    then ot_sub
    else if n == 4
    then ot_cluster
    else if n == 5
    then ot_q_mgr
    else if n == 6
    then ot_bp
    else if n == 7
    then ot_ps
    else if n == 8
    then ot_channel_amqp
    else ot_channel_mqtt

of_index-type_index : (ot : ObjectType) → of_index (type_index ot) ≡ ot
unfolding of_index type_index
of_index-type_index ot_q = refl
of_index-type_index ot_channel = refl
of_index-type_index ot_topic = refl
of_index-type_index ot_sub = refl
of_index-type_index ot_cluster = refl
of_index-type_index ot_q_mgr = refl
of_index-type_index ot_bp = refl
of_index-type_index ot_ps = refl
of_index-type_index ot_channel_amqp = refl
of_index-type_index ot_channel_mqtt = refl

same_index : (ot ot' : ObjectType) → (type_index ot == type_index ot') ≡ true → ot ≡ ot'
same_index ot ot' h =
    let same : type_index ot ≡ type_index ot' = ground arith in
    sym (of_index-type_index ot) ∙ ap of_index same ∙ of_index-type_index ot'

module _ (c : Config) (hostname_label : Bool) where
  -- The label names of the vectors of a type, under any name.
  abbrev pub type_names : ObjectType → Bytes → List Bytes
  type_names ot k = own_names c hostname_label ot ++ c.metadata_tags_array

  -- The label names of the published vectors, by the topic that belongs to a key.
  abbrev pub rua_names : (Bytes → Bytes) → Bytes → List Bytes
  rua_names topic_of k = (published_names c hostname_label (topic_of k)).0 ++ c.metadata_tags_array

  module _ {F : Type 0} where
    -- The maps of the listed types have a vector for every attribute.
    abbrev pub MapsFit : (ObjectType → StatusSet) → List ObjectType → Maps F → Type 0
    MapsFit sets types maps =
        (ot : ObjectType) → In ot types → HasAll (type_names ot) (sets ot) (maps ot)

    pub put_map-HasAll :
        (sets : ObjectType → StatusSet) (ot ot' : ObjectType) (m : VecMap F) (maps : Maps F)
        → HasAll (type_names ot) (sets ot) m
        → (((type_index ot == type_index ot') ≡ false)
            → HasAll (type_names ot') (sets ot') (maps ot'))
        → HasAll (type_names ot') (sets ot') (put_map ot m maps ot')
    unfolding put_map
    put_map-HasAll sets ot ot' m maps h h' = elim (Bool-cases (type_index ot == type_index ot')) [
      | inl same ↦ rw same (rw (sym (same_index ot ot' same)) h)
      | inr other ↦ rw other (h' other)
    ]

    pub record IsAllocated (mq : Mq F) (topic_of : Bytes → Bytes) (vecs : Vecs F) : Type 0 where
      pub rua_fits : All (λ e. Named (rua_names topic_of) vecs.rua (make_key e)) mq.published
      pub status_fits :
          MapsFit mq.object_status (status_types mq c hostname_label true) vecs.status_maps
      pub statistics_fit : MapsFit mq.object_statistics statistics_types vecs.statistics_maps

    module _ (override_c_type : Bool) where
      allocate_type-Keeps :
          (ot : ObjectType) (mq : Mq F) (set : StatusSet) (m : VecMap F)
          → Keeps (type_names ot) m (allocate_type mq c hostname_label override_c_type ot set m)
      unfolding allocate_type new_mq_vec_obj
      allocate_type-Keeps ot mq [] m k h = h
      allocate_type-Keeps ot mq ((j, attr) ∷ set) m k h = allocate_type-Keeps ot mq set _ k (
          insert-Keeps (type_names ot) attr.metric_name
            (new_mq_vec_obj c hostname_label override_c_type attr ot) m refl k h)

      allocate_type-HasAll :
          (ot : ObjectType) (mq : Mq F) (set : StatusSet) (m : VecMap F)
          → HasAll (type_names ot) set (allocate_type mq c hostname_label override_c_type ot set m)
      unfolding allocate_type new_mq_vec_obj
      allocate_type-HasAll ot mq [] m = tt
      allocate_type-HasAll ot mq ((j, attr) ∷ set) m =
          let v = new_mq_vec_obj c hostname_label override_c_type attr ot in
          (
            allocate_type-Keeps ot mq set (insert attr.metric_name v m) attr.metric_name
                (insert-Named (type_names ot) attr.metric_name v m refl),
            allocate_type-HasAll ot mq set (insert attr.metric_name v m),
          )

      allocate_types-kept :
          (mq : Mq F) (sets : ObjectType → StatusSet) (ots : List ObjectType) (maps : Maps F)
          (ot : ObjectType)
          → HasAll (type_names ot) (sets ot) (maps ot)
          → HasAll
              (type_names ot)
              (sets ot)
              (allocate_types mq c hostname_label override_c_type sets ots maps ot)
      unfolding allocate_types
      allocate_types-kept mq sets [] maps ot h = h
      allocate_types-kept mq sets (o ∷ ots) maps ot h =
          allocate_types-kept mq sets ots _ ot
            (put_map-HasAll sets o ot _ maps (allocate_type-HasAll o mq (sets o) []) (λ other. h))

      pub allocate_types-MapsFit :
          (mq : Mq F) (sets : ObjectType → StatusSet) (ots : List ObjectType) (maps : Maps F)
          → All
              (λ ot.
                HasAll
                  (type_names ot)
                  (sets ot)
                  (allocate_types mq c hostname_label override_c_type sets ots maps ot))
              ots
      unfolding allocate_types
      allocate_types-MapsFit mq sets [] maps = tt
      allocate_types-MapsFit mq sets (o ∷ ots) maps =
          let made = allocate_type-HasAll o mq (sets o) [] in
          let m = allocate_type mq c hostname_label override_c_type o (sets o) [] in
          (
            allocate_types-kept mq sets ots (put_map o m maps) o
                (put_map-HasAll sets o o m maps made (λ other. absurd (ground arith))),
            allocate_types-MapsFit mq sets ots (put_map o m maps),
          )

      allocate_gauges-Keeps :
          (mq : Mq F) (topic_of : Bytes → Bytes) (elems : List Element) (m : VecMap F)
          → All (λ e. topic_of (make_key e) ≡ e.object_topic) elems
          → Keeps
              (rua_names topic_of)
              m
              (allocate_gauges mq c hostname_label override_c_type elems m)
      unfolding allocate_gauges new_mq_vec
      allocate_gauges-Keeps mq topic_of [] m t k h = h
      allocate_gauges-Keeps mq topic_of (e ∷ elems) m t k h =
          allocate_gauges-Keeps mq topic_of elems _ t.1 k (
            insert-Keeps (rua_names topic_of) (make_key e)
              (new_mq_vec c hostname_label override_c_type e) m (rw t.0 refl) k h)

      pub allocate_gauges-Named :
          (mq : Mq F) (topic_of : Bytes → Bytes) (elems : List Element) (m : VecMap F)
          → All (λ e. topic_of (make_key e) ≡ e.object_topic) elems
          → All
              (λ e.
                Named
                  (rua_names topic_of)
                  (allocate_gauges mq c hostname_label override_c_type elems m)
                  (make_key e))
              elems
      unfolding allocate_gauges new_mq_vec
      allocate_gauges-Named mq topic_of [] m t = tt
      allocate_gauges-Named mq topic_of (e ∷ elems) m t =
          let v = new_mq_vec c hostname_label override_c_type e in
          (
            allocate_gauges-Keeps mq topic_of elems (insert (make_key e) v m) t.1 (make_key e)
                (insert-Named (rua_names topic_of) (make_key e) v m (rw t.0 refl)),
            allocate_gauges-Named mq topic_of elems (insert (make_key e) v m) t.1,
          )
