-- ===== src/Prometheus/Allocate.antt =====
-- cmd/mq_prometheus/exporter.go: the maps of vectors, allocateAllGauges, and Describe. What the
-- functions …InitAttributes of mqmetric set up is among mqmetric's data. `none` is the panic on a
-- vector that a map does not have.
pub mod Fits
pub mod Described
use mq_metric_samples.Prelude.{
  ℕ, Bytes, Bool, true, false, List, [], ◌∷◌, ◌++◌, Option, none, some, ◌>>=◌, lookup, insert, ◌==◌,
  if◌then◌else◌,
}
use mq_metric_samples.Config.Record.{Config}
use mq_metric_samples.Config.Verify.Steps.{bool_of}
use mq_metric_samples.Mqmetric.{
  Attribute, Element, Mq, ObjectType, StatusSet, ot_q, ot_channel, ot_topic, ot_sub, ot_cluster,
  ot_q_mgr, ot_bp, ot_ps, ot_channel_amqp, ot_channel_mqtt,
}
use mq_metric_samples.Prometheus.Scrape.{VecMap}
use mq_metric_samples.Prometheus.Vectors.{MqVec, make_key, new_mq_vec, new_mq_vec_obj}

-- The maps of one kind, by the types of objects.
abbrev pub Maps : Type 0 → Type 0
Maps F = ObjectType → VecMap F

-- The thirteen maps: ruaVecMap, those for the status and those for the statistics.
pub record Vecs (F : Type 0) : Type 0 where
  pub rua : VecMap F
  pub status_maps : Maps F
  pub statistics_maps : Maps F

unfoldable pub type_index : ObjectType → ℕ
type_index ot_q = 0
type_index ot_channel = 1
type_index ot_topic = 2
type_index ot_sub = 3
type_index ot_cluster = 4
type_index ot_q_mgr = 5
type_index ot_bp = 6
type_index ot_ps = 7
type_index ot_channel_amqp = 8
type_index ot_channel_mqtt = 9

unfoldable pub put_map : {F : Type 0} → ObjectType → VecMap F → Maps F → Maps F
unfolding type_index
put_map ot m maps = λ ot'. if type_index ot == type_index ot' then m else maps ot'

-- The types that only one platform has, and those of every platform, in the order of Describe.
abbrev pub platform_types : Bool → List ObjectType
platform_types true = ot_bp ∷ ot_ps ∷ []
platform_types false = ot_channel_amqp ∷ ot_channel_mqtt ∷ []

abbrev pub shared_types : List ObjectType
shared_types = ot_channel ∷ ot_q ∷ ot_topic ∷ ot_sub ∷ ot_cluster ∷ ot_q_mgr ∷ []

abbrev pub statistics_types : List ObjectType
statistics_types = ot_q_mgr ∷ ot_q ∷ []

module _ {F : Type 0} (mq : Mq F) (c : Config) (hostname_label : Bool)
    (override_c_type : Bool) where
  unfoldable pub allocate_gauges : List Element → VecMap F → VecMap F
  unfolding make_key new_mq_vec insert
  allocate_gauges [] m = m
  allocate_gauges (elem ∷ elems) m =
      allocate_gauges elems
        (insert (make_key elem) (new_mq_vec c hostname_label override_c_type elem) m)

  -- The loop of the functions allocate…Gauges.
  unfoldable pub allocate_type : ObjectType → StatusSet → VecMap F → VecMap F
  unfolding new_mq_vec_obj insert
  allocate_type ot [] m = m
  allocate_type ot ((k, attr) ∷ set) m =
      allocate_type ot set
        (insert attr.metric_name (new_mq_vec_obj c hostname_label override_c_type attr ot) m)

  unfoldable pub allocate_types : (ObjectType → StatusSet) → List ObjectType → Maps F → Maps F
  unfolding allocate_type put_map
  allocate_types sets [] maps = maps
  allocate_types sets (ot ∷ ots) maps =
      allocate_types sets ots (put_map ot (allocate_type ot (sets ot) []) maps)

  -- The types whose status gets vectors, and those whose statistics do.
  abbrev pub status_types : List ObjectType
  status_types = shared_types ++ platform_types mq.is_zos

  abbrev pub allocated_statistics : List ObjectType
  allocated_statistics =
      if mq.is_zos then [] else if bool_of c "cm.CC.UseStatistics" then statistics_types else []

  abbrev no_maps : Maps F
  no_maps ot = []

  unfoldable pub allocate_all_gauges : Vecs F
  unfolding allocate_gauges allocate_types
  allocate_all_gauges = record {
    rua = allocate_gauges mq.published [];
    status_maps = allocate_types mq.object_status status_types no_maps;
    statistics_maps = allocate_types mq.object_statistics allocated_statistics no_maps;
  }

  -- Describe passes on each vector once for its attribute.
  unfoldable pub describe_elements : List Element → VecMap F → Option (List (MqVec F))
  unfolding make_key lookup
  describe_elements [] m = some []
  describe_elements (elem ∷ elems) m =
      lookup (make_key elem) m >>= λ v. describe_elements elems m >>= λ vs. some (v ∷ vs)

  unfoldable pub describe_set : StatusSet → VecMap F → Option (List (MqVec F))
  unfolding lookup
  describe_set [] m = some []
  describe_set ((k, attr) ∷ set) m =
      lookup attr.metric_name m >>= λ v. describe_set set m >>= λ vs. some (v ∷ vs)

  unfoldable pub describe_types :
      (ObjectType → StatusSet) → List ObjectType → Maps F → Option (List (MqVec F))
  unfolding describe_set
  describe_types sets [] maps = some []
  describe_types sets (ot ∷ ots) maps = describe_set (sets ot) (maps ot) >>= λ vs.
      describe_types sets ots maps >>= λ rest. some (vs ++ rest)

  -- The statistics are described on every platform but z/OS, whether they are used or not; they come
  -- before the channels of the platform.
  unfoldable pub describe : Vecs F → Option (List (MqVec F))
  unfolding describe_elements describe_types
  describe vecs = describe_elements mq.published vecs.rua >>= λ published.
      describe_types mq.object_status shared_types vecs.status_maps >>= λ shared.
      describe_types mq.object_statistics (if mq.is_zos then [] else statistics_types)
        vecs.statistics_maps
      >>= λ statistics.
          describe_types mq.object_status (platform_types mq.is_zos) vecs.status_maps
          >>= λ platform. some (published ++ shared ++ statistics ++ platform)
