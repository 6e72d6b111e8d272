-- ===== src/Json/Collect/Publish.antt =====
-- cmd/mq_json/exporter.go, Collect: the points of the published metrics and of the statistics.
use mq_metric_samples.Prelude.{
  Bytes, codes, bytes_eq, has_prefix, List, [], ◌∷◌, Option, none, some, ◌>>=◌, lookup, insert, set,
  if◌then◌else◌,
}
use mq_metric_samples.Prelude.Int.{ℤ}
use mq_metric_samples.Amqsevtg.Values.{replace_all}
use mq_metric_samples.Config.Record.{Config}
use mq_metric_samples.Config.Verify.Steps.{str_of, bool_of}
use mq_metric_samples.Json.Labels.{Tags}
use mq_metric_samples.Json.Points.Blocks.{
  with_custom, put_host_name, usage_string, named_queue, q_mgr_point,
}
use mq_metric_samples.Json.Points.Merge.{put_metric, add_point}
use mq_metric_samples.Json.Points.{Point, PointMap, Points, Described}
use mq_metric_samples.Mqmetric.{
  Value, Attribute, StatusSet, Element, Mq, ObjectType, ot_q, ot_q_mgr, text_of, put_all,
}

-- mqmetric.QMgrMapKey and NativeHAKeyPrefix
abbrev pub q_mgr_map_key : Bytes
q_mgr_map_key = codes "@self"

abbrev pub native_ha_key_prefix : Bytes
native_ha_key_prefix = codes "@NATIVEHA@"

module _ {F : Type 0} (trim_space : Bytes → Bytes) (topic_key : Bytes → Bytes → Bytes) (mq : Mq F)
    (c : Config) where
  abbrev untrimmed : Tags
  untrimmed =
      put_all ((codes "qmgr", str_of c "cm.QMgrName") ∷ (codes "platform", mq.platform) ∷ []) []

  -- The type and the tags of a published point.
  unfoldable pub published_kind : Bytes → Bytes × Tags
  unfolding bytes_eq has_prefix insert with_custom put_host_name usage_string
  published_kind key =
      if bytes_eq key q_mgr_map_key
      then (
        codes "qmgr",
        with_custom trim_space topic_key mq c [] ot_q_mgr (
            put_host_name trim_space topic_key mq c (
              put_all
                ((codes "description", mq.object_description [] ot_q_mgr)
                  ∷ (codes "qmid", mq.q_mgr_identifier (str_of c "cm.QMgrName"))
                  ∷ [])
                untrimmed)),
      )
      else if has_prefix key native_ha_key_prefix
      then (codes "nha", insert (codes "nha") (replace_all native_ha_key_prefix [] key) untrimmed)
      else (
        codes "queue",
        with_custom trim_space topic_key mq c key ot_q (
            put_all
              ((codes "queue", key)
                ∷ (codes "usage", usage_string trim_space topic_key mq c key)
                ∷ (codes "description", mq.object_description key ot_q)
                ∷ (codes "cluster", mq.queue_cluster key)
                ∷ [])
              untrimmed),
      )

  abbrev pub published_point : Bytes → Described
  published_point key = record {
    key1 = key;
    preferred = none;
    new_type = (published_kind key).0;
    new_tags = (published_kind key).1;
  }

  -- The same handling of a point, in the map `m` in place of ptMap: the metrics and the cache, and the
  -- map after it.
  unfoldable pub add_point_in :
      PointMap → Described → Bytes → F → Points F → Option (PointMap × Points F)
  unfolding add_point
  add_point_in m d name f p =
      add_point trim_space topic_key mq c d name f (record p { published = m; status = m })
      >>= λ p'. some (p'.status, record p' { published = p.published; status = p.status })

  unfoldable pub publish_value : Element → Bytes × ℤ → Points F → Option (Points F)
  unfolding add_point_in published_kind
  publish_value elem (key, value) p =
      add_point_in p.published (published_point key) elem.element_name
        (mq.normalise_element elem key value) p
      >>= λ r. some (record r.1 { published = r.0 })

  unfoldable pub publish_values : Element → List (Bytes × ℤ) → Points F → Option (Points F)
  unfolding publish_value
  publish_values elem [] p = some p
  publish_values elem (v ∷ vs) p = publish_value elem v p >>= λ p'. publish_values elem vs p'

  unfoldable pub publish : List Element → Points F → Option (Points F)
  unfolding publish_values
  publish [] p = some p
  publish (elem ∷ elems) p = publish_values elem elem.element_values p >>= λ p'. publish elems p'

  -- The name of the queue manager is that of its status.
  unfoldable pub statistics_point : ObjectType → Bytes → Option Described
  unfolding named_queue q_mgr_point
  statistics_point ot_q key = text_of (mq.object_statistics ot_q) (codes "name") key >>= λ q_name.
      some (named_queue trim_space topic_key mq c key q_name)
  statistics_point _ key = q_mgr_point trim_space topic_key mq c key

  -- ptMapStats, with the rest.
  abbrev pub WithStats : Type 0
  WithStats = PointMap × Points F

  unfoldable pub statistics_value :
      ObjectType → Attribute → Bytes × Value → WithStats → Option WithStats
  unfolding statistics_point add_point_in
  statistics_value ot attr (key, value) (m, p) =
      if value.is_int64
      then (statistics_point ot key >>= λ d.
          add_point_in m d attr.metric_name (mq.normalise ot attr value.value_int64) p)
      else some (m, p)

  unfoldable pub statistics_values :
      ObjectType → Attribute → List (Bytes × Value) → WithStats → Option WithStats
  unfolding statistics_value
  statistics_values ot attr [] s = some s
  statistics_values ot attr (v ∷ vs) s =
      statistics_value ot attr v s >>= λ s'. statistics_values ot attr vs s'

  unfoldable pub statistics_set : ObjectType → StatusSet → WithStats → Option WithStats
  unfolding statistics_values
  statistics_set ot [] s = some s
  statistics_set ot ((k, attr) ∷ set) s =
      statistics_values ot attr attr.values s >>= λ s'. statistics_set ot set s'

  unfoldable pub statistics : WithStats → Option WithStats
  unfolding statistics_set
  statistics s =
      if bool_of c "cm.CC.UseStatistics"
      then (statistics_set ot_q_mgr (mq.object_statistics ot_q_mgr) s >>= λ s'.
          statistics_set ot_q (mq.object_statistics ot_q) s')
      else some s

  unfoldable pub put_count : Option Point → Points F → Points F
  unfolding put_metric
  put_count none p = p
  put_count (some pt) p =
      let q =
        put_metric trim_space topic_key mq c q_mgr_map_key (codes "exporter_publications")
          mq.publication_count
          (record pt { object_type = [] }, record p { status = p.published }) in
      record q { published = insert q_mgr_map_key pt p.published; status = p.status }

  -- How many publications were processed, where the queue manager has a published point.
  unfoldable pub count_publications : Points F → Points F
  unfolding put_count lookup
  count_publications p = put_count (lookup q_mgr_map_key p.published) p
