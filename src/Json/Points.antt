-- ===== src/Json/Points.antt =====
-- cmd/mq_json/exporter.go, Collect: the points of the status. A point's metrics are a map that it may
-- share with a published point, so they are in a store, and a point has its place there. `none` is a
-- panic.
pub mod Blocks
pub mod Merge
use mq_metric_samples.Prelude.{ℕ, Bytes, List, Option}
use mq_metric_samples.Json.Fixup.{Cache}
use mq_metric_samples.Json.Labels.{Tags}

-- `pointsStruct`
pub record Point : Type 0 where
  pub object_type : Bytes
  pub point_tags : Tags
  pub metric : ℕ

abbrev pub PointMap : Type 0
PointMap = List (Bytes × Point)

-- The metrics of all points, the maps ptMapPub and ptMap, and the cache of fixup.
pub record Points (F : Type 0) : Type 0 where
  pub fixup_string : Cache
  pub store : List (List (Bytes × F))
  pub published : PointMap
  pub status : PointMap

-- What a block makes of a key: its own key, that of a published point to be preferred, if it looks for
-- one, and the type and tags of a new point.
pub record Described : Type 0 where
  pub key1 : Bytes
  pub preferred : Option Bytes
  pub new_type : Bytes
  pub new_tags : Tags
