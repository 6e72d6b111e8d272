-- ===== src/Config/Record.antt =====
-- pkg/config/config.go: the structure Config, with the package's `filters` and `cfMoved`. Its plain
-- variables are named by their paths, as in Config/Parms/Vars.
use mq_metric_samples.Prelude.{ℕ, Bytes, List, Option}
use mq_metric_samples.Prelude.Int.{ℤ}
use mq_metric_samples.Config.Parms.Vars.{Vars}

-- A set of metric names; `none` is a nil map, to which Go cannot write.
abbrev pub NameSet : Type 0
NameSet = Option (List Bytes)

pub record Config : Type 0 where
  pub vars : Vars
  pub metadata_tags_array : List Bytes
  pub metadata_values_array : List Bytes
  pub tz_offset_secs : ℤ
  pub poll_interval_duration : ℤ
  pub rediscover_duration : ℤ
  -- CC.MetricFilter[i].Include and .Exclude
  pub include : ℕ → NameSet
  pub exclude : ℕ → NameSet
