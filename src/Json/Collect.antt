-- ===== src/Json/Collect.antt =====
-- cmd/mq_json/exporter.go: Collect. What mqmetric holds and answers, and the time, are an argument.
pub mod Publish
pub mod Kept
pub mod Printed
use mq_metric_samples.Prelude.{
  ℕ, ◌-◌, Bytes, Bool, true, false, ◌&&◌, ◌||◌, List, [], ◌∷◌, ◌++◌, map, Option, none, some, ◌>>=◌,
  leb, ltb, if◌then◌else◌,
}
use mq_metric_samples.Prelude.Int.{ℤ}
use mq_metric_samples.Config.Record.{Config}
use mq_metric_samples.Json.Chunk.{chunk}
use mq_metric_samples.Json.Collect.Publish.{publish, statistics, count_publications}
use mq_metric_samples.Json.Points.Merge.{channel_loop}
use mq_metric_samples.Json.Points.{Point, PointMap, Points}
use mq_metric_samples.Json.Poll.{Collector, Poll, Polling, poll}
use mq_metric_samples.Mqmetric.{Mq, ot_channel}

-- What lasts from one call to the next: `first`, the two times, the metrics and the cache of fixup, and
-- AllPoints. The count of errors is that of pkg/errors.
pub record Exporter (F : Type 0) : Type 0 where
  pub first : Bool
  pub last_poll : ℕ
  pub last_queue_discovery : ℕ
  pub points : Points F
  pub all_points : List Point

-- What a call meets.
pub record World (F : Type 0) : Type 0 where
  pub mq : Mq F
  pub config : Config
  pub publications_fail : Bool
  pub polling : Polling
  pub this_poll : ℕ
  pub this_discovery : ℕ
  pub poll_interval : ℕ
  pub rediscover_interval : ℕ
  pub record_max : ℤ

-- The chunks that are printed, and the error of the poll, with which HandleStatus is called and which
-- is returned.
pub data Collected (F : Type 0) : Type 0 where
  collected : Exporter F → List (List Point) → Option Collector → Collected F
  fatal : Collected F
  panicked : Collected F

abbrev pub points_of : PointMap → List Point
points_of m = map (λ kv. kv.1) m

module _ {F : Type 0} (trim_space : Bytes → Bytes) (topic_key : Bytes → Bytes → Bytes)
    (w : World F) where
  unfoldable pub poll_due : Exporter F → Bool
  poll_due s = leb w.poll_interval (w.this_poll - s.last_poll) || s.first

  unfoldable pub rediscovery_due : Exporter F → Bool
  rediscovery_due s =
      ltb 0 w.rediscover_interval
      && leb w.rediscover_interval (w.this_discovery - s.last_queue_discovery)

  -- ptMapPub, ptMapStats and ptMap are new in each call.
  abbrev pub fresh : Points F → Points F
  fresh p = record p { published = []; status = [] }

  unfoldable pub status_points : Bool → Points F → Option (Points F)
  unfolding channel_loop
  status_points true p =
      channel_loop trim_space topic_key w.mq w.config (w.mq.object_status ot_channel) p
  status_points false p = some p

  -- All maps of points, in the order in which they are filled.
  unfoldable pub fill : Bool → Points F → Option (PointMap × Points F)
  unfolding publish statistics count_publications status_points
  fill poll_status p = publish trim_space topic_key w.mq w.config w.mq.published (fresh p) >>= λ p₁.
      statistics trim_space topic_key w.mq w.config ([], p₁) >>= λ s.
      status_points poll_status (count_publications trim_space topic_key w.mq w.config s.1)
      >>= λ p₂. some (s.0, p₂)

  -- AllPoints is emptied only where the status has been polled.
  unfoldable pub listed : Bool → List Point → PointMap × Points F → List Point
  listed poll_status old (m, p) =
      (if poll_status then points_of p.status else old) ++ (points_of p.published ++ points_of m)

  -- There is always a list of chunks.
  unfoldable pub in_chunks :
      Option Collector
      → Exporter F
      → List Point
      → PointMap × Points F
      → Option (List (List Point))
      → Collected F
  in_chunks err s all r none = panicked
  in_chunks err s all r (some chunks) =
      collected (record s { points = r.1; all_points = all }) chunks err

  unfoldable pub printed :
      Option Collector → Exporter F → List Point → PointMap × Points F → Collected F
  unfolding chunk in_chunks
  printed err s all r = in_chunks err s all r (chunk all w.record_max)

  unfoldable pub reported :
      Bool → Option Collector → Exporter F → Option (PointMap × Points F) → Collected F
  unfolding printed listed
  reported poll_status err s none = panicked
  reported poll_status err s (some r) = printed err s (listed poll_status s.all_points r) r

  -- The first collection reports nothing.
  unfoldable pub report : Bool → Option Collector → Exporter F → Collected F
  unfolding reported fill
  report poll_status err s =
      if s.first
      then collected (record s { first = false }) [] err
      else reported poll_status err s (fill poll_status s.points)

  unfoldable pub times : Exporter F → Exporter F
  unfolding poll_due rediscovery_due
  times s = record s {
    last_poll = if poll_due s then w.this_poll else s.last_poll;
    last_queue_discovery = if rediscovery_due s then w.this_discovery else s.last_queue_discovery;
  }

  unfoldable pub collect : Exporter F → Collected F
  unfolding poll_due times report poll
  collect s =
      if w.publications_fail
      then fatal
      else report (poll_due s) (if poll_due s then (poll w.polling).poll_error else none) (times s)
