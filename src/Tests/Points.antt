-- ===== src/Tests/Points.antt =====
-- A queue with a published point.
use mq_metric_samples.Prelude.{
  Bytes, ◌==◌, if◌then◌else◌, arith, codes, bytes_eq, to_lower_byte, to_upper_byte, insert, length,
  List, false, ℕ, lookup, true, ◌++◌, [], ◌∷◌, some, ◌≡◌, refl,
}
use mq_metric_samples.Json.Points.{Point, Points}
use mq_metric_samples.Json.Chunk.{chunk}
use mq_metric_samples.Json.Collect.{Exporter, World, Collected, collected, collect}
use mq_metric_samples.Json.Collect.Publish.{publish_value}
use mq_metric_samples.Json.Points.Merge.{status_value, metrics_at}
use mq_metric_samples.Json.Fixup.{fixup}
use mq_metric_samples.Json.Poll.{poll, collect_others, collect_platform}
use mq_metric_samples.Json.Points.Merge.Shared.{status_value-published}
use mq_metric_samples.Mqmetric.{Value, Element, ot_q}
use mq_metric_samples.Prelude.Int.{pos}
use mq_metric_samples.Tests.Files.{raw_config}
use mq_metric_samples.Tests.Telemetry.{mq, number_value}

abbrev published_point : Point
published_point = record { object_type = codes "queue"; point_tags = []; metric = 0 }

abbrev start : Points ℕ
start = record {
  fixup_string = [];
  store = [] ∷ [];
  published = (codes "APP.Q", published_point) ∷ [];
  status = [];
}

abbrev five : Value
five = record { is_int64 = true; value_int64 = pos 5; value_string = [] }

status_value-published_example :
    (p' : Points ℕ) × (status_value
        (λ s. s)
        (λ t s. t ++ codes "/" ++ s)
        mq
        raw_config
        ot_q
        (number_value (codes "queue_depth") 5)
        (codes "APP.Q")
        five
        start
      ≡ some p')
    × (lookup (codes "queue/" ++ codes "APP.Q") p'.status ≡ some published_point)
    × (p'.published ≡ start.published)
    × ((k : Bytes)
        → lookup k (metrics_at 0 p'.store) ≡ (
            if bytes_eq (fixup (codes "queue_depth") (codes "queue") []).0 k
            then some 5
            else lookup k (metrics_at 0 start.store)))
    × ((j : ℕ) → (0 == j) ≡ false → metrics_at j p'.store ≡ metrics_at j start.store)
unfolding lookup bytes_eq
status_value-published_example =
    status_value-published (λ s. s) (λ t s. t ++ codes "/" ++ s) mq raw_config
      (number_value (codes "queue_depth") 5) (codes "APP.Q") (codes "APP.Q") five start refl refl
      refl (omega arith)

-- A publication about a queue.
abbrev messages : Element
messages = record {
  class_name = codes "STATQ";
  type_name = codes "GENERAL";
  object_topic = [];
  element_name = codes "messages";
  element_description = [];
  element_description_nls = [];
  is_delta = false;
  element_values = (codes "APP.Q", pos 7) ∷ [];
}

abbrev world : World ℕ
world = record {
  mq = record mq { published = messages ∷ [] };
  config = raw_config;
  publications_fail = false;
  polling = record {
    use_status = true;
    is_zos = false;
    amqp_monitored = false;
    mqtt_monitored = false;
    fails = λ k. false;
  };
  this_poll = 100;
  this_discovery = 100;
  poll_interval = 30;
  rediscover_interval = 0;
  record_max = pos 1;
}

-- Its second call.
abbrev exporter : Exporter ℕ
exporter = record {
  first = false;
  last_poll = 10;
  last_queue_discovery = 10;
  points = record { fixup_string = []; store = []; published = []; status = [] };
  all_points = [];
}

abbrev exporter_of : Collected ℕ → Exporter ℕ
exporter_of (collected s chunks err) = s
exporter_of _ = exporter

abbrev chunks_of : Collected ℕ → List (List Point)
chunks_of (collected s chunks err) = chunks
chunks_of _ = []

abbrev outcome : Collected ℕ
outcome = collect (λ s. s) (λ t s. t ++ codes "/" ++ s) world exporter

-- The queue, and no queue manager.
one_chunk : length (chunks_of outcome) ≡ 1
unfolding collect publish_value lookup bytes_eq to_lower_byte to_upper_byte insert poll
    collect_others collect_platform chunk
one_chunk = refl
