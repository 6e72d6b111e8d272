-- ===== src/Tests/Telemetry.antt =====
-- Collections of the OpenTelemetry collector.
use mq_metric_samples.Prelude.{
  ℕ, arith, ◌⨾◌, Bytes, codes, Bool, true, false, List, [], ◌∷◌, Option, none, some, lookup,
  bytes_eq, map, ◌≡◌, refl,
}
use mq_metric_samples.Prelude.Int.{ℤ, pos}
use mq_metric_samples.Json.Poll.{queue_status, q_mgr_status, poll}
use mq_metric_samples.Mqmetric.{Mq, ObjectType, ot_q, ot_channel, Attribute, StatusSet}
use mq_metric_samples.Otel.Gauges.{Report}
use mq_metric_samples.Otel.Gauges.Held.{Tidy, gauges_of}
use mq_metric_samples.Otel.Gauges.Slices.{kept}
use mq_metric_samples.Otel.Reader.{
  Reader, World, polled, collected, handled, failure, poll_all, polling, poll_failure,
  rediscovery_due, reports, get_metrics,
}
use mq_metric_samples.Otel.Reader.Cycle.{get_metrics-gauges}
use mq_metric_samples.Otel.Reader.Total.{get_metrics-Returns}
use mq_metric_samples.Otel.Reports.Given.{is}
use mq_metric_samples.Otel.Reports.Total.{Named}
use mq_metric_samples.Otel.Reader.Errors.{poll_all-poll}
use mq_metric_samples.Tests.Files.{raw_config}

-- A queue of depth 5.
abbrev text_value : Bytes → Attribute
text_value s = record {
  metric_name = codes "name";
  description = [];
  delta = false;
  pseudo = true;
  values = (codes "APP.Q", record { is_int64 = false; value_int64 = pos 0; value_string = s }) ∷ [];
}

abbrev pub number_value : Bytes → ℕ → Attribute
number_value name n = record {
  metric_name = name;
  description = [];
  delta = false;
  pseudo = false;
  values = (codes "APP.Q", record { is_int64 = true; value_int64 = pos n; value_string = [] }) ∷ [];
}

abbrev pub statuses : ObjectType → StatusSet
statuses ot_q =
    (codes "name", text_value (codes "APP.Q"))
    ∷ (codes "depth", number_value (codes "queue_depth") 5)
    ∷ (codes "attribute_usage", number_value (codes "attribute_usage") 0)
    ∷ []
statuses _ = []

abbrev number_of : ℤ → ℕ
number_of (pos n) = n
number_of _ = 0

abbrev pub mq : Mq ℕ
mq = record {
  is_zos = false;
  platform = codes "UNIX";
  object_status = statuses;
  object_statistics = λ ot. [];
  published = [];
  publication_count = 0;
  normalise_element = λ elem key v. number_of v;
  normalise = λ ot attr v. number_of v;
  object_description = λ name ot. [];
  object_custom = λ name ot. [];
  queue_cluster = λ name. [];
  q_mgr_identifier = λ name. codes "QM1_ID";
  q_mgr_host_name = λ name. codes "-";
  channel_type_name = λ v. [];
  sub_type_name = λ v. [];
}

-- The status of the queue manager cannot be had.
abbrev world : World ℕ
world = record {
  mq = mq;
  config = raw_config;
  this_poll = 100;
  this_discovery = 100;
  poll_interval = 30;
  rediscover_interval = 60;
  publications_fail = false;
  fails = λ k. elim k [ q_mgr_status ↦ true | _ ↦ false ];
  amqp_rediscovery_fails = false;
  mqtt_rediscovery_fails = false;
  elapsed_secs = 1;
}

-- With a gauge left from the collection before.
abbrev reader : Reader ℕ
reader = record {
  first = false;
  last_poll = 40;
  last_queue_discovery = 0;
  error_count = 0;
  instruments = record {
    counter_map = [];
    added = [];
    gauge_map = (codes "ibmmq.queue.depth", record { gauge_value = 9; gauge_tags = [] } ∷ []) ∷ [];
    callbacks = codes "ibmmq.queue.depth" ∷ [];
  };
}

abbrev any_name : Bytes → Bool
any_name s = true

abbrev pub untrimmed : Bytes → Bytes
untrimmed s = s

abbrev reports_or_none : Option (List (Report ℕ)) → List (Report ℕ)
reports_or_none none = []
reports_or_none (some rs) = rs

abbrev reported : List (Report ℕ)
reported = reports_or_none (reports untrimmed world reader)

reader-reports : reports untrimmed world reader ≡ some reported
unfolding reports lookup bytes_eq
reader-reports = refl

reader_names :
    map (λ r. r.report_name) reported
    ≡ codes "exporter_publications"
      ∷ codes "queue_depth"
      ∷ codes "attribute_usage"
      ∷ codes "exporter_collection_time"
      ∷ []
unfolding reports lookup bytes_eq
reader_names = refl

reader-handled : handled world reader ≡ some 1
unfolding handled
reader-handled = refl

reader_fails : poll_failure world reader ≡ some (polled q_mgr_status)
unfolding poll_failure
reader_fails = refl

rediscovers : rediscovery_due world reader ≡ true
unfolding rediscovery_due
rediscovers = refl

reader-Tidy : Tidy {F = ℕ} any_name false reader.instruments.gauge_map
unfolding lookup
reader-Tidy = ((refl, tt), λ j h. refl)

get_metrics-gauges_example :
    (s' : Reader ℕ) × (get_metrics untrimmed any_name false world reader
      ≡ collected s' (failure world reader))
    × Tidy any_name false s'.instruments.gauge_map
    × ((j : Bytes) → lookup j s'.instruments.gauge_map ≡ kept (gauges_of any_name false j reported))
get_metrics-gauges_example =
    get_metrics-gauges untrimmed any_name false world reader reported 1 refl reader-handled
      reader-reports reader-Tidy

poll_all-poll_example :
    (world.fails queue_status ≡ false → poll_all world ≡ poll (polling world))
    × (world.fails queue_status ≡ true → (poll_all world).calls ≡ queue_status ∷ q_mgr_status ∷ [])
poll_all-poll_example = poll_all-poll world

-- With the attributes of channels, but no channel.
abbrev no_values : Bytes → Attribute
no_values s = record {
  metric_name = s;
  description = [];
  delta = false;
  pseudo = true;
  values = [];
}

abbrev with_channels : ObjectType → StatusSet
with_channels ot_channel =
    (codes "rqmname", no_values (codes "rqmname"))
    ∷ (codes "sslciph", no_values (codes "sslciph"))
    ∷ []
with_channels ot = statuses ot

abbrev named_world : World ℕ
named_world = record world { mq = record mq { object_status = with_channels } }

named_world-Named : Named untrimmed named_world.mq raw_config
unfolding lookup bytes_eq
named_world-Named = record {
  usage = is _;
  rqmname = is _;
  sslciph = is _;
  queues = ((is _ ⨾ tt) ⨾ tt) ⨾ ((is _ ⨾ tt) ⨾ tt) ⨾ ((is _ ⨾ tt) ⨾ tt) ⨾ tt;
  queue_statistics = tt;
  channels = tt ⨾ tt ⨾ tt;
  topics = tt;
  subs = tt;
  clusters = tt;
  bufferpools = tt;
  pagesets = tt;
  amqp = tt;
  mqtt = tt;
}

named_handled : handled named_world reader ≡ some 1
unfolding handled
named_handled = refl

get_metrics-Returns_example :
    (s' : Reader ℕ) × (get_metrics untrimmed any_name false named_world reader
      ≡ collected s' (failure named_world reader))
get_metrics-Returns_example =
    get_metrics-Returns untrimmed named_world any_name false reader 1 refl named_handled
      named_world-Named (omega arith)
