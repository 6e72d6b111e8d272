-- ===== src/Tests/Scrapes.antt =====
-- Scrapes of the Prometheus collector.
use mq_metric_samples.Prelude.{
  ℕ, ◌+◌, Bytes, codes, bytes_eq, Bool, true, false, ◌&&◌, ◌==◌, List, [], ◌∷◌, Option, some,
  lookup, length, All, All-In, ◌≡◌, ◌↔◌, ◌⊎◌, inr, ◌⨾◌, none, here, has_prefix, refl, arith,
}
use mq_metric_samples.Config.Record.{Config}
use mq_metric_samples.Json.Labels.{Tags}
use mq_metric_samples.Mqmetric.{Mq, Element, Attribute, ObjectType, ot_q, ot_q_mgr, StatusSet}
use mq_metric_samples.Otel.Gauges.{is_known}
use mq_metric_samples.Prometheus.Labels.{
  Labelling, labelled, left_out, published_labels, usage_of, disconnected_labels,
}
use mq_metric_samples.Config.Verify.Steps.{bool_of}
use mq_metric_samples.Prelude.Int.{pos}
use mq_metric_samples.Prometheus.Allocate.{allocate_all_gauges, describe, statistics_types}
use mq_metric_samples.Prometheus.Allocate.Fits.{IsAllocated}
use mq_metric_samples.Prometheus.Allocate.Described.{
  TopicsFit, allocate_all_gauges-IsAllocated, describe_returns_iff,
}
use mq_metric_samples.Prometheus.Collect.{
  World, Scraper, Sample, scrape, statistics_labels, number_for,
}
use mq_metric_samples.Prometheus.Collect.Filled.{Labelled, TextsValid}
use mq_metric_samples.Prometheus.Collect.Steps.{Fits}
use mq_metric_samples.Prometheus.Collect.Total.{scrape-Returns}
use mq_metric_samples.Prometheus.Labels.Cover.{Covers, ValidTexts, all_known}
use mq_metric_samples.Prometheus.Labels.Match.{labels_of}
use mq_metric_samples.Prometheus.Labels.Accepted.{MetadataFits}
use mq_metric_samples.Prometheus.Reconnect.{initial}
use mq_metric_samples.Prometheus.Vectors.{
  MqVec, new_mq_vec_obj, make_key, published_names, contains_text, own_names,
}
use mq_metric_samples.Prometheus.Vectors.Keys.{make_key-injective}
use mq_metric_samples.Tests.Files.{raw_config}
use mq_metric_samples.Tests.Telemetry.{mq, number_value, untrimmed}

-- Labels are taken if each name has one and there are no more.
abbrev covering : List Bytes → Tags → Bool
covering names labels = all_known names labels && length labels == length names

all_known_lem :
    (names : List Bytes) (labels : Tags)
    → All (λ n. is_known n labels ≡ true) names
    → all_known names labels ≡ true
all_known_lem [] labels h = refl
all_known_lem (n ∷ names) labels h = ground (arith, all_known_lem names labels h.1)

abbrev any_text : Bytes → Bool
any_text v = true

covering_takes :
    (names : List Bytes) (labels : Tags)
    → Covers names labels
    → ValidTexts any_text labels
    → covering names labels ≡ true
covering_takes names labels h t = ground (arith, all_known_lem names labels h.0)

-- No number is negative, and every text is valid.
abbrev no_number : ℕ → Bool
no_number f = false

abbrev same_length : Tags → Tags → Bool
same_length a b = length a == length b

abbrev plus : ℕ → ℕ → ℕ
plus a b = a + b

abbrev sites : Config
sites = record raw_config {
  metadata_tags_array = codes "site" ∷ [];
  metadata_values_array = codes "north" ∷ [];
}

sites_fit : MetadataFits sites
unfolding bytes_eq
sites_fit = ((tt, tt), (refl, tt), omega arith)

abbrev depth : Attribute
depth = number_value (codes "depth") 5

abbrev depth_vec : MqVec ℕ
depth_vec = new_mq_vec_obj sites true false depth ot_q

abbrev tags_or_none : Option Labelling → Tags
tags_or_none (some (labelled tags)) = tags
tags_or_none _ = []

abbrev queue_base : Tags
queue_base = tags_or_none (labels_of untrimmed mq sites true ot_q (codes "APP.Q"))

queue_labelled : labels_of untrimmed mq sites true ot_q (codes "APP.Q") ≡ some (labelled queue_base)
unfolding labels_of lookup bytes_eq
queue_labelled = refl

abbrev depth_set : StatusSet
depth_set = (codes "depth", depth) ∷ []

abbrev cpu_load : Element
cpu_load = record {
  class_name = codes "CPU";
  type_name = codes "SystemSummary";
  object_topic = codes "$SYS/MQ/INFO/QMGR/QM1/Monitor/CPU/SystemSummary";
  element_name = codes "cpu_load_one_minute_average_percentage";
  element_description = [];
  element_description_nls = [];
  is_delta = false;
  element_values = [];
}

-- The same metric after the name of the queue manager has changed.
abbrev cpu_load_renamed : Element
cpu_load_renamed = record cpu_load {
  object_topic = codes "$SYS/MQ/INFO/QMGR/QM2/Monitor/CPU/SystemSummary";
}

same_keys : make_key cpu_load ≡ make_key cpu_load_renamed
unfolding make_key
same_keys = refl

make_key-injective_example :
    (cpu_load.class_name ≡ cpu_load_renamed.class_name)
    × (cpu_load.type_name ≡ cpu_load_renamed.type_name)
    × (cpu_load.element_name ≡ cpu_load_renamed.element_name)
make_key-injective_example =
    make_key-injective cpu_load cpu_load_renamed (ground arith) (ground arith) (ground arith)
      (ground arith) same_keys

-- A scrape with the status of a queue and of the queue manager, and a published value.
abbrev scraped_status : ObjectType → StatusSet
scraped_status ot_q = mq.object_status ot_q
scraped_status ot_q_mgr = (codes "status", number_value (codes "status") 2) ∷ []
scraped_status _ = []

abbrev scraped_mq : Mq ℕ
scraped_mq = record mq {
  object_status = scraped_status;
  published = record cpu_load { element_values = (codes "@self", pos 7) ∷ [] } ∷ [];
}

abbrev topic_of : Bytes → Bytes
topic_of key = cpu_load.object_topic

topics_fit : TopicsFit topic_of scraped_mq.published
unfolding make_key
topics_fit = (refl, tt)

describe_returns_iff_example :
    ((vs : List (MqVec ℕ)) × (describe scraped_mq sites true false
          (allocate_all_gauges scraped_mq sites true false)
        ≡ some vs))
    ↔ ((scraped_mq.is_zos ≡ true)
        ⊎ ((bool_of sites "cm.CC.UseStatistics" ≡ true)
            ⊎ All (λ ot. scraped_mq.object_statistics ot ≡ []) statistics_types))
describe_returns_iff_example = describe_returns_iff scraped_mq sites true false topic_of topics_fit

abbrev scraping : World ℕ
scraping = record {
  mq = scraped_mq;
  config = sites;
  hostname_label = true;
  publications_error = none;
  polling = record {
    use_status = true;
    is_zos = false;
    amqp_monitored = false;
    mqtt_monitored = false;
    fails = λ k. false;
  };
  reason = λ k. 2009;
  this_poll = 100;
  this_discovery = 100;
  poll_interval = 30;
  rediscover_interval = 60;
  zero_value = 0;
  elapsed_secs = 1;
}

abbrev scraper : Scraper ℕ
scraper = record {
  vecs = allocate_all_gauges scraped_mq sites true false;
  flags = record initial { connected_q_mgr = true };
  last_poll = 0;
  last_queue_discovery = 0;
  last_hostname = [];
}

scraper-IsAllocated : IsAllocated sites true scraped_mq topic_of scraper.vecs
scraper-IsAllocated =
    allocate_all_gauges-IsAllocated scraped_mq sites true false topic_of topics_fit
      (inr (refl ⨾ refl ⨾ tt))

abbrev labels_or : Option Labelling → Labelling
labels_or (some l) = l
labels_or none = left_out

abbrev published_self : Labelling
published_self = labels_or (published_labels untrimmed scraped_mq sites true (codes "@self"))

abbrev queue_labels_scraped : Labelling
queue_labels_scraped = labels_or (labels_of untrimmed scraped_mq sites true ot_q (codes "APP.Q"))

abbrev self_labels : Labelling
self_labels = labels_or (labels_of untrimmed scraped_mq sites true ot_q_mgr (codes "APP.Q"))

all_valid : (labels : Tags) → ValidTexts any_text labels
all_valid [] = tt
all_valid (kv ∷ labels) = (refl, all_valid labels)

texts_valid :
    (l : Labelling)
    → TextsValid scraping covering same_length plus no_number any_text covering_takes sites_fit
        (refl, tt)
        l
texts_valid left_out = tt
texts_valid (labelled base) = all_valid base

scraping-Fits :
    Fits untrimmed covering same_length plus no_number scraping topic_of any_text covering_takes
unfolding labels_of published_labels published_names make_key lookup bytes_eq usage_of contains_text
    has_prefix own_names
scraping-Fits = record {
  metadata = sites_fit;
  metadata_texts = (refl, tt);
  zero_taken = refl;
  keys = ((((published_self, refl, texts_valid published_self, refl), refl), tt), tt);
  status_labelled = λ ot i.
      All-In
        (λ ot.
          Labelled scraping covering same_length plus no_number any_text covering_takes sites_fit
            (refl, tt) (labels_of untrimmed scraped_mq sites true ot)
            (number_for untrimmed covering same_length plus no_number scraping ot)
            (scraped_status ot))
        i
        (tt
          ⨾ (((queue_labels_scraped, refl, texts_valid queue_labels_scraped, refl) ⨾ tt)
              ⨾ ((queue_labels_scraped, refl, texts_valid queue_labels_scraped, refl) ⨾ tt)
              ⨾ ((queue_labels_scraped, refl, texts_valid queue_labels_scraped, refl) ⨾ tt)
              ⨾ tt)
          ⨾ tt
          ⨾ tt
          ⨾ tt
          ⨾ (((self_labels, refl, texts_valid self_labels, refl) ⨾ tt) ⨾ tt)
          ⨾ tt
          ⨾ tt
          ⨾ tt);
  statistics_labelled = λ ot i.
      All-In
        (λ ot.
          Labelled scraping covering same_length plus no_number any_text covering_takes sites_fit
            (refl, tt) (statistics_labels untrimmed covering same_length plus no_number scraping ot)
            (number_for untrimmed covering same_length plus no_number scraping ot) [])
        i (tt ⨾ tt ⨾ tt);
  q_mgr_status = ((codes "status", number_value (codes "status") 2), here, refl);
}

scrape-Returns_example :
    (s' : Scraper ℕ) × (samples : List (Sample ℕ)) × (scrape untrimmed covering same_length plus
        no_number scraping scraper
      ≡ some (s', samples))
    × IsAllocated sites true scraped_mq topic_of s'.vecs
scrape-Returns_example =
    scrape-Returns untrimmed covering same_length plus no_number scraping topic_of any_text
      covering_takes scraper scraping-Fits scraper-IsAllocated
      (all_valid (disconnected_labels untrimmed scraped_mq sites true []))
