-- ===== src/Prometheus/Collect.antt =====
-- cmd/mq_prometheus/exporter.go: Collect. What mqmetric holds and answers, and the time, are an
-- argument; `none` is a panic. The warning on a slow scrape and the end after the scrapes of a test are
-- left out, and the connection that Collect checks is the flag of status.go.
pub mod Loops
pub mod Filled
pub mod Orders
pub mod Steps
pub mod Total
use mq_metric_samples.Prelude.{
  ℕ, ◌-◌, Bytes, codes, is_empty, bytes_eq, Bool, true, false, not, ◌&&◌, ◌||◌, List, [], ◌∷◌, ◌++◌,
  map, Option, none, some, ◌>>=◌, lookup, insert, leb, ltb, if◌then◌else◌,
}
use mq_metric_samples.Prelude.Int.{ℤ}
use mq_metric_samples.Config.Record.{Config}
use mq_metric_samples.Config.Verify.Steps.{bool_of, str_of}
use mq_metric_samples.Json.Labels.{Tags, add_meta_labels}
use mq_metric_samples.Json.Poll.{Collector, Polling}
use mq_metric_samples.Mqmetric.{
  Attribute, Element, Mq, ObjectType, StatusSet, Value, ot_q, ot_channel, ot_topic, ot_sub,
  ot_cluster, ot_q_mgr, ot_bp, ot_ps, ot_channel_amqp, ot_channel_mqtt,
}
use mq_metric_samples.Prometheus.Allocate.{
  Maps, Vecs, put_map, platform_types, shared_types, statistics_types,
}
use mq_metric_samples.Prometheus.Collect.Loops.{
  filled_types, cleared_types, each_type, send_types, if_all, reset_elements, send_elements,
}
use mq_metric_samples.Prometheus.Labels.Match.{labels_of}
use mq_metric_samples.Prometheus.Labels.{
  Labelling, labelled, left_out, q_mgr_labels, queue_labels, published_labels, disconnected_labels,
}
use mq_metric_samples.Prometheus.Reconnect.{Status, scrape_error}
use mq_metric_samples.Prometheus.Scrape.{VecMap, reset_all, sent, add_all, scrape_poll}
use mq_metric_samples.Prometheus.Vectors.{MqVec, make_key, add_metric, reset}

-- What lasts from one scrape to the next: the vectors, the flags, the two times and lastHostname.
pub record Scraper (F : Type 0) : Type 0 where
  pub vecs : Vecs F
  pub flags : Status
  pub last_poll : ℕ
  pub last_queue_discovery : ℕ
  pub last_hostname : Bytes

-- What a scrape meets. The reasons are those that Collect finds in an error.
pub record World (F : Type 0) : Type 0 where
  pub mq : Mq F
  pub config : Config
  pub hostname_label : Bool
  pub publications_error : Option ℕ
  pub polling : Polling
  pub reason : Collector → ℕ
  pub this_poll : ℕ
  pub this_discovery : ℕ
  pub poll_interval : ℕ
  pub rediscover_interval : ℕ
  pub zero_value : F
  pub elapsed_secs : F

-- What is passed on to Prometheus.
pub data Sample (F : Type 0) : Type 0 where
  of_vector : MqVec F → Sample F
  exporter_publications : F → Sample F
  exporter_collection_time : F → Sample F

abbrev pub Scraped : Type 0 → Type 0
Scraped F = Option (Scraper F × List (Sample F))

abbrev pub q_mgr_status_name : Bytes
q_mgr_status_name = codes "status"

module _ {F : Type 0} (trim_space : Bytes → Bytes) (with_labels : List Bytes → Tags → Bool)
    (same : Tags → Tags → Bool) (add : F → F → F) (negative : F → Bool) (w : World F) where
  abbrev use_statistics : Bool
  use_statistics = bool_of w.config "cm.CC.UseStatistics"

  abbrev q_mgr_name : Bytes
  q_mgr_name = str_of w.config "cm.QMgrName"

  -- The one metric that is reported while there is no connection, if there is a vector for it.
  unfoldable pub report_disconnected : Scraper F → Option (MqVec F) → Scraped F
  unfolding disconnected_labels add_metric add_meta_labels put_map insert
  report_disconnected s none = some (s, [])
  report_disconnected s (some m) =
      add_meta_labels w.config
        (disconnected_labels trim_space w.mq w.config w.hostname_label s.last_hostname)
      >>= λ labels. add_metric with_labels same add negative labels w.zero_value m >>= λ m'.
          let maps = s.vecs.status_maps in
          let known = if is_empty s.last_hostname then codes "-" else s.last_hostname in
          some (
            record s {
              vecs = record s.vecs {
                status_maps = put_map ot_q_mgr (insert q_mgr_status_name m' (maps ot_q_mgr)) maps;
              };
              last_hostname = if w.hostname_label then known else s.last_hostname;
            },
            of_vector m' ∷ [],
          )

  -- A published value, with its labels.
  unfoldable pub publish_labelled : Element → F → Labelling → VecMap F → Option (VecMap F)
  unfolding make_key lookup insert add_meta_labels add_metric
  publish_labelled elem f left_out m = some m
  publish_labelled elem f (labelled base) m = add_meta_labels w.config base >>= λ labels.
      lookup (make_key elem) m >>= λ v.
      add_metric with_labels same add negative labels f v >>= λ v'.
      some (insert (make_key elem) v' m)

  unfoldable pub publish_values : Element → List (Bytes × ℤ) → VecMap F → Option (VecMap F)
  unfolding published_labels publish_labelled
  publish_values elem [] m = some m
  publish_values elem ((key, value) ∷ vs) m =
      published_labels trim_space w.mq w.config w.hostname_label key >>= λ l.
      publish_labelled elem (w.mq.normalise_element elem key value) l m >>= λ m'.
      publish_values elem vs m'

  unfoldable pub publish_elements : List Element → VecMap F → Option (VecMap F)
  unfolding publish_values
  publish_elements [] m = some m
  publish_elements (elem ∷ elems) m =
      publish_values elem elem.element_values m >>= λ m'. publish_elements elems m'

  -- A published value of the queue manager stashes the host name.
  unfoldable pub has_q_mgr_value : List (Bytes × ℤ) → Bool
  has_q_mgr_value [] = false
  has_q_mgr_value ((key, value) ∷ vs) = bytes_eq key (codes "@self") || has_q_mgr_value vs

  unfoldable pub some_q_mgr_value : List Element → Bool
  unfolding has_q_mgr_value
  some_q_mgr_value [] = false
  some_q_mgr_value (elem ∷ elems) = has_q_mgr_value elem.element_values || some_q_mgr_value elems

  unfoldable pub stashed : Bytes → Bytes
  unfolding some_q_mgr_value
  stashed last_hostname =
      if w.hostname_label && some_q_mgr_value w.mq.published
      then w.mq.q_mgr_host_name q_mgr_name
      else last_hostname

  -- The labels for the statistics: of queues, whose set has the name, and of the queue manager.
  unfoldable pub statistics_labels : ObjectType → Bytes → Option Labelling
  unfolding queue_labels q_mgr_labels labels_of
  statistics_labels ot_q key =
      queue_labels trim_space w.mq w.config w.hostname_label (w.mq.object_statistics ot_q) key
  statistics_labels ot key = labels_of trim_space w.mq w.config w.hostname_label ot key

  abbrev pub number_for : ObjectType → Attribute → Value → F
  number_for ot attr value = w.mq.normalise ot attr value.value_int64

  unfoldable pub fill_status : ObjectType → VecMap F → Option (VecMap F)
  unfolding add_all labels_of add_meta_labels
  fill_status ot m =
      add_all with_labels same add negative (labels_of trim_space w.mq w.config w.hostname_label ot)
        (add_meta_labels w.config) (number_for ot) (w.mq.object_status ot) m

  unfoldable pub fill_statistics : ObjectType → VecMap F → Option (VecMap F)
  unfolding add_all statistics_labels add_meta_labels
  fill_statistics ot m =
      add_all with_labels same add negative (statistics_labels ot) (add_meta_labels w.config)
        (number_for ot) (w.mq.object_statistics ot) m

  -- Before the publications: the published vectors, and those of the statistics, are cleared.
  unfoldable pub clear : Vecs F → Option (Vecs F)
  unfolding reset_elements reset_all each_type
  clear vecs = reset_elements w.mq.published vecs.rua >>= λ rua.
      if_all use_statistics
        (each_type (λ ot m. reset_all (w.mq.object_statistics ot) m) (ot_q ∷ ot_q_mgr ∷ []))
        vecs.statistics_maps
      >>= λ maps. some (record vecs { rua = rua; statistics_maps = maps })

  unfoldable pub clear_status : Vecs F → Option (Vecs F)
  unfolding reset_all each_type
  clear_status vecs =
      each_type (λ ot m. reset_all (w.mq.object_status ot) m)
        (cleared_types ++ platform_types w.mq.is_zos) vecs.status_maps
      >>= λ maps. some (record vecs { status_maps = maps })

  -- The first scrape adds no published values.
  unfoldable pub fill : Bool → Bool → Vecs F → Option (Vecs F)
  unfolding publish_elements fill_status fill_statistics each_type
  fill first poll_status vecs =
      if_all (not first) (publish_elements w.mq.published) vecs.rua >>= λ rua.
      if_all use_statistics (each_type fill_statistics statistics_types) vecs.statistics_maps
      >>= λ statistics.
          if_all poll_status (each_type fill_status (filled_types ++ platform_types w.mq.is_zos))
            vecs.status_maps
          >>= λ status.
              some (record vecs { rua = rua; statistics_maps = statistics; status_maps = status })

  -- The statistics are passed on whether the status was polled or not.
  unfoldable pub send : Bool → Vecs F → Option (List (Sample F))
  unfolding send_elements send_types
  send poll_status vecs = send_elements w.mq.published vecs.rua >>= λ published.
      send_types poll_status w.mq.object_status (filled_types ++ platform_types w.mq.is_zos)
        vecs.status_maps
      >>= λ status.
          send_types true w.mq.object_statistics (if use_statistics then statistics_types else [])
            vecs.statistics_maps
          >>= λ statistics. some (
              map of_vector published
              ++ exporter_publications w.mq.publication_count
                ∷ (map of_vector (status ++ statistics)
                    ++ exporter_collection_time w.elapsed_secs ∷ []))

  unfoldable pub poll_due : Scraper F → Bool
  poll_due s = leb w.poll_interval (w.this_poll - s.last_poll) || s.flags.first_collection

  unfoldable pub rediscovery_due : Scraper F → Bool
  rediscovery_due s =
      ltb 0 w.rediscover_interval
      && leb w.rediscover_interval (w.this_discovery - s.last_queue_discovery)

  -- The part behind the check of the error.
  unfoldable pub deliver : Bool → Scraper F → Scraped F
  unfolding fill send stashed rediscovery_due
  deliver poll_status s = fill s.flags.first_collection poll_status s.vecs >>= λ vecs.
      send poll_status vecs >>= λ samples. some (
        record s {
          vecs = vecs;
          flags = record s.flags { first_collection = false };
          last_queue_discovery =
              if rediscovery_due s then w.this_discovery else s.last_queue_discovery;
          last_hostname =
              if s.flags.first_collection then s.last_hostname else stashed s.last_hostname;
        },
        samples,
      )

  -- An error of the publications or of the poll changes the flags, and nothing is passed on.
  unfoldable pub deliver_or_give_up : Bool → Option ℕ → Scraper F → Scraped F
  unfolding deliver scrape_error
  deliver_or_give_up poll_status none s = deliver poll_status s
  deliver_or_give_up poll_status (some mqrc) s =
      some (record s { flags = scrape_error mqrc s.flags }, [])

  unfoldable pub poll_reason : Option ℕ
  unfolding scrape_poll
  poll_reason = elim (scrape_poll w.polling).poll_error [ some k ↦ some (w.reason k) | none ↦ none ]

  -- Behind the publications.
  unfoldable pub after_publications : Option ℕ → Scraper F → Scraped F
  unfolding poll_due clear_status deliver_or_give_up poll_reason
  after_publications (some mqrc) s = deliver_or_give_up false (some mqrc) s
  after_publications none s =
      if poll_due s
      then (clear_status s.vecs >>= λ vecs.
          deliver_or_give_up true poll_reason (record s { vecs = vecs; last_poll = w.this_poll }))
      else deliver_or_give_up false none s

  unfoldable pub scrape : Scraper F → Scraped F
  unfolding report_disconnected clear after_publications lookup
  scrape s =
      if s.flags.connected_q_mgr
      then (clear s.vecs >>= λ vecs.
          after_publications w.publications_error (record s { vecs = vecs }))
      else report_disconnected s (lookup q_mgr_status_name (s.vecs.status_maps ot_q_mgr))
