-- ===== src/Prometheus/Scrape.antt =====
-- cmd/mq_prometheus/exporter.go, Collect: the poll of the status, and
-- the vectors of one type of object in a scrape. `none` is a panic.
pub mod Named
use mq_metric_samples.Prelude.{
  ℕ, Bytes, Bool, true, false, not, ◌&&◌, ◌||◌, List, [], ◌∷◌, ◌++◌, Option, none, some, ◌>>=◌,
  lookup, insert, ◌==◌, if◌then◌else◌,
}
use mq_metric_samples.Json.Labels.{Tags}
use mq_metric_samples.Json.Poll.{
  Collector, queue_status, q_mgr_status, channel_status, topic_status, sub_status, cluster_status,
  usage_status, amqp_channel_status, mqtt_channel_status, Polling, Poll, nothing, collect,
}
use mq_metric_samples.Mqmetric.{Attribute, StatusSet, Value}
use mq_metric_samples.Prometheus.Labels.{Labelling, labelled, left_out}
use mq_metric_samples.Prometheus.Vectors.{MqVec, add_metric, reset}

module _ (w : Polling) where
  abbrev if_wanted : Bool → (Poll → Poll) → Poll → Poll
  if_wanted b f p = if b then f p else p

  -- `if err == nil { err = … }`
  unfoldable pub unless_failed : (Poll → Poll) → Poll → Poll
  unless_failed f p = if p.err then p else f p

  -- The MQTT service is asked even if the AMQP service has failed.
  clients : Poll → Poll
  unfolding collect
  clients p =
      if_wanted w.mqtt_monitored (collect w mqtt_channel_status)
        (if_wanted w.amqp_monitored (collect w amqp_channel_status) p)

  platform : Poll → Poll
  unfolding collect clients
  platform p = if w.is_zos then collect w usage_status p else clients p

  status_calls : Poll → Poll
  unfolding collect unless_failed platform
  status_calls p = unless_failed platform (
      unless_failed (collect w cluster_status) (
        unless_failed (collect w sub_status)
          (unless_failed (collect w topic_status) (unless_failed (collect w channel_status) p))))

  unfoldable pub scrape_poll : Poll
  unfolding collect unless_failed status_calls
  scrape_poll =
      if_wanted w.use_status status_calls
        (unless_failed (collect w q_mgr_status) (collect w queue_status nothing))

-- The vectors of one type of object, by the names of the metrics.
abbrev pub VecMap : Type 0 → Type 0
VecMap F = List (Bytes × MqVec F)

module _ {F : Type 0} where
  unfoldable pub reset_all : StatusSet → VecMap F → Option (VecMap F)
  unfolding lookup insert
  reset_all [] vecs = some vecs
  reset_all ((k, attr) ∷ set) vecs =
      lookup attr.metric_name vecs >>= λ v. reset_all set (insert attr.metric_name (reset v) vecs)

  -- The last loops: a counter is passed on only if the status has been polled.
  unfoldable pub sent : Bool → StatusSet → VecMap F → Option (List (MqVec F))
  unfolding lookup
  sent poll_status [] vecs = some []
  sent poll_status ((k, attr) ∷ set) vecs = sent poll_status set vecs >>= λ rest.
      if not attr.pseudo && (poll_status || not attr.delta)
      then (lookup attr.metric_name vecs >>= λ v. some (v ∷ rest))
      else some rest

-- Adding a value: its labels, with the metadata, are given; nothing for a queue of unknown usage.
module _ {F : Type 0} (with_labels : List Bytes → Tags → Bool) (same : Tags → Tags → Bool)
    (add : F → F → F) (negative : F → Bool) (labels_for : Bytes → Option Labelling)
    (meta : Tags → Option Tags) (number : Attribute → Value → F) where
  unfoldable pub add_labelled : Attribute → F → Labelling → VecMap F → Option (VecMap F)
  unfolding add_metric
  add_labelled attr f left_out vecs = some vecs
  add_labelled attr f (labelled base) vecs = meta base >>= λ labels.
      lookup attr.metric_name vecs >>= λ v.
      add_metric with_labels same add negative labels f v >>= λ v'.
      some (insert attr.metric_name v' vecs)

  unfoldable pub add_value : Attribute → Bytes → Value → VecMap F → Option (VecMap F)
  unfolding add_labelled
  add_value attr key value vecs =
      if value.is_int64 && not attr.pseudo
      then (labels_for key >>= λ l. add_labelled attr (number attr value) l vecs)
      else some vecs

  unfoldable pub add_values : Attribute → List (Bytes × Value) → VecMap F → Option (VecMap F)
  unfolding add_value
  add_values attr [] vecs = some vecs
  add_values attr ((key, value) ∷ vs) vecs =
      add_value attr key value vecs >>= λ vecs'. add_values attr vs vecs'

  unfoldable pub add_all : StatusSet → VecMap F → Option (VecMap F)
  unfolding add_values
  add_all [] vecs = some vecs
  add_all ((k, attr) ∷ set) vecs = add_values attr attr.values vecs >>= λ vecs'. add_all set vecs'
