-- ===== src/Otel/Reader.antt =====
-- cmd/mq_otel/reader.go: GetMetrics, one collection. Times are numbers of seconds, of a clock that does
-- not go back.
pub mod Cycle
pub mod Errors
pub mod Total
use mq_metric_samples.Prelude.{
  ℕ, ◌-◌, Bytes, is_empty, Bool, true, false, not, ◌&&◌, ◌||◌, List, [], ◌∷◌, ◌++◌, Option, none,
  some, ◌>>=◌, ltb, leb, if◌then◌else◌,
}
use mq_metric_samples.Config.Record.{Config}
use mq_metric_samples.Config.Verify.Steps.{bool_of, str_of}
use mq_metric_samples.Json.Poll.{Collector, queue_status, q_mgr_status, Polling, Poll, nothing}
use mq_metric_samples.Status.{handle_status}
use mq_metric_samples.Mqmetric.{Mq}
use mq_metric_samples.Otel.Gauges.{
  Report, Instruments, is_some, add_metrics, clear_gauges, evict_gauges,
}
use mq_metric_samples.Otel.Poll.{call, call_others}
use mq_metric_samples.Otel.Reports.{
  own_metric, publication_reports, statistics_reports, status_reports,
}

-- The package's variables, and the count in HandleStatus.
pub record Reader (F : Type 0) : Type 0 where
  pub first : Bool
  pub last_poll : ℕ
  pub last_queue_discovery : ℕ
  pub error_count : ℕ
  pub instruments : Instruments F

-- What a collection meets: the clock, the calls of mqmetric that fail, and their results.
pub record World (F : Type 0) : Type 0 where
  pub mq : Mq F
  pub config : Config
  pub this_poll : ℕ
  pub this_discovery : ℕ
  pub poll_interval : ℕ
  pub rediscover_interval : ℕ
  pub publications_fail : Bool
  pub fails : Collector → Bool
  pub amqp_rediscovery_fails : Bool
  pub mqtt_rediscovery_fails : Bool
  pub elapsed_secs : F

pub data Failure : Type 0 where
  polled : Collector → Failure
  amqp_rediscovery mqtt_rediscovery : Failure

-- The end of the process by log.Fatalf, a panic, or the new state and `err`.
pub data Outcome (F : Type 0) : Type 0 where
  exited panicked : Outcome F
  collected : Reader F → Option Failure → Outcome F

abbrev pub when_poll : Bool → (Poll → Poll) → Poll → Poll
when_poll b f p = if b then f p else p

module _ {F : Type 0} (w : World F) where
  abbrev pub polling : Polling
  polling = record {
    use_status = bool_of w.config "cm.CC.UseStatus";
    is_zos = w.mq.is_zos;
    amqp_monitored = not (is_empty (str_of w.config "cm.MonitoredAMQPChannels"));
    mqtt_monitored = not (is_empty (str_of w.config "cm.MonitoredMQTTChannels"));
    fails = w.fails;
  }

  -- An error for the queues or the queue manager keeps the rest from being polled.
  unfoldable pub poll_all : Poll
  unfolding call call_others
  poll_all =
      let base = call polling q_mgr_status (call polling queue_status nothing) in
      when_poll (polling.use_status && not (is_some base.poll_error)) (call_others polling) base

  unfoldable pub poll_due : Reader F → Bool
  poll_due s = leb w.poll_interval (w.this_poll - s.last_poll) || s.first

  unfoldable pub poll_failure : Reader F → Option Failure
  unfolding poll_due poll_all
  poll_failure s =
      if poll_due s
      then elim poll_all.poll_error [ some k ↦ some (polled k) | none ↦ none ]
      else none

  -- HandleStatus, which is called after a poll.
  unfoldable pub handled : Reader F → Option ℕ
  unfolding poll_due poll_failure handle_status
  handled s =
      if poll_due s
      then handle_status (is_some (poll_failure s)) s.error_count
      else some s.error_count

  unfoldable pub rediscovery_due : Reader F → Bool
  rediscovery_due s =
      ltb 0 w.rediscover_interval
      && leb w.rediscover_interval (w.this_discovery - s.last_queue_discovery)

  unfoldable pub rediscovery : Option Failure
  rediscovery =
      if w.amqp_rediscovery_fails
      then some amqp_rediscovery
      else if w.mqtt_rediscovery_fails
      then some mqtt_rediscovery
      else none

  -- `err` at the end.
  unfoldable pub failure : Reader F → Option Failure
  unfolding poll_failure rediscovery_due rediscovery
  failure s = if rediscovery_due s && not w.mq.is_zos then rediscovery else poll_failure s

module _ {F : Type 0} (trim_space : Bytes → Bytes) (w : World F) where
  abbrev then_reports :
      Option (List (Report F)) → Option (List (Report F)) → Option (List (Report F))
  then_reports r s = r >>= λ xs. s >>= λ ys. some (xs ++ ys)

  -- The calls of addMetric, in order. The first collection leaves out what may have piled up.
  unfoldable pub reports : Reader F → Option (List (Report F))
  unfolding own_metric publication_reports statistics_reports status_reports poll_due
  reports s =
      let mq = w.mq in
      let c = w.config in
      then_reports
        (if s.first
          then some []
          else then_reports
              (own_metric trim_space mq c "exporter_publications" "Publications Processed"
                mq.publication_count)
              (then_reports (publication_reports trim_space mq c)
                (statistics_reports trim_space mq c)))
        (then_reports (if poll_due w s then status_reports trim_space mq c else some []) (
          own_metric trim_space mq c "exporter_collection_time" "How long last collection took"
            w.elapsed_secs))

module _ {F : Type 0} (creates : Bytes → Bool) (override_c_type : Bool) where
  -- The gauges are emptied first, and those that stay empty are deleted last.
  unfoldable pub with_reports : List (Report F) → Instruments F → Instruments F
  unfolding add_metrics clear_gauges evict_gauges
  with_reports rs i =
      let i' =
        add_metrics creates override_c_type rs
          (record i { gauge_map = clear_gauges i.gauge_map }) in
      record i' { gauge_map = evict_gauges i'.gauge_map }

module _ {F : Type 0} (trim_space : Bytes → Bytes) (creates : Bytes → Bool) (override_c_type : Bool)
    (w : World F) where
  abbrev pub next_reader : List (Report F) → ℕ → Reader F → Reader F
  next_reader rs n s = record {
    first = false;
    last_poll = if poll_due w s then w.this_poll else s.last_poll;
    last_queue_discovery = if rediscovery_due w s then w.this_discovery else s.last_queue_discovery;
    error_count = n;
    instruments = with_reports creates override_c_type rs s.instruments;
  }

  unfoldable pub get_metrics : Reader F → Outcome F
  unfolding reports with_reports handled failure
  get_metrics s = if w.publications_fail then exited else (elim (handled w s) [
    | none ↦ exited
    | some n ↦ elim (reports trim_space w s) [
      | none ↦ panicked
      | some rs ↦ collected (next_reader rs n s) (failure w s)
    ]
  ])
