-- ===== src/Otel/Poll.antt =====
-- cmd/mq_otel/reader.go, GetMetrics: the calls of mqmetric in a poll of the status.
use mq_metric_samples.Prelude.{[], ◌∷◌, ◌++◌, some, if◌then◌else◌}
use mq_metric_samples.Json.Poll.{
  Collector, channel_status, topic_status, sub_status, cluster_status, usage_status,
  amqp_channel_status, mqtt_channel_status, Polling, Poll,
}

module _ (w : Polling) where
  -- `err = mqmetric.Collect…(…); if err != nil { pollError = err }`
  unfoldable pub call : Collector → Poll → Poll
  call k p =
      let failing = w.fails k in
      record {
        calls = p.calls ++ k ∷ [];
        err = failing;
        poll_error = if failing then some k else p.poll_error;
      }

  -- The channels of the AMQP and of the MQTT service, where any are monitored.
  unfoldable pub call_clients : Poll → Poll
  unfolding call
  call_clients p =
      let p' = if w.amqp_monitored then call amqp_channel_status p else p in
      if w.mqtt_monitored then call mqtt_channel_status p' else p'

  unfoldable pub call_others : Poll → Poll
  unfolding call call_clients
  call_others p =
      let p₁ = call channel_status p in
      let p₂ = call topic_status p₁ in
      let p₃ = call sub_status p₂ in
      let p₄ = call cluster_status p₃ in if w.is_zos then call usage_status p₄ else call_clients p₄
