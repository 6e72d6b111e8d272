-- ===== src/Json/Connect.antt =====
-- cmd/mq_json/main.go: what main makes of the error of mqmetric.InitConnection. The variable mqcc is
-- filled from the reason code there.
use mq_metric_samples.Prelude.{ℕ, ◌≡◌, ◌≢◌, arith, if◌then◌else◌, ◌==◌}
use mq_metric_samples.Prometheus.Reconnect.{
  InitResult, connected, mq_error, other_error, Connection, usable, failing, standby, connection,
  mqrc_standby_q_mgr, mqcc_warning,
}

unfoldable pub json_connection : InitResult → Connection
json_connection connected = usable
json_connection (mq_error mqrc mqcc) =
    let code = mqrc in
    if mqrc == mqrc_standby_q_mgr then standby else if code == mqcc_warning then usable else failing
json_connection other_error = failing

-- A connection with a warning is used by the Prometheus collector, and given up by the JSON one
-- (reason codes start far above the completion code that it is compared to).
warning_given_up :
    (mqrc : ℕ)
    → mqrc ≢ mqrc_standby_q_mgr
    → mqrc ≢ mqcc_warning
    → (connection (mq_error mqrc mqcc_warning) ≡ usable)
      × (json_connection (mq_error mqrc mqcc_warning) ≡ failing)
unfolding connection json_connection
warning_given_up mqrc h k = ground arith
