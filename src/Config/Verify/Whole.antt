-- ===== src/Config/Verify/Whole.antt =====
-- pkg/config/config.go: VerifyConfig, its steps in their order.
use mq_metric_samples.Prelude.{List, [], ◌∷◌}
use mq_metric_samples.Config.Verify.Late.{
  check_tz_offset, check_poll_interval, check_rediscover_interval, check_moved_selector,
  check_moved_inactive, check_metadata, fill_filters, monitor_all,
}
use mq_metric_samples.Config.Verify.Steps.{
  queues_file, channels_file, amqp_channels_file, mqtt_channels_file, topics_file,
  subscriptions_file, passed, ◌>>=◌, Externals, Step, force_use_status, status_for_publications,
  status_for_reset, statistics_queue, patterns_file, check_queue_patterns, check_channel_patterns,
  check_selectors,
}

unfoldable pub run_steps : List Step → Step
run_steps [] c = passed c
run_steps (f ∷ fs) c = do c' ← f c; run_steps fs c'

abbrev pub last_steps : List Step
last_steps = check_metadata ∷ fill_filters ∷ monitor_all ∷ []

module _ (ext : Externals) where
  -- The four steps on the flags.
  abbrev pub status_steps : List Step
  status_steps =
      force_use_status ext
      ∷ status_for_publications ext
      ∷ status_for_reset ext
      ∷ statistics_queue ext
      ∷ []

  abbrev pub file_steps : List Step
  file_steps =
      patterns_file ext "cm.MonitoredQueuesFile" "cm.MonitoredQueues" queues_file
      ∷ patterns_file ext "cm.MonitoredChannelsFile" "cm.MonitoredChannels" channels_file
      ∷ patterns_file ext "cm.MonitoredAMQPChannelsFile" "cm.MonitoredAMQPChannels"
          amqp_channels_file
      ∷ patterns_file ext "cm.MonitoredMQTTChannelsFile" "cm.MonitoredMQTTChannels"
          mqtt_channels_file
      ∷ patterns_file ext "cm.MonitoredTopicsFile" "cm.MonitoredTopics" topics_file
      ∷ patterns_file ext "cm.MonitoredSubscriptionsFile" "cm.MonitoredSubscriptions"
          subscriptions_file
      ∷ []

  abbrev pub check_steps : List Step
  check_steps =
      check_queue_patterns ext
      ∷ check_channel_patterns ext
      ∷ check_selectors
      ∷ check_tz_offset ext
      ∷ check_poll_interval ext
      ∷ check_rediscover_interval ext
      ∷ check_moved_selector
      ∷ check_moved_inactive
      ∷ []

  unfoldable pub verify_config : Step
  unfolding run_steps
  verify_config c = do
    c₁ ← run_steps status_steps c
    c₂ ← run_steps file_steps c₁
    c₃ ← run_steps check_steps c₂
    run_steps last_steps c₃
