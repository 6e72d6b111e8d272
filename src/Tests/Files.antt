-- ===== src/Tests/Files.antt =====
-- YAML files and whole configurations.
use mq_metric_samples.Prelude.{
  Bytes, codes, true, false, List, [], ◌∷◌, none, some, In, lookup, is_empty, bytes_eq, ◌≡◌, refl,
}
use mq_metric_samples.Prelude.Int.{pos}
use mq_metric_samples.Config.Parms.Entry.{ConfigParms, env_var_key}
use mq_metric_samples.Config.Parms.Vars.{int_loc, int, cp_int, set_str}
use mq_metric_samples.Config.Record.{Config}
use mq_metric_samples.Config.Verify.Steps.{
  force_use_status, status_for_publications, status_for_reset, statistics_queue, patterns_file,
  check_queue_patterns, check_channel_patterns, check_selectors, str_of, Externals, Checked, passed,
}
use mq_metric_samples.Config.Verify.Whole.{verify_config}
use mq_metric_samples.Config.Verify.Verified.{IsVerified, verify_config-IsVerified}
use mq_metric_samples.Config.Yaml.Faults.{wait_interval_panics}
use mq_metric_samples.Config.Yaml.Types.{
  ConfigYGlobal, ConfigYConnection, ConfigYObjects, ConfigYFilters, null,
}
use mq_metric_samples.Config.Yaml.Whole.{copy_yaml_config}
use mq_metric_samples.Json.Labels.{add_meta_labels, add_meta_labels-Labelled, IsValue}
use mq_metric_samples.Config.Verify.Late.{
  check_tz_offset, check_poll_interval, check_rediscover_interval, check_moved_selector,
  check_moved_inactive, check_metadata, fill_filters, monitor_all,
}
use mq_metric_samples.Tests.Settings.{no_vars}

abbrev wait_parms : ConfigParms
wait_parms =
    (
      codes "IBMMQ_CONNECTION_WAITINTERVAL",
      record {
        loc = int_loc "cm.CC.WaitInterval";
        default_value = int (pos 5);
        parm_type = cp_int;
        user_set = true;
        cli_name = "ibmmq.waitInterval";
        env_section = "connection";
        env_name = "waitInterval";
        usage = "Maximum wait time for queue manager responses (seconds)";
      },
    )
    ∷ []

abbrev pub empty_global : ConfigYGlobal
empty_global = record {
  use_object_status = [];
  use_reset_q_stats = [];
  use_publications = [];
  use_statistics = [];
  log_level = [];
  meta_prefix = [];
  poll_interval = [];
  rediscover_interval = [];
  tz_offset = [];
  locale = [];
}

abbrev pub empty_connection : ConfigYConnection
empty_connection = record {
  queue_manager = codes "QM1";
  user = [];
  client = [];
  password = [];
  password_file = [];
  reply_queue = [];
  reply_queue2 = [];
  statistics_queue = [];
  durable_sub_prefix = [];
  ccdt_url = [];
  conn_name = [];
  channel = [];
  wait_interval = [];
  metadata_tags = [];
  metadata_values = [];
  metadata_map = [];
}

abbrev pub empty_objects : ConfigYObjects
empty_objects = record {
  queues = [];
  channels = [];
  amqp_channels = [];
  mqtt_channels = [];
  topics = [];
  subscriptions = [];
  queue_subscription_selector = [];
  show_inactive_channels = [];
}

abbrev pub empty_filters : ConfigYFilters
empty_filters = record {
  hide_svr_conn_jobname = [];
  hide_amqp_client_id = [];
  hide_mqtt_client_id = [];
  show_inactive_channels = [];
  show_custom_attribute = [];
  show_unknown_since = [];
  queue_subscription_selector = [];
  metric_include = null;
  metric_exclude = null;
}

-- With metadata on every metric, no queues to monitor, and sound durations.
abbrev pub raw_config : Config
raw_config = record {
  vars =
      set_str "cm.metadataTags" (codes "site,team")
        (set_str "cm.metadataValues" (codes "north,red") no_vars);
  metadata_tags_array = [];
  metadata_values_array = [];
  tz_offset_secs = pos 0;
  poll_interval_duration = pos 0;
  rediscover_duration = pos 0;
  include = λ i. none;
  exclude = λ i. none;
}

wait_interval_panics_example :
    copy_yaml_config wait_parms empty_global empty_connection empty_objects empty_filters raw_config
    ≡ none
unfolding lookup env_var_key bytes_eq
wait_interval_panics_example =
    wait_interval_panics wait_parms empty_global empty_connection empty_objects empty_filters
      raw_config refl refl refl

abbrev pub externals : Externals
externals = record {
  getenv = λ k. [];
  read_patterns = λ f. ([], true);
  verify_queue_patterns = λ p. true;
  verify_patterns = λ p. true;
  parse_duration = λ d. some (pos 1000000000);
}

abbrev config_or : Config → Checked → Config
config_or d (passed c) = c
config_or d _ = d

abbrev pub verified : Config
verified = config_or raw_config (verify_config externals raw_config)

raw_config_passes : verify_config externals raw_config ≡ passed verified
unfolding verify_config force_use_status status_for_publications status_for_reset statistics_queue
    patterns_file check_queue_patterns check_channel_patterns check_selectors check_tz_offset
    check_poll_interval check_rediscover_interval check_moved_selector check_moved_inactive
    check_metadata fill_filters monitor_all
raw_config_passes = refl

verified_has_tags : is_empty (str_of verified "cm.metadataTags") ≡ false
unfolding verify_config force_use_status status_for_publications status_for_reset statistics_queue
    patterns_file check_queue_patterns check_channel_patterns check_selectors check_tz_offset
    check_poll_interval check_rediscover_interval check_moved_selector check_moved_inactive
    check_metadata fill_filters monitor_all
verified_has_tags = refl

verify_config-IsVerified_example : IsVerified externals verified
verify_config-IsVerified_example =
    verify_config-IsVerified externals raw_config verified raw_config_passes

add_meta_labels-Labelled_example :
    (tags' : List (Bytes × Bytes)) × (add_meta_labels verified ((codes "qmgr", codes "QM1") ∷ [])
      ≡ some tags')
    × ((k : Bytes)
        → In k verified.metadata_tags_array
        → IsValue verified.metadata_values_array (lookup k tags'))
    × ((k : Bytes)
        → ¬ In k verified.metadata_tags_array
        → lookup k tags' ≡ lookup k ((codes "qmgr", codes "QM1") ∷ []))
add_meta_labels-Labelled_example =
    add_meta_labels-Labelled externals raw_config verified ((codes "qmgr", codes "QM1") ∷ [])
      raw_config_passes verified_has_tags
