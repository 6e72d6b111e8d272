-- ===== src/Tests/Startup.antt =====
-- A collector that is started with a YAML file that says little.
use mq_metric_samples.Prelude.{
  codes, bytes_eq, insert, lookup, to_upper_byte, true, false, [], ◌∷◌, none, some, here, there,
  ◌≡◌, ◌↔◌, ◌⨾◌, refl,
}
use mq_metric_samples.Prelude.Int.{pos}
use mq_metric_samples.Config.Parms.Entry.{env_var_key}
use mq_metric_samples.Config.Parms.Flags.{Outcome, returned, flag_value}
use mq_metric_samples.Config.Parms.Parse.{Process, Parsed, parse_parms, env_value}
use mq_metric_samples.Config.Parms.Vars.{bool_loc, int_loc, bool, int, same_loc, load, store}
use mq_metric_samples.Config.Record.{Config}
use mq_metric_samples.Config.Start.{MqExporterConfigYaml, Surroundings, Started, ready}
use mq_metric_samples.Config.Start.Own.{NotGiven, FileRead, only_entry}
use mq_metric_samples.Config.Verify.Late.{
  check_tz_offset, check_poll_interval, check_rediscover_interval, check_moved_selector,
  check_moved_inactive, check_metadata, fill_filters, monitor_all,
}
use mq_metric_samples.Config.Verify.Steps.{
  force_use_status, status_for_publications, status_for_reset, statistics_queue, patterns_file,
  check_queue_patterns, check_channel_patterns, check_selectors,
}
use mq_metric_samples.Config.Yaml.Whole.{copy_yaml_config}
use mq_metric_samples.Otel.Main.Errors.{first_error_fatal, run_rounds_fatal_iff}
use mq_metric_samples.Otel.Main.{Round, fatal, run_rounds, no_counts}
use mq_metric_samples.Otel.Settings.{ConfigYoTel, otel_parms, otel_init_config}
use mq_metric_samples.Config.Yaml.Rows.{bool_row, int_row}
use mq_metric_samples.Json.Settings.File.{json_init_config-file}
use mq_metric_samples.Json.Settings.{ConfigYJson, json_parms, json_init_config}
use mq_metric_samples.Prometheus.Settings.File.{prometheus_init_config-file}
use mq_metric_samples.Prometheus.Settings.{ConfigYProm, prometheus_parms, prometheus_init_config}
use mq_metric_samples.Status.{FailsInARow}
use mq_metric_samples.Tests.Files.{
  empty_global, empty_connection, empty_objects, empty_filters, externals, raw_config,
}

abbrev process : Process
process = record {
  getenv = λ k. [];
  flag_int = λ s. none;
  settings = ("f", codes "collector.yaml") ∷ [];
  args = [];
}

abbrev file_with : {Y : Type 0} → Y → MqExporterConfigYaml Y
file_with y = record {
  global = empty_global;
  connection = empty_connection;
  objects = empty_objects;
  filters = empty_filters;
  own = y;
}

abbrev around : {Y : Type 0} → Y → Surroundings Y
around y = record {
  process = process;
  read_config_file = λ name. some (file_with y);
  externals = externals;
  password_from_stdin = [];
  password_from_file = λ name. none;
}

abbrev otel_part : ConfigYoTel
otel_part = record {
  endpoint = codes "stdout";
  insecure = [];
  interval = codes "10s";
  max_errors = pos 0;
  log_level = [];
  override_c_type = [];
}

abbrev config_or : Config → Started → Config
config_or c (ready c') = c'
config_or c _ = c

abbrev parsed_or : Parsed → Outcome Parsed → Parsed
parsed_or r (returned r') = r'
parsed_or r _ = r

abbrev nothing : Parsed
nothing = record { parms = []; vars = raw_config.vars; err = true }

abbrev otel_parsed : Parsed
otel_parsed = parsed_or nothing (parse_parms process otel_parms raw_config.vars)

abbrev otel_config : Config
otel_config = config_or raw_config (otel_init_config (around otel_part) raw_config)

otel_read : FileRead (around otel_part) otel_parms raw_config otel_parsed (file_with otel_part)
unfolding parse_parms env_value store otel_parms lookup insert env_var_key bytes_eq flag_value
    to_upper_byte
otel_read = record { is_parsed = refl; named = refl; found = refl }

max_errors-NotGiven : NotGiven process otel_parms "otel" "maxErrors" "ibmmq.maxErrors"
unfolding parse_parms only_entry otel_parms insert env_var_key bytes_eq to_upper_byte
max_errors-NotGiven = record { one = refl; no_setting = refl; no_env = refl }

otel_started : otel_init_config (around otel_part) raw_config ≡ ready otel_config
unfolding otel_init_config parse_parms env_value store otel_parms lookup insert env_var_key bytes_eq
    flag_value to_upper_byte copy_yaml_config force_use_status status_for_publications
    status_for_reset statistics_queue patterns_file check_queue_patterns check_channel_patterns
    check_selectors check_tz_offset check_poll_interval check_rediscover_interval
    check_moved_selector check_moved_inactive check_metadata fill_filters monitor_all
otel_started = refl

abbrev failing_round : Round
failing_round = record {
  metrics_ok = true;
  collected_ok = true;
  exported_ok = false;
  interrupted = false;
}

abbrev good_round : Round
good_round = record failing_round { exported_ok = true }

first_error_fatal_example :
    run_rounds
      (otel_config.vars.int_var "ci.MaxErrors")
      (pos 0)
      (good_round ∷ failing_round ∷ [])
      no_counts
    ≡ fatal
first_error_fatal_example =
    first_error_fatal (around otel_part) raw_config otel_config (good_round ∷ []) failing_round []
      otel_read refl max_errors-NotGiven otel_started ((refl, refl), tt) refl

run_rounds_fatal_iff_example :
    (run_rounds (pos 1) (pos 0) (failing_round ∷ failing_round ∷ []) no_counts ≡ fatal)
    ↔ FailsInARow 2 (true ∷ true ∷ [])
run_rounds_fatal_iff_example =
    run_rounds_fatal_iff 1 (failing_round ∷ failing_round ∷ []) (refl ⨾ refl ⨾ tt)

abbrev prometheus_part : ConfigYProm
prometheus_part = record {
  port = [];
  host = [];
  metrics_path = [];
  namespace = [];
  https_cert_file = [];
  https_key_file = [];
  keep_running = false;
  reconnect_interval = [];
  override_c_type = [];
}

abbrev prometheus_parsed : Parsed
prometheus_parsed = parsed_or nothing (parse_parms process prometheus_parms raw_config.vars)

abbrev prometheus_config : Config
prometheus_config =
    config_or raw_config (prometheus_init_config (around prometheus_part) raw_config)

prometheus_read :
    FileRead
      (around prometheus_part)
      prometheus_parms
      raw_config
      prometheus_parsed
      (file_with prometheus_part)
unfolding parse_parms env_value store prometheus_parms lookup insert env_var_key bytes_eq flag_value
    to_upper_byte
prometheus_read = record { is_parsed = refl; named = refl; found = refl }

keep_running-NotGiven :
    NotGiven process prometheus_parms "prometheus" "keepRunning" "ibmmq.keepRunning"
unfolding parse_parms only_entry prometheus_parms insert env_var_key bytes_eq to_upper_byte
keep_running-NotGiven = record { one = refl; no_setting = refl; no_env = refl }

prometheus_started :
    prometheus_init_config (around prometheus_part) raw_config ≡ ready prometheus_config
unfolding prometheus_init_config parse_parms env_value store prometheus_parms lookup insert
    env_var_key bytes_eq flag_value to_upper_byte copy_yaml_config force_use_status
    status_for_publications status_for_reset statistics_queue patterns_file check_queue_patterns
    check_channel_patterns check_selectors check_tz_offset check_poll_interval
    check_rediscover_interval check_moved_selector check_moved_inactive check_metadata fill_filters
    monitor_all
prometheus_started = refl

-- The collector does not keep running although that is the default of its parameter.
prometheus_init_config-file_example :
    load (bool_loc "keepRunning") prometheus_config.vars ≡ bool false
unfolding same_loc
prometheus_init_config-file_example =
    prometheus_init_config-file (around prometheus_part) raw_config prometheus_config
      (bool_row "keepRunning" "prometheus" "keepRunning" false) "ibmmq.keepRunning" prometheus_read
      (there (there (there (there (there (there here)))))) (search) keep_running-NotGiven
      prometheus_started

abbrev json_part : ConfigYJson
json_part = record { interval = codes "10s"; one_line = false; record_max = pos 0 }

abbrev json_parsed : Parsed
json_parsed = parsed_or nothing (parse_parms process json_parms raw_config.vars)

abbrev json_config : Config
json_config = config_or raw_config (json_init_config (around json_part) raw_config)

json_read : FileRead (around json_part) json_parms raw_config json_parsed (file_with json_part)
unfolding parse_parms env_value store json_parms lookup insert env_var_key bytes_eq flag_value
    to_upper_byte
json_read = record { is_parsed = refl; named = refl; found = refl }

record_max-NotGiven : NotGiven process json_parms "json" "recordmax" "ibmmq.recordmax"
unfolding parse_parms only_entry json_parms insert env_var_key bytes_eq to_upper_byte
record_max-NotGiven = record { one = refl; no_setting = refl; no_env = refl }

json_started : json_init_config (around json_part) raw_config ≡ ready json_config
unfolding json_init_config parse_parms env_value store json_parms lookup insert env_var_key bytes_eq
    flag_value to_upper_byte copy_yaml_config force_use_status status_for_publications
    status_for_reset statistics_queue patterns_file check_queue_patterns check_channel_patterns
    check_selectors check_tz_offset check_poll_interval check_rediscover_interval
    check_moved_selector check_moved_inactive check_metadata fill_filters monitor_all
json_started = refl

json_init_config-file_example : load (int_loc "recordmax") json_config.vars ≡ int (pos 0)
json_init_config-file_example =
    json_init_config-file (around json_part) raw_config json_config
      (int_row "recordmax" "json" "recordmax" (pos 0)) "ibmmq.recordmax" json_read
      (there (there here)) record_max-NotGiven json_started
