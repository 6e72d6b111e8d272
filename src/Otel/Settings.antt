-- ===== src/Otel/Settings.antt =====
-- cmd/mq_otel/config.go: initConfig.
pub mod File
use mq_metric_samples.Prelude.{Bytes, is_empty, false, List, [], ◌∷◌, if◌then◌else◌}
use mq_metric_samples.Prelude.Int.{ℤ}
use mq_metric_samples.Config.Init.{AddParm, str_parm, int_parm, run_adds, init_config}
use mq_metric_samples.Config.Parms.Entry.{ConfigParms, add_parm}
use mq_metric_samples.Config.Record.{Config}
use mq_metric_samples.Config.Start.{◌>>=◌, Surroundings, Started, settings, verified, get_password}
use mq_metric_samples.Config.Verify.Steps.{str_of, with_bool}
use mq_metric_samples.Config.Yaml.Copy.{as_bool}
use mq_metric_samples.Config.Yaml.Rows.{Row, str_row, int_row}

pub record ConfigYoTel : Type 0 where
  pub endpoint : Bytes
  pub insecure : Bytes
  pub interval : Bytes
  pub max_errors : ℤ
  pub log_level : Bytes
  pub override_c_type : Bytes

abbrev otel_adds : List AddParm
otel_adds =
    str_parm "ci.Endpoint" "" "ibmmq.otelEndpoint" "otel" "endpoint"
      "Where the OLTP data should be sent (empty for stdout)"
    ∷ str_parm "ci.Interval" "10s" "ibmmq.interval" "otel" "interval"
        "How long between each collection"
    ∷ int_parm "ci.MaxErrors" 100 "ibmmq.maxErrors" "otel" "maxErrors"
        "Maximum number of errors communicating with server before considered fatal"
    ∷ str_parm "ci.LogLevel" "" "ibmmq.otelLogLevel" "otel" "logLevel"
        "For tracing OTel library packages"
    ∷ str_parm "ci.Insecure" "" "ibmmq.otelInsecure" "otel" "insecure"
        "Connection to GRPC server used insecure protocol"
    ∷ str_parm "ci.OverrideCType" "" "ibmmq.otelOverrideCType" "otel" "overrideCType"
        "Override data types for GRPC processing"
    ∷ []

unfoldable pub otel_parms : ConfigParms
unfolding run_adds add_parm init_config
otel_parms = run_adds otel_adds init_config

abbrev pub otel_rows : ConfigYoTel → List Row
otel_rows y =
    str_row "ci.Endpoint" "otel" "endpoint" y.endpoint
    ∷ str_row "ci.Interval" "otel" "interval" y.interval
    ∷ int_row "ci.MaxErrors" "otel" "maxErrors" y.max_errors
    ∷ str_row "ci.LogLevel" "otel" "logLevel" y.log_level
    ∷ str_row "ci.Insecure" "otel" "insecure" y.insecure
    ∷ str_row "ci.OverrideCType" "otel" "overrideCType" y.override_c_type
    ∷ []

-- Without an endpoint the types of the metrics are kept.
unfoldable pub override_for_endpoint : Config → Config
unfolding as_bool
override_for_endpoint c =
    with_bool "overrideCType"
      (if is_empty (str_of c "ci.Endpoint")
        then false
        else as_bool (str_of c "ci.OverrideCType") false)
      c

unfoldable pub otel_init_config : Surroundings ConfigYoTel → Config → Started
unfolding settings override_for_endpoint verified get_password
otel_init_config w c = do
  c₁ ← settings w otel_parms otel_rows c
  c₂ ← verified w (override_for_endpoint c₁)
  get_password w c₂
