-- ===== src/Prometheus/Settings.antt =====
-- cmd/mq_prometheus/config.go: initConfig.
pub mod File
use mq_metric_samples.Prelude.{
  Bytes, String, codes, is_empty, Bool, true, not, ◌&&◌, List, [], ◌∷◌, Option, none, some,
  if◌then◌else◌,
}
use mq_metric_samples.Prelude.Int.{ℤ}
use mq_metric_samples.Config.Init.{AddParm, str_parm, bool_parm, run_adds, init_config}
use mq_metric_samples.Config.Parms.Entry.{ConfigParms, add_parm}
use mq_metric_samples.Config.Parms.Vars.{set_int}
use mq_metric_samples.Config.Record.{Config}
use mq_metric_samples.Config.Start.{
  ◌>>=◌, Surroundings, Started, ready, rejected, settings, verified, get_password,
}
use mq_metric_samples.Config.Verify.Steps.{str_of, bool_of, with_str, with_bool}
use mq_metric_samples.Config.Yaml.Copy.{as_bool}
use mq_metric_samples.Config.Yaml.Rows.{Row, bool_row, str_row}

pub record ConfigYProm : Type 0 where
  pub port : Bytes
  pub host : Bytes
  pub metrics_path : Bytes
  pub namespace : Bytes
  pub https_cert_file : Bytes
  pub https_key_file : Bytes
  pub keep_running : Bool
  pub reconnect_interval : Bytes
  pub override_c_type : Bytes

abbrev pub default_port : String
default_port = "9157"

abbrev pub default_namespace : String
default_namespace = "ibmmq"

abbrev pub default_reconnect_interval : String
default_reconnect_interval = "5s"

abbrev pub default_metric_path : String
default_metric_path = "/metrics"

abbrev prometheus_adds : List AddParm
prometheus_adds =
    str_parm "httpListenPort" default_port "ibmmq.httpListenPort" "prometheus" "port"
      "HTTP(S) Listener Port"
    ∷ str_parm "httpListenHost" "" "ibmmq.httpListenHost" "prometheus" "host"
        "HTTP(S) Listener Host"
    ∷ str_parm "httpMetricPath" default_metric_path "ibmmq.httpMetricPath" "prometheus"
        "metricsPath" "Path to exporter metrics"
    ∷ bool_parm "keepRunning" true "ibmmq.keepRunning" "prometheus" "keepRunning"
        "Continue running after queue manager disconnection"
    ∷ str_parm "reconnectInterval" default_reconnect_interval "ibmmq.reconnectInterval" "prometheus"
        "reconnectInterval" "How fast to validate connection attempts"
    ∷ str_parm "httpsCertFile" "" "ibmmq.httpsCertFile" "prometheus" "httpsCertFile"
        "TLS public certificate file"
    ∷ str_parm "httpsKeyFile" "" "ibmmq.httpsKeyFile" "prometheus" "httpsKeyFile"
        "TLS private key file"
    ∷ str_parm "namespace" default_namespace "namespace" "prometheus" "namespace"
        "Namespace for metrics"
    ∷ str_parm "overrideCType" "" "ibmmq.overrideCType" "prometheus" "overrideCType"
        "Override default data types to give mixture of Counters and Gauges"
    ∷ []

unfoldable pub prometheus_parms : ConfigParms
unfolding run_adds add_parm init_config
prometheus_parms = run_adds prometheus_adds init_config

abbrev pub or_default : Bytes → String → Bytes
or_default s d = if is_empty s then codes d else s

abbrev pub prometheus_rows : ConfigYProm → List Row
prometheus_rows y =
    str_row "httpListenPort" "prometheus" "port" y.port
    ∷ str_row "httpListenHost" "prometheus" "host" y.host
    ∷ str_row "httpMetricPath" "prometheus" "MetricsPath" y.metrics_path
    ∷ str_row "namespace" "prometheus" "namespace" y.namespace
    ∷ str_row "httpsCertFile" "prometheus" "httpsCertFile" y.https_cert_file
    ∷ str_row "httpsKeyFile" "prometheus" "httpsKeyFile" y.https_key_file
    ∷ bool_row "keepRunning" "prometheus" "keepRunning" y.keep_running
    ∷ str_row "reconnectInterval" "prometheus" "reconnectInterval"
        (or_default y.reconnect_interval default_reconnect_interval)
    ∷ str_row "overrideCType" "prometheus" "overrideCType" y.override_c_type
    ∷ []

-- `if config.x == "" { config.x = default }`
abbrev pub default_str : String → String → Config → Config
default_str x d c = with_str x (or_default (str_of c x) d) c

unfoldable pub default_names : Config → Config
default_names c =
    default_str "namespace" default_namespace (default_str "httpMetricPath" default_metric_path c)

-- The events of statistics force the override.
unfoldable pub override_for_statistics : Config → Config
unfolding as_bool
override_for_statistics c =
    let b = as_bool (str_of c "overrideCType") true in
    with_bool "overrideCTypeBool" (if bool_of c "cm.CC.UseStatistics" && not b then true else b) c

unfoldable pub reconnect_duration : Config → Option ℤ → Started
reconnect_duration c none = rejected
reconnect_duration c (some d) =
    ready (record c { vars = set_int "reconnectIntervalDuration" d c.vars })

module _ (w : Surroundings ConfigYProm) where
  unfoldable pub parse_reconnect : Config → Started
  unfolding reconnect_duration
  parse_reconnect c =
      let c' = default_str "reconnectInterval" default_reconnect_interval c in
      reconnect_duration c' (w.externals.parse_duration (str_of c' "reconnectInterval"))

  unfoldable pub prometheus_init_config : Config → Started
  unfolding settings default_names override_for_statistics verified parse_reconnect get_password
  prometheus_init_config c = do
    c₁ ← settings w prometheus_parms prometheus_rows c
    c₂ ← verified w (override_for_statistics (default_names c₁))
    c₃ ← parse_reconnect c₂
    get_password w c₃
