-- ===== src/Json/Settings.antt =====
-- cmd/mq_json/config.go: initConfig.
pub mod File
use mq_metric_samples.Prelude.{Bytes, Bool, false, List, [], ◌∷◌}
use mq_metric_samples.Prelude.Int.{ℤ}
use mq_metric_samples.Config.Init.{AddParm, str_parm, int_parm, bool_parm, run_adds, init_config}
use mq_metric_samples.Config.Parms.Entry.{ConfigParms, add_parm}
use mq_metric_samples.Config.Record.{Config}
use mq_metric_samples.Config.Start.{◌>>=◌, Surroundings, Started, settings, verified, get_password}
use mq_metric_samples.Config.Yaml.Rows.{Row, bool_row, str_row, int_row}

pub record ConfigYJson : Type 0 where
  pub interval : Bytes
  pub one_line : Bool
  pub record_max : ℤ

abbrev json_adds : List AddParm
json_adds =
    str_parm "interval" "10s" "ibmmq.interval" "json" "interval" "How long between each collection"
    ∷ bool_parm "oneline" false "ibmmq.oneline" "json" "oneline" "JSON output on a single line"
    ∷ int_parm "recordmax" 100 "ibmmq.recordmax" "json" "recordmax"
        "Max records in a single JSON array"
    ∷ []

unfoldable pub json_parms : ConfigParms
unfolding run_adds add_parm init_config
json_parms = run_adds json_adds init_config

abbrev pub json_rows : ConfigYJson → List Row
json_rows y =
    str_row "interval" "json" "interval" y.interval
    ∷ bool_row "oneline" "json" "oneline" y.one_line
    ∷ int_row "recordmax" "json" "recordmax" y.record_max
    ∷ []

unfoldable pub json_init_config : Surroundings ConfigYJson → Config → Started
unfolding settings verified get_password
json_init_config w c = do
  c₁ ← settings w json_parms json_rows c
  c₂ ← verified w c₁
  get_password w c₂
