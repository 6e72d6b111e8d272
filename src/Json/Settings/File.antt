-- ===== src/Json/Settings/File.antt =====
-- What a YAML file leaves in the variables of the JSON collector.
use mq_metric_samples.Prelude.{String, All, All-In, In, ◌≡◌, ◌∙◌}
use mq_metric_samples.Config.Parms.Parse.{Parsed}
use mq_metric_samples.Config.Parms.Vars.{load, same_loc}
use mq_metric_samples.Config.Record.{Config}
use mq_metric_samples.Config.Start.{
  >>=-eq-ready, MqExporterConfigYaml, Surroundings, ready, settings, verified,
}
use mq_metric_samples.Config.Start.Kept.{IsOwn, verified-kept, get_password-kept}
use mq_metric_samples.Config.Start.Own.{RowNotGiven, FileRead, settings-file}
use mq_metric_samples.Config.Yaml.Precedence.{row_loc, row_value, DistinctRows}
use mq_metric_samples.Config.Yaml.Rows.{Row}
use mq_metric_samples.Json.Settings.{ConfigYJson, json_parms, json_rows, json_init_config}

abbrev IsFree : Row → Type 0
IsFree row = IsOwn (row_loc row)

json_rows-IsFree : (y : ConfigYJson) → All IsFree (json_rows y)
unfolding same_loc
json_rows-IsFree y = (search)

json_rows-DistinctRows : (y : ConfigYJson) → DistinctRows (json_rows y)
unfolding same_loc
json_rows-DistinctRows y = (search)

-- Where initConfig succeeds with a YAML file, each of the collector's own variables for which the user
-- has given no flag and no environment variable has the value of the file, and the zero of its type
-- where the file does not mention it, whatever the default of its parameter.
pub json_init_config-file :
    (w : Surroundings ConfigYJson) (c c' : Config) {r : Parsed}
    {f : MqExporterConfigYaml ConfigYJson} (row : Row) (n : String)
    → FileRead w json_parms c r f
    → In row (json_rows f.own)
    → RowNotGiven w.process json_parms row n
    → json_init_config w c ≡ ready c'
    → load (row_loc row) c'.vars ≡ row_value row
unfolding json_init_config
json_init_config-file w c c' {f = f} row n file i not_given h =
    let l = row_loc row in
    let own : IsFree row = All-In IsFree i (json_rows-IsFree f.own) in
    let (c₁, first, h₁) = >>=-eq-ready (settings w json_parms json_rows c) _ h in
    let (c₂, second, third) = >>=-eq-ready (verified w c₁) _ h₁ in
    get_password-kept w l c₂ c' own third
    ∙ verified-kept w l c₁ c₂ own second
    ∙ settings-file w json_parms json_rows c row n file i (json_rows-DistinctRows f.own) not_given
        first
