-- ===== src/Otel/Settings/File.antt =====
-- What a YAML file leaves in the variables of the OpenTelemetry collector.
use mq_metric_samples.Prelude.{String, false, All, All-In, In, ◌≡◌, ◌∙◌}
use mq_metric_samples.Config.Parms.Parse.{Parsed}
use mq_metric_samples.Config.Parms.Vars.{bool_loc, load, same_loc}
use mq_metric_samples.Config.Record.{Config}
use mq_metric_samples.Config.Start.{
  >>=-eq-ready, MqExporterConfigYaml, Surroundings, ready, settings, verified,
}
use mq_metric_samples.Config.Start.Kept.{IsOwn, verified-kept, get_password-kept}
use mq_metric_samples.Config.Start.Own.{RowNotGiven, FileRead, settings-file}
use mq_metric_samples.Config.Yaml.Precedence.{row_loc, row_value, DistinctRows, set_bool-load}
use mq_metric_samples.Config.Yaml.Rows.{Row}
use mq_metric_samples.Otel.Settings.{
  ConfigYoTel, otel_parms, otel_rows, override_for_endpoint, otel_init_config,
}

abbrev IsFree : Row → Type 0
IsFree row = IsOwn (row_loc row) × (same_loc (bool_loc "overrideCType") (row_loc row) ≡ false)

otel_rows-IsFree : (y : ConfigYoTel) → All IsFree (otel_rows y)
unfolding same_loc
otel_rows-IsFree y = (search)

otel_rows-DistinctRows : (y : ConfigYoTel) → DistinctRows (otel_rows y)
unfolding same_loc
otel_rows-DistinctRows y = (search)

-- Where initConfig succeeds with a YAML file, each of the collector's own variables for which the user
-- has given no flag and no environment variable has the value of the file, and the zero of its type
-- where the file does not mention it, whatever the default of its parameter.
pub otel_init_config-file :
    (w : Surroundings ConfigYoTel) (c c' : Config) {r : Parsed}
    {f : MqExporterConfigYaml ConfigYoTel} (row : Row) (n : String)
    → FileRead w otel_parms c r f
    → In row (otel_rows f.own)
    → RowNotGiven w.process otel_parms row n
    → otel_init_config w c ≡ ready c'
    → load (row_loc row) c'.vars ≡ row_value row
unfolding otel_init_config override_for_endpoint
otel_init_config-file w c c' {f = f} row n file i not_given h =
    let l = row_loc row in
    let (own, free) = All-In IsFree i (otel_rows-IsFree f.own) in
    let (c₁, first, h₁) = >>=-eq-ready (settings w otel_parms otel_rows c) _ h in
    let (c₂, second, third) = >>=-eq-ready (verified w (override_for_endpoint c₁)) _ h₁ in
    get_password-kept w l c₂ c' own third
    ∙ verified-kept w l (override_for_endpoint c₁) c₂ own second
    ∙ set_bool-load "overrideCType" _ l c₁.vars
    ∙ (rw free)
    ∙ settings-file w otel_parms otel_rows c row n file i (otel_rows-DistinctRows f.own) not_given
        first
