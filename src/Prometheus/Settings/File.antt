-- ===== src/Prometheus/Settings/File.antt =====
-- What initConfig leaves in the variables of the Prometheus collector.
use mq_metric_samples.Prelude.{String, false, Option, none, some, In, ◌≡◌, refl, ◌∙◌, ap}
use mq_metric_samples.Prelude.Int.{ℤ}
use mq_metric_samples.Config.Parms.Parse.{Parsed}
use mq_metric_samples.Config.Parms.Vars.{Loc, str_loc, int_loc, bool_loc, load, same_loc, set_int}
use mq_metric_samples.Config.Record.{Config}
use mq_metric_samples.Config.Start.{
  >>=-eq-ready, MqExporterConfigYaml, Surroundings, ready, settings, verified,
}
use mq_metric_samples.Config.Start.Kept.{IsOwn, verified-kept, get_password-kept}
use mq_metric_samples.Config.Start.Own.{RowNotGiven, FileRead, settings-file}
use mq_metric_samples.Config.Yaml.Precedence.{
  row_loc, row_value, DistinctRows, set_bool-load, set_str-kept, set_int-kept,
}
use mq_metric_samples.Config.Yaml.Rows.{Row}
use mq_metric_samples.Prometheus.Settings.{
  ConfigYProm, prometheus_parms, prometheus_rows, default_names, override_for_statistics,
  parse_reconnect, prometheus_init_config, reconnect_duration,
}

-- A variable that the blocks behind the file do not write.
abbrev IsFree : Loc → Type 0
IsFree l =
    IsOwn l
    × (same_loc (str_loc "httpMetricPath") l ≡ false)
    × (same_loc (str_loc "namespace") l ≡ false)
    × (same_loc (bool_loc "overrideCTypeBool") l ≡ false)
    × (same_loc (str_loc "reconnectInterval") l ≡ false)
    × (same_loc (int_loc "reconnectIntervalDuration") l ≡ false)

reconnect_duration-ready :
    (c : Config) (o : Option ℤ) {c' : Config}
    → reconnect_duration c o ≡ ready c'
    → (d : ℤ) × (o ≡ some d) × (c'.vars ≡ (set_int "reconnectIntervalDuration" d c.vars))
unfolding reconnect_duration
reconnect_duration-ready c none h = cc h
reconnect_duration-ready c (some d) {c'} h =
    let is : record c { vars = set_int "reconnectIntervalDuration" d c.vars } ≡ c' = cc h in
    (d, refl, rw (← is))

prometheus_rows-DistinctRows : (y : ConfigYProm) → DistinctRows (prometheus_rows y)
unfolding same_loc
prometheus_rows-DistinctRows y = (search)

module _ (w : Surroundings ConfigYProm) where
  parse_reconnect-kept :
      (l : Loc) (c c' : Config)
      → same_loc (str_loc "reconnectInterval") l ≡ false
      → same_loc (int_loc "reconnectIntervalDuration") l ≡ false
      → parse_reconnect w c ≡ ready c'
      → load l c'.vars ≡ load l c.vars
  unfolding parse_reconnect
  parse_reconnect-kept l c c' free free' h =
      let (d, parsed, is) = reconnect_duration-ready _ _ h in
      ap (load l) is
      ∙ set_int-kept "reconnectIntervalDuration" d l _ free'
      ∙ set_str-kept "reconnectInterval" _ l c.vars free

  default_names-kept :
      (l : Loc) (c : Config)
      → same_loc (str_loc "httpMetricPath") l ≡ false
      → same_loc (str_loc "namespace") l ≡ false
      → load l (default_names c).vars ≡ load l c.vars
  unfolding default_names
  default_names-kept l c free free' =
      set_str-kept "namespace" _ l _ free' ∙ set_str-kept "httpMetricPath" _ l c.vars free

  -- Where initConfig succeeds with a YAML file and the user has given neither flag nor environment
  -- variable for one of the collector's own settings other than httpMetricPath, namespace and
  -- reconnectInterval, whose defaults are put back, it has the value of the file, and the zero of its
  -- type where the file does not mention it.
  pub prometheus_init_config-file :
      (c c' : Config) {r : Parsed} {f : MqExporterConfigYaml ConfigYProm} (row : Row) (n : String)
      → FileRead w prometheus_parms c r f
      → In row (prometheus_rows f.own)
      → IsFree (row_loc row)
      → RowNotGiven w.process prometheus_parms row n
      → prometheus_init_config w c ≡ ready c'
      → load (row_loc row) c'.vars ≡ row_value row
  unfolding prometheus_init_config override_for_statistics
  prometheus_init_config-file c c' {f = f} row n file i free not_given h =
      let l = row_loc row in
      let (own, path, name, ctype, interval, duration) = free in
      let (c₁, first, h₁) = >>=-eq-ready (settings w prometheus_parms prometheus_rows c) _ h in
      let (c₂, second, h₂) =
        >>=-eq-ready (verified w (override_for_statistics (default_names c₁))) _ h₁ in
      let (c₃, third, fourth) = >>=-eq-ready (parse_reconnect w c₂) _ h₂ in
      get_password-kept w l c₃ c' own fourth
      ∙ parse_reconnect-kept l c₂ c₃ interval duration third
      ∙ verified-kept w l (override_for_statistics (default_names c₁)) c₂ own second
      ∙ set_bool-load "overrideCTypeBool" _ l (default_names c₁).vars
      ∙ (rw ctype)
      ∙ default_names-kept l c₁ path name
      ∙ settings-file w prometheus_parms prometheus_rows c row n file i
          (prometheus_rows-DistinctRows f.own) not_given first
