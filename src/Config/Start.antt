-- ===== src/Config/Start.antt =====
-- cmd/mq_json/config.go, cmd/mq_prometheus/config.go, cmd/mq_otel/config.go: what the three versions
-- of initConfig have in common. `Y` is the collector's own part of the YAML file. The log level is
-- left out.
pub mod Own
pub mod Kept
use mq_metric_samples.Prelude.{
  ℕ, Bytes, codes, is_empty, Bool, true, false, not, ◌&&◌, List, Option, none, some, if◌then◌else◌,
  ◌≡◌, refl,
}
use mq_metric_samples.Config.Parms.Entry.{ConfigParms}
use mq_metric_samples.Config.Parms.Flags.{Outcome, returned, exited, panicked}
use mq_metric_samples.Config.Parms.Parse.{Process, Parsed, parse_parms}
use mq_metric_samples.Config.Parms.Vars.{Vars}
use mq_metric_samples.Config.Record.{Config}
use mq_metric_samples.Config.Verify.Steps.{Checked, passed, failed, Externals, str_of, with_str}
use mq_metric_samples.Config.Verify.Whole.{verify_config}
use mq_metric_samples.Config.Yaml.Rows.{Row, copy_rows}
use mq_metric_samples.Config.Yaml.Types.{
  ConfigYGlobal, ConfigYConnection, ConfigYObjects, ConfigYFilters,
}
use mq_metric_samples.Config.Yaml.Whole.{copy_yaml_config}

-- `mqExporterConfigYaml`
pub record MqExporterConfigYaml (Y : Type 0) : Type 0 where
  pub global : ConfigYGlobal
  pub connection : ConfigYConnection
  pub objects : ConfigYObjects
  pub filters : ConfigYFilters
  pub own : Y

-- What initConfig meets: the process, the file of a name, if it can be read and parsed, what
-- VerifyConfig calls, and the passwords on standard input and in a file.
pub record Surroundings (Y : Type 0) : Type 0 where
  pub process : Process
  pub read_config_file : Bytes → Option (MqExporterConfigYaml Y)
  pub externals : Externals
  pub password_from_stdin : Bytes
  pub password_from_file : Bytes → Option Bytes

-- It returns without or with an error, ends the process, or panics.
pub data Started : Type 0 where
  ready : Config → Started
  rejected : Started
  ended : ℕ → Started
  crashed : Started

-- `if err == nil`
infixl 5 ◌>>=◌
abbrev pub ◌>>=◌ : Started → (Config → Started) → Started
ready c >>= f = f c
rejected >>= f = rejected
ended n >>= f = ended n
crashed >>= f = crashed

pub >>=-eq-ready :
    (m : Started) (f : Config → Started) {c : Config}
    → (m >>= f) ≡ ready c
    → (b : Config) × (m ≡ ready b) × (f b ≡ ready c)
>>=-eq-ready (ready b) f h = (b, refl, h)
>>=-eq-ready rejected f h = cc h
>>=-eq-ready (ended n) f h = cc h
>>=-eq-ready crashed f h = cc h

unfoldable pub ready_or_crashed : Config → Option Vars → Started
ready_or_crashed c none = crashed
ready_or_crashed c (some s) = ready (record c { vars = s })

-- The collector's own assignments are made also behind an error of CopyYamlConfig.
unfoldable pub copied : ConfigParms → List Row → Option (Config × Bool) → Started
unfolding copy_rows ready_or_crashed
copied parms rows none = crashed
copied parms rows (some (c, err)) = do
  c' ← ready_or_crashed c (copy_rows parms rows c.vars)
  if err then rejected else ready c'

unfoldable pub checked : Checked → Started
checked (passed c) = ready c
checked (failed c e) = rejected
checked Checked.panicked = crashed

unfoldable pub with_password : Config → Option Bytes → Started
with_password c none = rejected
with_password c (some p) = ready (with_str "cm.CC.Password" p c)

module _ {Y : Type 0} (w : Surroundings Y) where
  unfoldable pub read_file :
      ConfigParms → (Y → List Row) → Config → Option (MqExporterConfigYaml Y) → Started
  unfolding copied copy_yaml_config
  read_file parms rows c none = rejected
  read_file parms rows c (some f) =
      copied parms (rows f.own) (copy_yaml_config parms f.global f.connection f.objects f.filters c)

  unfoldable pub parsed : (Y → List Row) → Config → Outcome Parsed → Started
  unfolding read_file
  parsed rows c (returned r) =
      let c' = record c { vars = r.vars } in
      if r.err
      then rejected
      else if is_empty (str_of c' "cm.ConfigFile")
      then ready c'
      else read_file r.parms rows c' (w.read_config_file (str_of c' "cm.ConfigFile"))
  parsed rows c (exited n) = ended n
  parsed rows c panicked = crashed

  -- The parameters, and the file that they may name.
  unfoldable pub settings : ConfigParms → (Y → List Row) → Config → Started
  unfolding parsed parse_parms
  settings parms rows c = parsed rows c (parse_parms w.process parms c.vars)

  unfoldable pub verified : Config → Started
  unfolding checked verify_config
  verified c = checked (verify_config w.externals c)

  unfoldable pub get_password : Config → Started
  unfolding with_password
  get_password c =
      if not (is_empty (str_of c "cm.CC.UserId")) && is_empty (str_of c "cm.CC.Password")
      then (if is_empty (str_of c "cm.PasswordFile")
          then ready (with_str "cm.CC.Password" w.password_from_stdin c)
          else with_password c (w.password_from_file (str_of c "cm.PasswordFile")))
      else ready c
