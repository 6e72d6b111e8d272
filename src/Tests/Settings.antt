-- ===== src/Tests/Settings.antt =====
-- The configuration's theorems at concrete inputs.
use mq_metric_samples.Prelude.{
  codes, true, false, [], ◌∷◌, none, In, here, split, ◌≡◌, refl, arith, ◌⨾◌,
}
use mq_metric_samples.Prelude.Int.{pos}
use mq_metric_samples.Config.Parms.Entry.{ConfigParm, ConfigParms}
use mq_metric_samples.Config.Parms.Flags.{Outcome, returned}
use mq_metric_samples.Config.Parms.Flags.Settings.{last_setting, Takes}
use mq_metric_samples.Config.Parms.Parse.{Process, Parsed, parse_parms, env_value}
use mq_metric_samples.Config.Parms.Parse.Setup.{DistinctLocs}
use mq_metric_samples.Config.Parms.Precedence.{resolved, parse_parms_precedence}
use mq_metric_samples.Config.Parms.Vars.{
  str_loc, bool_loc, str, bool, cp_str, cp_bool, Vars, load, same_loc, store,
}
use mq_metric_samples.Config.Yaml.Copy.{join}
use mq_metric_samples.Config.Yaml.Join.{split-join}
use mq_metric_samples.Config.Init.{init_config}

abbrev q_mgr_parm : ConfigParm
q_mgr_parm = record {
  loc = str_loc "cm.QMgrName";
  default_value = str [];
  parm_type = cp_str;
  user_set = false;
  cli_name = "ibmmq.queueManager";
  env_section = "connection";
  env_name = "queueManager";
  usage = "Queue Manager name";
}

abbrev publications_parm : ConfigParm
publications_parm = record {
  loc = bool_loc "cm.CC.UsePublications";
  default_value = bool true;
  parm_type = cp_bool;
  user_set = false;
  cli_name = "ibmmq.usePublications";
  env_section = "global";
  env_name = "usePublications";
  usage = "";
}

abbrev two_parms : ConfigParms
two_parms =
    (codes "IBMMQ_CONNECTION_QUEUEMANAGER", q_mgr_parm)
    ∷ (codes "IBMMQ_GLOBAL_USEPUBLICATIONS", publications_parm)
    ∷ []

abbrev pub no_vars : Vars
no_vars = record { str_var = λ x. []; int_var = λ x. pos 0; bool_var = λ x. false }

-- `QM1` in the environment for every parameter, and publications off on the command line.
abbrev process : Process
process = record {
  getenv = λ k. codes "QM1";
  flag_int = λ s. none;
  settings = ("ibmmq.usePublications", codes "false") ∷ [];
  args = [];
}

abbrev outcome_or : Parsed → Outcome Parsed → Parsed
outcome_or d (returned r) = r
outcome_or d _ = d

abbrev pub parsed : Parsed
parsed =
    outcome_or (record { parms = []; vars = no_vars; err = true })
      (parse_parms process two_parms no_vars)

two_parms-DistinctLocs : DistinctLocs two_parms
unfolding same_loc
two_parms-DistinctLocs = ((refl, refl) ⨾ tt) ⨾ tt ⨾ tt

parse_parms_precedence_example :
    Takes process.flag_int
      (str_loc "cm.QMgrName")
      none
      (str (codes "QM1"))
      (load (str_loc "cm.QMgrName") parsed.vars)
    × In
        (
          codes "IBMMQ_CONNECTION_QUEUEMANAGER",
          resolved process (codes "IBMMQ_CONNECTION_QUEUEMANAGER") q_mgr_parm,
        )
        parsed.parms
unfolding parse_parms env_value last_setting store
parse_parms_precedence_example =
    parse_parms_precedence process two_parms no_vars (codes "IBMMQ_CONNECTION_QUEUEMANAGER")
      q_mgr_parm two_parms-DistinctLocs refl here

split-join_example :
    split b',' (join (codes "APP.*" ∷ codes "!APP.X" ∷ [])) ≡ codes "APP.*" ∷ codes "!APP.X" ∷ []
split-join_example = split-join (codes "APP.*") (codes "!APP.X" ∷ []) (ground arith)

abbrev log_level_parm : ConfigParm
log_level_parm = record {
  loc = str_loc "cm.LogLevel";
  default_value = str (codes "error");
  parm_type = cp_str;
  user_set = false;
  cli_name = "log.level";
  env_section = "global";
  env_name = "logLevel";
  usage = "Log level - debug, info, error";
}

-- Nothing in the environment, and the log level on the command line.
abbrev debugging : Process
debugging = record {
  getenv = λ k. [];
  flag_int = λ s. none;
  settings = ("log.level", codes "debug") ∷ [];
  args = [];
}

abbrev shared : Parsed
shared =
    outcome_or (record { parms = []; vars = no_vars; err = true })
      (parse_parms debugging init_config no_vars)
