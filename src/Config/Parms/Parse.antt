-- ===== src/Config/Parms/Parse.antt =====
-- pkg/config/config.go: ParseParms and cliSet.
pub mod Setup
pub mod Marks
use text.Mathlib.Text.{◌==◌ as str_eq}
use mq_metric_samples.Prelude.{
  Bytes, String, is_empty, Bool, true, false, ◌||◌, List, [], ◌∷◌, Option, if◌then◌else◌,
}
use mq_metric_samples.Prelude.Int.{ℤ}
use mq_metric_samples.Config.Parms.Convert.{parse_bool, parse_int}
use mq_metric_samples.Config.Parms.Entry.{ConfigParm, Entry, ConfigParms, sort_entries}
use mq_metric_samples.Config.Parms.Flags.{
  Outcome, returned, ◌>>=◌, Setting, Machine, define_flag, flag_parse,
}
use mq_metric_samples.Config.Parms.Vars.{
  Value, str, int, bool, ParmType, cp_str, cp_int, cp_bool, Vars,
}

-- What ParseParms meets: the environment, the command line's settings, and what follows them.
pub record Process : Type 0 where
  pub getenv : Bytes → Bytes
  pub flag_int : Bytes → Option ℤ
  pub settings : List Setting
  pub args : List Bytes

unfoldable pub env_value : ParmType → Bytes → Value
unfolding parse_bool parse_int
env_value cp_str text = str text
env_value cp_int text = int (parse_int text).0
env_value cp_bool text = bool (parse_bool text).0

-- The first loop's body up to the definition of the flag.
unfoldable pub apply_env : (Bytes → Bytes) → Entry → Entry
unfolding env_value
apply_env getenv (key, p) =
    if is_empty (getenv key)
    then (key, p)
    else (key, record p { user_set = true; default_value = env_value p.parm_type (getenv key) })

unfoldable pub setup_flags : (Bytes → Bytes) → List Entry → Machine → Outcome (List Entry × Machine)
unfolding apply_env define_flag
setup_flags getenv [] m = returned ([], m)
setup_flags getenv (e ∷ es) m = do
  let e' = apply_env getenv e
  m' ← define_flag e'.1.parm_type e'.1.loc e'.1.cli_name e'.1.default_value m
  (es', m'') ← setup_flags getenv es m'
  returned (e' ∷ es', m'')

-- cliSet.
unfoldable pub cli_set : String → List Setting → Bool
cli_set n [] = false
cli_set n ((name, text) ∷ ss) = str_eq name n || cli_set n ss

-- The second loop: it records what the command line set.
unfoldable pub mark_cli : List Setting → List Entry → List Entry
unfolding cli_set
mark_cli settings [] = []
mark_cli settings ((key, p) ∷ es) =
    (key, if cli_set p.cli_name settings then record p { user_set = true } else p)
    ∷ mark_cli settings es

-- `err` is that further parameters follow the flags.
pub record Parsed : Type 0 where
  pub parms : ConfigParms
  pub vars : Vars
  pub err : Bool

unfoldable pub has_args : List Bytes → Bool
has_args [] = false
has_args (a ∷ as') = true

unfoldable pub parse_parms : Process → ConfigParms → Vars → Outcome Parsed
unfolding sort_entries setup_flags flag_parse mark_cli has_args
parse_parms w parms vars = do
  (es, m) ← setup_flags w.getenv (sort_entries parms) (record { vars = vars; flags = [] })
  m' ← flag_parse w.flag_int w.settings m
  returned (record { parms = mark_cli w.settings es; vars = m'.vars; err = has_args w.args })
