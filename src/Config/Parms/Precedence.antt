-- ===== src/Config/Parms/Precedence.antt =====
-- ParseParms as a whole: where the value of a parameter comes from.
use mq_metric_samples.Prelude.{
  Bytes, is_empty, not, ◌||◌, List, [], map, if◌then◌else◌, ◌≡◌, refl, ap, ◌∙◌, In, In-map, arith,
}
use mq_metric_samples.Config.Parms.Entry.{
  ConfigParm, Entry, ConfigParms, sort_entries, In-sort_entries, AllPairs-sort_entries,
}
use mq_metric_samples.Config.Parms.Flags.Settings.{last_setting, Takes, flag_parse-Takes}
use mq_metric_samples.Config.Parms.Flags.{returned, >>=-eq-returned, Machine, flag_parse}
use mq_metric_samples.Config.Parms.Parse.Marks.{marked, In-mark_cli}
use mq_metric_samples.Config.Parms.Parse.Setup.{
  Apart, DistinctLocs, setup_flags-Setup, load-Setup, find_flag-Setup, OnlyFlag-Setup,
}
use mq_metric_samples.Config.Parms.Parse.{
  Process, Parsed, apply_env, env_value, cli_set, mark_cli, has_args, setup_flags, parse_parms,
}
use mq_metric_samples.Config.Parms.Vars.{Value, Vars, load}

-- A parameter's value where the command line says nothing.
abbrev pub fallback : Process → Bytes → ConfigParm → Value
fallback w key p =
    if is_empty (w.getenv key) then p.default_value else env_value p.parm_type (w.getenv key)

-- What ParseParms makes of an entry.
abbrev pub resolved : Process → Bytes → ConfigParm → ConfigParm
resolved w key p = record p {
  default_value = fallback w key p;
  user_set = cli_set p.cli_name w.settings || (not (is_empty (w.getenv key)) || p.user_set);
}

apply_env_lem :
    (w : Process) (key : Bytes) (p : ConfigParm)
    → marked w.settings (apply_env w.getenv (key, p)).1 ≡ resolved w key p
unfolding apply_env
apply_env_lem w key p = ground arith

apply_env-key : (w : Process) (key : Bytes) (p : ConfigParm) → (apply_env w.getenv (key, p)).0 ≡ key
unfolding apply_env
apply_env-key w key p = ground arith

apply_env-default_value :
    (w : Process) (key : Bytes) (p : ConfigParm)
    → (apply_env w.getenv (key, p)).1.default_value ≡ fallback w key p
unfolding apply_env
apply_env-default_value w key p = ground arith

In-marked :
    (w : Process) (key : Bytes) (p : ConfigParm) {es : List Entry}
    → In (key, p) es
    → In (key, resolved w key p) (mark_cli w.settings (map (apply_env w.getenv) es))
In-marked w key p i =
    let k = In-map (apply_env w.getenv) i in
    let e : apply_env w.getenv (key, p) ≡ (key, (apply_env w.getenv (key, p)).1) =
      ap (λ (x : Bytes). (x, (apply_env w.getenv (key, p)).1)) (apply_env-key w key p) in
    rw (← apply_env_lem w key p) (In-mark_cli w.settings (rw e at k))

-- The entries that ParseParms leaves.
pub parse_parms-parms :
    (w : Process) (parms : ConfigParms) (vars : Vars) {r : Parsed}
    → parse_parms w parms vars ≡ returned r
    → r.parms ≡ mark_cli w.settings (map (apply_env w.getenv) (sort_entries parms))
unfolding parse_parms
parse_parms-parms w parms vars {r} h =
    let start : Machine = record { vars = vars; flags = [] } in
    let sorted = sort_entries parms in
    let (s, first, rest) = >>=-eq-returned (setup_flags w.getenv sorted start) _ h in
    let (m', second, end') = >>=-eq-returned (flag_parse w.flag_int w.settings s.1) _ rest in
    let setup = setup_flags-Setup w.getenv sorted start {es' = s.0} {m' = s.1} first in
    let is : r ≡ record { parms = mark_cli w.settings s.0; vars = m'.vars; err = has_args w.args } =
      cc end' in
    rw is (ap (mark_cli w.settings) setup.0)

-- The last setting of the parameter's flag decides its value; without one it is the environment's,
-- and without that the default. The entry is marked as set by the user exactly where one of the
-- first two is there or it was marked before.
pub parse_parms_precedence :
    (w : Process) (parms : ConfigParms) (vars : Vars) {r : Parsed} (key : Bytes) (p : ConfigParm)
    → DistinctLocs parms
    → parse_parms w parms vars ≡ returned r
    → In (key, p) parms
    → Takes w.flag_int p.loc
        (last_setting p.cli_name w.settings)
        (fallback w key p)
        (load p.loc r.vars)
      × In (key, resolved w key p) r.parms
unfolding parse_parms
parse_parms_precedence w parms vars {r} key p distinct h i =
    let start : Machine = record { vars = vars; flags = [] } in
    let sorted = sort_entries parms in
    let (s, first, rest) = >>=-eq-returned (setup_flags w.getenv sorted start) _ h in
    let (m', second, end') = >>=-eq-returned (flag_parse w.flag_int w.settings s.1) _ rest in
    let setup = setup_flags-Setup w.getenv sorted start {es' = s.0} {m' = s.1} first in
    let j = In-sort_entries i in
    let apart = AllPairs-sort_entries Apart (λ e f p. (p.1, p.0)) parms distinct in
    let takes =
      flag_parse-Takes w.flag_int p.cli_name p.loc w.settings s.1
        (find_flag-Setup w.getenv j setup.1) (OnlyFlag-Setup w.getenv j apart setup.1 refl)
        second in
    let before = load-Setup w.getenv j apart setup.1 ∙ apply_env-default_value w key p in
    let is : r ≡ record { parms = mark_cli w.settings s.0; vars = m'.vars; err = has_args w.args } =
      cc end' in
    rw is (rw before at takes, rw setup.0 (In-marked w key p j))
