-- ===== src/Config/Start/Own.antt =====
-- What initConfig leaves in the collector's own variables that the YAML file names.
use text.Mathlib.Text.{◌==◌ as str_eq}
use text.Mathlib.TextEquality.{eq_iff}
use mq_metric_samples.Prelude.{
  Bytes, String, bytes_eq, bytes_eq_iff, is_empty, lookup, Bool, true, false, not, ◌&&◌, ◌||◌, List,
  [], ◌∷◌, Option, none, some, map, All, In, inl, inr, Bool-cases, if◌then◌else◌, ◌≡◌, refl, ap,
  sym, ◌∙◌, arith,
}
use mq_metric_samples.Config.Parms.Entry.{
  ConfigParm, Entry, ConfigParms, env_var_key, sort_entries, All-sort_entries,
}
use mq_metric_samples.Config.Parms.Flags.{returned}
use mq_metric_samples.Config.Parms.Parse.{
  Process, Parsed, apply_env, cli_set, mark_cli, parse_parms,
}
use mq_metric_samples.Config.Parms.Precedence.{parse_parms-parms}
use mq_metric_samples.Config.Parms.Vars.{Vars, load}
use mq_metric_samples.Config.Record.{Config}
use mq_metric_samples.Config.Start.{
  >>=-eq-ready, MqExporterConfigYaml, Surroundings, ready, ready_or_crashed, copied, read_file,
  parsed, settings,
}
use mq_metric_samples.Config.Yaml.Copy.{user_loc, copy_parm_if_not_set}
use mq_metric_samples.Config.Yaml.Precedence.{
  row_loc, row_value, row_user, DistinctRows, copy_rows_precedence,
}
use mq_metric_samples.Config.Yaml.Rows.{Row, bool_row, str_row, int_row, copy_rows}

-- Whatever has the key is the flag `n`, and is not marked yet.
abbrev Only : Bytes → String → Entry → Type 0
Only k n e = bytes_eq e.0 k ≡ true → (e.1.cli_name ≡ n) × (e.1.user_set ≡ false)

unfoldable pub only_entry : Bytes → String → List Entry → Bool
only_entry k n [] = true
only_entry k n ((key, p) ∷ es) =
    (not (bytes_eq key k) || (str_eq p.cli_name n && not p.user_set)) && only_entry k n es

only_entry-All :
    (k : Bytes) (n : String) (es : List Entry) → only_entry k n es ≡ true → All (Only k n) es
unfolding only_entry
only_entry-All k n [] h = tt
only_entry-All k n ((key, p) ∷ es) h =
    ((λ e. ground (arith, eq_iff p.cli_name n)), only_entry-All k n es (ground arith))

abbrev Unmarked : Bytes → Entry → Type 0
Unmarked k e = bytes_eq e.0 k ≡ true → e.1.user_set ≡ false

module _ (w : Process) (k : Bytes) (n : String) (no_setting : cli_set n w.settings ≡ false)
    (no_env : is_empty (w.getenv k) ≡ true) where
  stays-Unmarked :
      (key : Bytes) (p : ConfigParm)
      → Only k n (key, p)
      → bytes_eq (apply_env w.getenv (key, p)).0 k ≡ true
      → (if cli_set (apply_env w.getenv (key, p)).1.cli_name w.settings
          then record (apply_env w.getenv (key, p)).1 { user_set = true }
          else (apply_env w.getenv (key, p)).1).user_set
        ≡ false
  unfolding apply_env
  stays-Unmarked key p only same =
      let same' : bytes_eq key k ≡ true = ground arith in
      let is_k : key ≡ k = (bytes_eq_iff key k).0 same' in
      let (named, unmarked) = only same' in
      let empty : is_empty (w.getenv key) ≡ true = rw is_k no_env in
      let unset : cli_set p.cli_name w.settings ≡ false = rw named no_setting in
      rw (empty, unset) unmarked

  marked-Unmarked :
      (es : List Entry)
      → All (Only k n) es
      → All (Unmarked k) (mark_cli w.settings (map (apply_env w.getenv) es))
  unfolding mark_cli apply_env
  marked-Unmarked [] h = tt
  marked-Unmarked ((key, p) ∷ es) h = (stays-Unmarked key p h.0, marked-Unmarked es h.1)

lookup-Unmarked :
    (k : Bytes) (parms : ConfigParms) {p : ConfigParm}
    → All (Unmarked k) parms
    → lookup k parms ≡ some p
    → p.user_set ≡ false
unfolding lookup
lookup-Unmarked k [] h e = cc e
lookup-Unmarked k ((key, q) ∷ es) {p} h e = elim (Bool-cases (bytes_eq key k)) [
  | inl same ↦ let is : q ≡ p = cc (rw same at e) in rw (← is) (h.0 same)
  | inr other ↦ lookup-Unmarked k es h.1 (rw other at e)
]

unmarked_user_loc :
    (o : Option ConfigParm)
    → ((p : ConfigParm) → o ≡ some p → p.user_set ≡ false)
    → user_loc o ≡ none
unfolding user_loc
unmarked_user_loc none h = refl
unmarked_user_loc (some p) h = rw (h p refl)

-- The table has one parameter for a place in the YAML file, with the flag `n`; the user has given
-- neither the flag nor the environment variable.
pub record NotGiven (w : Process) (parms : ConfigParms) (section name n : String) : Type 0 where
  pub one : only_entry (env_var_key section name) n parms ≡ true
  pub no_setting : cli_set n w.settings ≡ false
  pub no_env : is_empty (w.getenv (env_var_key section name)) ≡ true

not_given_lem :
    (w : Process) (parms : ConfigParms) (vars : Vars) {r : Parsed} (section name n : String)
    → NotGiven w parms section name n
    → parse_parms w parms vars ≡ returned r
    → copy_parm_if_not_set r.parms section name ≡ none
unfolding copy_parm_if_not_set
not_given_lem w parms vars section name n g h =
    let k = env_var_key section name in
    let sorted = All-sort_entries (Only k n) parms (only_entry-All k n parms g.one) in
    rw (parse_parms-parms w parms vars h) (
      unmarked_user_loc _ (λ p.
        lookup-Unmarked k _
          (marked-Unmarked w k n g.no_setting g.no_env (sort_entries parms) sorted)))

-- The same for the parameter of a row.
abbrev pub RowNotGiven : Process → ConfigParms → Row → String → Type 0
RowNotGiven w parms (bool_row var section name val) n = NotGiven w parms section name n
RowNotGiven w parms (str_row var section name val) n = NotGiven w parms section name n
RowNotGiven w parms (int_row var section name val) n = NotGiven w parms section name n

row_not_given :
    (w : Process) (parms : ConfigParms) (vars : Vars) {r : Parsed} (row : Row) (n : String)
    → RowNotGiven w parms row n
    → parse_parms w parms vars ≡ returned r
    → row_user r.parms row ≡ none
row_not_given w parms vars (bool_row var section name val) n =
    not_given_lem w parms vars section name n
row_not_given w parms vars (str_row var section name val) n =
    not_given_lem w parms vars section name n
row_not_given w parms vars (int_row var section name val) n =
    not_given_lem w parms vars section name n

ready_or_crashed-eq :
    (c : Config) (o : Option Vars) {c' : Config}
    → ready_or_crashed c o ≡ ready c'
    → (s : Vars) × (o ≡ some s) × (c'.vars ≡ s)
unfolding ready_or_crashed
ready_or_crashed-eq c none h = cc h
ready_or_crashed-eq c (some s) {c'} h =
    let e : record c { vars = s } ≡ c' = cc h in (s, refl, rw (← e))

-- Where the assignments of the own part are made, and no error came before them.
copied_rows :
    (parms : ConfigParms) (rows : List Row) (o : Option (Config × Bool)) {c' : Config}
    → copied parms rows o ≡ ready c'
    → (s : Vars) × (copy_rows parms rows s ≡ some c'.vars)
unfolding copied
copied_rows parms rows none h = cc h
copied_rows parms rows (some (c, true)) {c'} h =
    let (c₁, first, rest) = >>=-eq-ready (ready_or_crashed c (copy_rows parms rows c.vars)) _ h in
    cc rest
copied_rows parms rows (some (c, false)) {c'} h =
    let (c₁, first, rest) = >>=-eq-ready (ready_or_crashed c (copy_rows parms rows c.vars)) _ h in
    let (s, done, is) = ready_or_crashed-eq c (copy_rows parms rows c.vars) first in
    let last : c₁ ≡ c' = cc rest in (c.vars, rw (← last, is) done)

-- The user has not set the row's parameter, or it is bound to the row's variable.
row_unset :
    (parms : ConfigParms) (row : Row) (rows : List Row) (s s' : Vars)
    → In row rows
    → DistinctRows rows
    → row_user parms row ≡ none
    → copy_rows parms rows s ≡ some s'
    → load (row_loc row) s' ≡ row_value row
row_unset parms row rows s s' i distinct unset h =
    elim (copy_rows_precedence parms s s' i distinct (inl unset) h) [
      | inl (_, e) ↦ e
      | inr (user, _) ↦ cc (unset, user)
    ]

-- The parameters are parsed, and name a file that is read.
pub record FileRead {Y : Type 0} (w : Surroundings Y) (parms : ConfigParms) (c : Config)
    (r : Parsed) (f : MqExporterConfigYaml Y) : Type 0 where
  pub is_parsed : parse_parms w.process parms c.vars ≡ returned r
  pub named : is_empty (r.vars.str_var "cm.ConfigFile") ≡ false
  pub found : w.read_config_file (r.vars.str_var "cm.ConfigFile") ≡ some f

module _ {Y : Type 0} (w : Surroundings Y) (parms : ConfigParms) (rows : Y → List Row)
    (c : Config) where
  -- A variable of the collector's own part that the user has not given has the value of the YAML
  -- file, also one that the file does not mention.
  pub settings-file :
      {r : Parsed} {f : MqExporterConfigYaml Y} {c' : Config} (row : Row) (n : String)
      → FileRead w parms c r f
      → In row (rows f.own)
      → DistinctRows (rows f.own)
      → RowNotGiven w.process parms row n
      → settings w parms rows c ≡ ready c'
      → load (row_loc row) c'.vars ≡ row_value row
  unfolding settings parsed read_file
  settings-file {r} {f} {c'} row n file i distinct not_given h =
      let unset = row_not_given w.process parms c.vars row n not_given file.is_parsed in
      let h' : parsed w rows c (returned r) ≡ ready c' =
        ap (parsed w rows c) (sym file.is_parsed) ∙ h in
      elim (Bool-cases r.err) [
        | inl err ↦ cc (rw err at h')
        | inr ok ↦
            let read : read_file w r.parms rows (record c { vars = r.vars }) (some f) ≡ ready c' =
              rw (ok, file.named, file.found) at h' in
            let (s, done) = copied_rows r.parms (rows f.own) _ read in
            row_unset r.parms row (rows f.own) s c'.vars i distinct unset done
      ]
