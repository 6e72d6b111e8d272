-- ===== src/Config/Yaml/Copy.antt =====
-- pkg/config/configyaml.go: AsBool, asInt, and the CopyParmIfNotSet family. A failed type assertion
-- on the parameter's variable panics (`none`).
use mq_metric_samples.Prelude.{
  Bytes, String, is_empty, ◌++◌, Bool, List, [], ◌∷◌, Option, none, some, lookup, if◌then◌else◌,
}
use mq_metric_samples.Prelude.Int.{ℤ}
use mq_metric_samples.Config.Parms.Convert.{parse_bool, parse_int}
use mq_metric_samples.Config.Parms.Entry.{ConfigParm, ConfigParms, env_var_key}
use mq_metric_samples.Config.Parms.Vars.{Loc, str_loc, int_loc, bool_loc, Vars}

unfoldable pub as_bool : Bytes → Bool → Bool
unfolding parse_bool
as_bool s default = if (parse_bool s).1 then (parse_bool s).0 else default

unfoldable pub as_int : Bytes → ℤ → ℤ
unfolding parse_int
as_int s default =
    if is_empty s then default else if (parse_int s).1 then (parse_int s).0 else default

unfoldable pub user_loc : Option ConfigParm → Option Loc
user_loc none = none
user_loc (some p) = if p.user_set then some p.loc else none

-- The parameter's variable, if the user has set the parameter. That a key is unknown is printed,
-- unless it is deprecated, and changes nothing.
unfoldable pub copy_parm_if_not_set : ConfigParms → String → String → Option Loc
unfolding env_var_key lookup user_loc
copy_parm_if_not_set parms section name = user_loc (lookup (env_var_key section name) parms)

unfoldable pub deref_bool : Vars → Bool → Option Loc → Option Bool
deref_bool s val none = some val
deref_bool s val (some (bool_loc x)) = some (s.bool_var x)
deref_bool s val (some _) = none

unfoldable pub deref_str : Vars → Bytes → Option Loc → Option Bytes
deref_str s val none = some val
deref_str s val (some (str_loc x)) = some (s.str_var x)
deref_str s val (some _) = none

unfoldable pub deref_int : Vars → ℤ → Option Loc → Option ℤ
deref_int s val none = some val
deref_int s val (some (int_loc x)) = some (s.int_var x)
deref_int s val (some _) = none

module _ (parms : ConfigParms) (s : Vars) (section name : String) where
  unfoldable pub copy_parm_if_not_set_bool : Bool → Option Bool
  unfolding copy_parm_if_not_set deref_bool
  copy_parm_if_not_set_bool val = deref_bool s val (copy_parm_if_not_set parms section name)

  unfoldable pub copy_parm_if_not_set_str : Bytes → Option Bytes
  unfolding copy_parm_if_not_set deref_str
  copy_parm_if_not_set_str val = deref_str s val (copy_parm_if_not_set parms section name)

  unfoldable pub copy_parm_if_not_set_int : ℤ → Option ℤ
  unfolding copy_parm_if_not_set deref_int
  copy_parm_if_not_set_int val = deref_int s val (copy_parm_if_not_set parms section name)

-- The loop from i = 1 on, which adds "," and the element to `s`.
unfoldable pub join_onto : Bytes → List Bytes → Bytes
join_onto s [] = s
join_onto s (v ∷ vs) = join_onto (s ++ (b',' ∷ v)) vs

-- A YAML array as the one text that mqmetric expects.
unfoldable pub join : List Bytes → Bytes
unfolding join_onto
join [] = []
join (v ∷ vs) = join_onto v vs

unfoldable pub copy_parm_if_not_set_str_array :
    ConfigParms → Vars → String → String → List Bytes → Option Bytes
unfolding copy_parm_if_not_set_str join
copy_parm_if_not_set_str_array parms s section name val =
    copy_parm_if_not_set_str parms s section name (join val)
