-- ===== src/Config/Yaml/Faults.antt =====
-- Where copying a YAML file panics.
use mq_metric_samples.Prelude.{
  Bytes, String, Option, none, some, lookup, true, false, ◌≡◌, refl, ◌∙◌, arith, ◌>>=◌, ap,
}
use mq_metric_samples.Config.NameSets.{Side, names, find_ot, write_name}
use mq_metric_samples.Config.Parms.Entry.{ConfigParm, ConfigParms, env_var_key}
use mq_metric_samples.Config.Parms.Vars.{Vars, int_loc}
use mq_metric_samples.Config.Record.{Config}
use mq_metric_samples.Config.Yaml.Copy.{copy_parm_if_not_set, copy_parm_if_not_set_str}
use mq_metric_samples.Config.Yaml.Filters.{copy_pairs}
use mq_metric_samples.Config.Yaml.Rows.{copy_rows, first_rows}
use mq_metric_samples.Config.Yaml.Types.{
  ConfigYGlobal, ConfigYConnection, ConfigYObjects, ConfigYFilters, text, seq, item, pair,
  YamlItems, YamlPairs,
}
use mq_metric_samples.Config.Yaml.Whole.{copy_wait_interval, copy_yaml_config}

bind_none {ℓ κ} :
    {A : Type ℓ} {B : Type κ} (m : Option A) (f : A → Option B)
    → ((a : A) → f a ≡ none)
    → (m >>= f) ≡ none
bind_none none f h = refl
bind_none (some a) f h = h a

bind_of_none {ℓ κ} :
    {A : Type ℓ} {B : Type κ} (m : Option A) (f : A → Option B) → m ≡ none → (m >>= f) ≡ none
bind_of_none m f e = rw e

copy_user :
    (parms : ConfigParms) (section name : String) {p : ConfigParm}
    → lookup (env_var_key section name) parms ≡ some p
    → p.user_set ≡ true
    → copy_parm_if_not_set parms section name ≡ some p.loc
unfolding copy_parm_if_not_set
copy_user parms section name found set = ground (arith, found, set)

int_as_str :
    (parms : ConfigParms) (s : Vars) (section name : String) (val : Bytes) {x : String}
    → copy_parm_if_not_set parms section name ≡ some (int_loc x)
    → copy_parm_if_not_set_str parms s section name val ≡ none
unfolding copy_parm_if_not_set_str
int_as_str parms s section name val user = rw user

unfold_wait :
    (parms : ConfigParms) (cyc : ConfigYConnection) (s : Vars)
    → copy_parm_if_not_set_str parms s "connection" "waitInterval" cyc.wait_interval ≡ none
    → copy_wait_interval parms cyc s ≡ none
unfolding copy_wait_interval
unfold_wait parms cyc s e = rw e

copy_wait_interval_lem :
    (parms : ConfigParms) (cyc : ConfigYConnection) (s : Vars) {x : String}
    → copy_parm_if_not_set parms "connection" "waitInterval" ≡ some (int_loc x)
    → copy_wait_interval parms cyc s ≡ none
copy_wait_interval_lem parms cyc s user =
    let e : copy_parm_if_not_set_str parms s "connection" "waitInterval" cyc.wait_interval ≡ none =
      int_as_str parms s "connection" "waitInterval" cyc.wait_interval user in
    unfold_wait parms cyc s e

-- A wait interval that the user has set on the command line or in the environment makes
-- CopyYamlConfig panic, whatever the YAML file holds: the parameter's variable is an int, and its
-- value is fetched as a string.
pub wait_interval_panics :
    (parms : ConfigParms) (cyg : ConfigYGlobal) (cyc : ConfigYConnection) (cyo : ConfigYObjects)
    (cyf : ConfigYFilters) (c : Config) {p : ConfigParm} {x : String}
    → lookup (env_var_key "connection" "waitInterval") parms ≡ some p
    → p.user_set ≡ true
    → p.loc ≡ int_loc x
    → copy_yaml_config parms cyg cyc cyo cyf c ≡ none
unfolding copy_yaml_config
wait_interval_panics parms cyg cyc cyo cyf c found set is =
    bind_none (copy_rows parms (first_rows cyg cyc cyf) c.vars) _ (λ s.
      bind_of_none (copy_wait_interval parms cyc s) _ (
        copy_wait_interval_lem parms cyc s
          (copy_user parms "connection" "waitInterval" found set ∙ ap some is)))

-- A filter of an unknown object type that holds a name makes the copy panic: the index is then 0,
-- and InitConfig makes the maps from index 1 on.
unknown_type_panics :
    (side : Side) (k n : Bytes) (ns : YamlItems) (rest : YamlPairs) (c : Config)
    → find_ot k ≡ none
    → names side c 0 ≡ none
    → copy_pairs side (pair (text k) (seq (item (text n) ns)) rest) (c, false) ≡ none
unfolding copy_pairs write_name
unknown_type_panics side k n ns rest c unknown empty = rw unknown (rw (empty, write_name))
