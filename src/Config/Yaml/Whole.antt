-- ===== src/Config/Yaml/Whole.antt =====
-- pkg/config/configyaml.go: CopyYamlConfig.
use mq_metric_samples.Prelude.{
  is_empty, Bool, false, [], ◌∷◌, ◌++◌, map, Option, some, ◌>>=◌, if◌then◌else◌,
}
use mq_metric_samples.Prelude.Int.{ℤ, pos}
use mq_metric_samples.Config.Parms.Entry.{ConfigParms}
use mq_metric_samples.Config.Parms.Vars.{Vars, set_str, set_int}
use mq_metric_samples.Config.Record.{Config}
use mq_metric_samples.Config.Yaml.Copy.{
  as_int, copy_parm_if_not_set_str, copy_parm_if_not_set_str_array,
}
use mq_metric_samples.Config.Yaml.Filters.{copy_filters}
use mq_metric_samples.Config.Yaml.Rows.{copy_rows, first_rows, last_rows}
use mq_metric_samples.Config.Yaml.Types.{
  ConfigYGlobal, ConfigYConnection, ConfigYObjects, ConfigYFilters,
}

abbrev default_wait_interval : ℤ
default_wait_interval = pos 3

-- `CopyParmIfNotSetStr` of the wait interval, read as a number.
unfoldable pub copy_wait_interval : ConfigParms → ConfigYConnection → Vars → Option Vars
unfolding as_int copy_parm_if_not_set_str
copy_wait_interval parms cyc s = do
  tmp ← copy_parm_if_not_set_str parms s "connection" "waitInterval" cyc.wait_interval
  some (set_int "cm.CC.WaitInterval" (as_int tmp default_wait_interval) s)

-- The default reply queue stays where none is given.
unfoldable pub copy_reply_q : ConfigParms → ConfigYConnection → Vars → Option Vars
unfolding copy_parm_if_not_set_str
copy_reply_q parms cyc s = do
  tmp ← copy_parm_if_not_set_str parms s "connection" "replyQueue" cyc.reply_queue
  some (if is_empty tmp then s else set_str "cm.ReplyQ" tmp s)

-- The map is preferred to the two lists.
unfoldable pub copy_metadata : ConfigParms → ConfigYConnection → Config → Option Config
unfolding copy_parm_if_not_set_str_array
copy_metadata parms cyc c = elim (cyc.metadata_map) [
  | [] ↦ do
    tags ← copy_parm_if_not_set_str_array parms c.vars "connection" "metadataTags" cyc.metadata_tags
    let s = set_str "cm.metadataTags" tags c.vars
    values ←
        copy_parm_if_not_set_str_array parms s "connection" "metadataValues" cyc.metadata_values
    some (record c { vars = set_str "cm.metadataValues" values s })
  | kv ∷ kvs ↦ some (record c {
    vars = set_str "cm.metadataValues" [] (set_str "cm.metadataTags" [] c.vars);
    metadata_tags_array = c.metadata_tags_array ++ map (λ p. p.0) (kv ∷ kvs);
    metadata_values_array = c.metadata_values_array ++ map (λ p. p.1) (kv ∷ kvs);
  })
]

-- The Boolean is that an error is returned; `none` is a panic.
unfoldable pub copy_yaml_config :
    ConfigParms
    → ConfigYGlobal
    → ConfigYConnection
    → ConfigYObjects
    → ConfigYFilters
    → Config
    → Option (Config × Bool)
unfolding copy_rows first_rows last_rows copy_wait_interval copy_reply_q copy_metadata copy_filters
copy_yaml_config parms cyg cyc cyo cyf c = do
  s₁ ← copy_rows parms (first_rows cyg cyc cyf) c.vars
  s₂ ← copy_wait_interval parms cyc s₁
  s₃ ← copy_reply_q parms cyc s₂
  s₄ ← copy_rows parms (last_rows cyc cyo) s₃
  c' ← copy_metadata parms cyc (record c { vars = s₄ })
  copy_filters cyf (c', false)
