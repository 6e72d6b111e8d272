-- ===== src/Config/Yaml/Copied.antt =====
-- pkg/config/configyaml.go, CopyYamlConfig: what the whole copy leaves in the variables of its plain
-- assignments.
use mq_metric_samples.Prelude.{false, List, none, some, ◌⊎◌, inl, inr, ◌≡◌, ◌∙◌, All}
use mq_metric_samples.Config.Parms.Entry.{ConfigParms}
use mq_metric_samples.Config.Parms.Vars.{Loc, str_loc, int_loc, Vars, load, same_loc}
use mq_metric_samples.Config.Record.{Config}
use mq_metric_samples.Config.Yaml.Precedence.{row_loc, row_value, row_user}
use mq_metric_samples.Config.Yaml.Rows.{Row}
use mq_metric_samples.Config.Yaml.Types.{
  ConfigYGlobal, ConfigYConnection, ConfigYObjects, ConfigYFilters,
}

-- Not one of the variables that are copied in another way.
abbrev Plain : Loc → Type 0
Plain l =
    (same_loc (int_loc "cm.CC.WaitInterval") l ≡ false)
    × (same_loc (str_loc "cm.ReplyQ") l ≡ false)
    × (same_loc (str_loc "cm.metadataTags") l ≡ false)
    × (same_loc (str_loc "cm.metadataValues") l ≡ false)

abbrev Elsewhere : List Row → Loc → Type 0
Elsewhere rows l = All (λ q. same_loc (row_loc q) l ≡ false) rows

module _ (parms : ConfigParms) (cyg : ConfigYGlobal) (cyc : ConfigYConnection)
    (cyo : ConfigYObjects) (cyf : ConfigYFilters) where
  -- What is left of a row's variable: its value, if the user has set the row's parameter, and
  -- otherwise that of the YAML file.
  abbrev Precedence : Row → Vars → Vars → Type 0
  Precedence r s s' =
      ((row_user parms r ≡ none) × (load (row_loc r) s' ≡ row_value r))
      ⊎ ((row_user parms r ≡ some (row_loc r)) × (load (row_loc r) s' ≡ load (row_loc r) s))

  after :
      (r : Row) (s₀ s s' t : Vars)
      → Precedence r s s'
      → load (row_loc r) s ≡ load (row_loc r) s₀
      → load (row_loc r) t ≡ load (row_loc r) s'
      → Precedence r s₀ t
  after r s₀ s s' t (inl (unset, v)) before since = inl (unset, since ∙ v)
  after r s₀ s s' t (inr (user, v)) before since = inr (user, since ∙ v ∙ before)
