-- ===== src/Tests/Copies.antt =====
-- A YAML file copied behind the parameters.
use mq_metric_samples.Prelude.{codes, Bool, Option, none, some}
use mq_metric_samples.Config.Record.{Config}
use mq_metric_samples.Config.Yaml.Rows.{Row, str_row}
use mq_metric_samples.Config.Yaml.Whole.{copy_yaml_config}
use mq_metric_samples.Tests.Files.{
  empty_global, empty_connection, empty_objects, empty_filters, raw_config,
}
use mq_metric_samples.Tests.Settings.{parsed}

abbrev config_or : Option (Config × Bool) → Config
config_or none = raw_config
config_or (some (c, err)) = c

abbrev set_config : Config
set_config = record raw_config { vars = parsed.vars }

abbrev copying : Option (Config × Bool)
copying =
    copy_yaml_config parsed.parms empty_global empty_connection empty_objects empty_filters
      set_config

-- The queue manager was set by the user.
abbrev q_mgr_row : Row
q_mgr_row = str_row "cm.QMgrName" "connection" "queueManager" (codes "QM1")
