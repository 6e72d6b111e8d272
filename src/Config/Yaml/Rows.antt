-- ===== src/Config/Yaml/Rows.antt =====
-- pkg/config/configyaml.go, CopyYamlConfig, and initConfig of the collectors: the assignments of the
-- form `variable = CopyParmIfNotSet…(section, name, value)`, each a row of a table.
use mq_metric_samples.Prelude.{Bytes, String, Bool, true, false, List, [], ◌∷◌, Option, some, ◌>>=◌}
use mq_metric_samples.Prelude.Int.{ℤ}
use mq_metric_samples.Config.Parms.Entry.{ConfigParms}
use mq_metric_samples.Config.Parms.Vars.{Vars, set_str, set_int, set_bool}
use mq_metric_samples.Config.Yaml.Copy.{
  as_bool, join, copy_parm_if_not_set_bool, copy_parm_if_not_set_str, copy_parm_if_not_set_int,
}
use mq_metric_samples.Config.Yaml.Types.{
  ConfigYGlobal, ConfigYConnection, ConfigYObjects, ConfigYFilters,
}

pub data Row : Type 0 where
  bool_row : String → String → String → Bool → Row
  str_row : String → String → String → Bytes → Row
  int_row : String → String → String → ℤ → Row

-- A row for an array: its text is the joined one.
abbrev array_row : String → String → String → List Bytes → Row
array_row var section name val = str_row var section name (join val)

unfoldable pub copy_row : ConfigParms → Row → Vars → Option Vars
unfolding copy_parm_if_not_set_bool copy_parm_if_not_set_str copy_parm_if_not_set_int
copy_row parms (bool_row var section name val) s = do
  v ← copy_parm_if_not_set_bool parms s section name val
  some (set_bool var v s)
copy_row parms (str_row var section name val) s = do
  v ← copy_parm_if_not_set_str parms s section name val
  some (set_str var v s)
copy_row parms (int_row var section name val) s = do
  v ← copy_parm_if_not_set_int parms s section name val
  some (set_int var v s)

unfoldable pub copy_rows : ConfigParms → List Row → Vars → Option Vars
unfolding copy_row
copy_rows parms [] s = some s
copy_rows parms (r ∷ rs) s = do s' ← copy_row parms r s; copy_rows parms rs s'

-- The rows in front of the wait interval.
unfoldable pub first_rows : ConfigYGlobal → ConfigYConnection → ConfigYFilters → List Row
unfolding as_bool join
first_rows cyg cyc cyf =
    bool_row "cm.CC.UseResetQStats" "global" "useResetQStats" (as_bool cyg.use_reset_q_stats false)
    ∷ bool_row "cm.CC.UsePublications" "global" "usePublications"
        (as_bool cyg.use_publications true)
    ∷ bool_row "cm.CC.UseStatistics" "global" "useStatistics" (as_bool cyg.use_statistics false)
    ∷ bool_row "cm.CC.ShowInactiveChannels" "filters" "showInactiveChannels"
        (as_bool cyf.show_inactive_channels false)
    ∷ bool_row "cm.CC.ShowCustomAttribute" "filters" "showCustomAttribute"
        (as_bool cyf.show_custom_attribute false)
    ∷ bool_row "cm.CC.ShowUnknownSince" "filters" "showUnknownSince"
        (as_bool cyf.show_unknown_since false)
    ∷ bool_row "cm.CC.HideSvrConnJobname" "filters" "hideSvrConnJobname"
        (as_bool cyf.hide_svr_conn_jobname false)
    ∷ bool_row "cm.CC.HideAMQPClientId" "filters" "hideAMQPClientId"
        (as_bool cyf.hide_amqp_client_id false)
    ∷ bool_row "cm.CC.HideMQTTClientId" "filters" "hideMQTTClientId"
        (as_bool cyf.hide_mqtt_client_id false)
    ∷ array_row "cm.QueueSubscriptionSelector" "filters" "queueSubscriptionSelector"
        cyf.queue_subscription_selector
    ∷ str_row "cm.LogLevel" "global" "logLevel" cyg.log_level
    ∷ str_row "cm.MetaPrefix" "global" "metaprefix" cyg.meta_prefix
    ∷ str_row "cm.pollInterval" "global" "pollInterval" cyg.poll_interval
    ∷ str_row "cm.rediscoverInterval" "global" "rediscoverInterval" cyg.rediscover_interval
    ∷ str_row "cm.TZOffsetString" "global" "tzOffset" cyg.tz_offset
    ∷ str_row "cm.Locale" "global" "locale" cyg.locale
    ∷ str_row "cm.QMgrName" "connection" "queueManager" cyc.queue_manager
    ∷ str_row "cm.CC.CcdtUrl" "connection" "ccdtUrl" cyc.ccdt_url
    ∷ str_row "cm.CC.ConnName" "connection" "connName" cyc.conn_name
    ∷ str_row "cm.CC.Channel" "connection" "channel" cyc.channel
    ∷ bool_row "cm.CC.ClientMode" "connection" "clientConnection" (as_bool cyc.client false)
    ∷ str_row "cm.CC.UserId" "connection" "user" cyc.user
    ∷ str_row "cm.CC.Password" "connection" "password" cyc.password
    ∷ str_row "cm.PasswordFile" "connection" "passwordFile" cyc.password_file
    ∷ []

-- The rows behind the reply queue.
unfoldable pub last_rows : ConfigYConnection → ConfigYObjects → List Row
unfolding join
last_rows cyc cyo =
    str_row "cm.ReplyQ2" "connection" "replyQueue2" cyc.reply_queue2
    ∷ str_row "cm.CC.StatisticsQ" "connection" "statisticsQueue" cyc.statistics_queue
    ∷ str_row "cm.CC.DurableSubPrefix" "connection" "durableSubPrefix" cyc.durable_sub_prefix
    ∷ array_row "cm.MonitoredQueues" "objects" "queues" cyo.queues
    ∷ array_row "cm.MonitoredChannels" "objects" "channels" cyo.channels
    ∷ array_row "cm.MonitoredAMQPChannels" "objects" "amqpChannels" cyo.amqp_channels
    ∷ array_row "cm.MonitoredMQTTChannels" "objects" "mqttChannels" cyo.mqtt_channels
    ∷ array_row "cm.MonitoredTopics" "objects" "topics" cyo.topics
    ∷ array_row "cm.MonitoredSubscriptions" "objects" "subscriptions" cyo.subscriptions
    ∷ array_row "cfMoved.QueueSubscriptionSelector" "objects" "queueSubscriptionSelector"
        cyo.queue_subscription_selector
    ∷ str_row "cfMoved.ShowInactiveChannels" "objects" "showInactiveChannels"
        cyo.show_inactive_channels
    ∷ []
