-- ===== src/Config/Init.antt =====
-- pkg/config/config.go: InitConfig, the table of the parameters that all collectors share. The
-- setting of flag.Usage prints and is left out. `filters[idx]` is named by the key of idx in
-- `otString`; the loop over that map adds under keys of their own, so its order does not show.
use Prim.Native.String.{◌++◌ as str_append}
use mq_metric_samples.Prelude.{ℕ, codes, String, Bool, true, false, List, [], ◌∷◌, ◌++◌ as append}
use mq_metric_samples.Prelude.Int.{pos}
use mq_metric_samples.Config.Parms.Entry.{ConfigParms, add_parm}
use mq_metric_samples.Config.Parms.Vars.{
  str_loc, int_loc, bool_loc, str, int, bool, cp_str, cp_int, cp_bool,
}

-- `otString`, with the numbers of mqmetric's object types.
abbrev pub ot_string : List (String × ℕ)
ot_string =
    ("qmgr", 5)
    ∷ ("queues", 1)
    ∷ ("channels", 6)
    ∷ ("topics", 8)
    ∷ ("subscriptions", 15)
    ∷ ("amqpChannels", 20)
    ∷ ("mqttChannels", 21)
    ∷ ("bufferpools", 17)
    ∷ ("pagesets", 18)
    ∷ []

-- mqmetric.OT_LAST_USED
abbrev pub ot_last_used : ℕ
ot_last_used = 21

-- One call of AddParm.
abbrev pub AddParm : Type 0
AddParm = ConfigParms → ConfigParms

abbrev pub str_parm : String → String → String → String → String → String → AddParm
str_parm var value = add_parm (str_loc var) (str (codes value)) cp_str

abbrev pub int_parm : String → ℕ → String → String → String → String → AddParm
int_parm var value = add_parm (int_loc var) (int (pos value)) cp_int

abbrev pub bool_parm : String → Bool → String → String → String → String → AddParm
bool_parm var value = add_parm (bool_loc var) (bool value) cp_bool

abbrev connection_parms : List AddParm
connection_parms =
    str_parm "cm.LogLevel" "error" "log.level" "global" "logLevel" "Log level - debug, info, error"
    ∷ str_parm "cm.QMgrName" "" "ibmmq.queueManager" "connection" "queueManager"
        "Queue Manager name"
    ∷ str_parm "cm.CC.CcdtUrl" "" "ibmmq.ccdtUrl" "connection" "ccdtUrl" "Path to CCDT"
    ∷ str_parm "cm.CC.ConnName" "" "ibmmq.connName" "connection" "connName" "Connection Name"
    ∷ str_parm "cm.CC.Channel" "" "ibmmq.channel" "connection" "channel" "Channel Name"
    ∷ str_parm "cm.ReplyQ" "SYSTEM.DEFAULT.MODEL.QUEUE" "ibmmq.replyQueue" "connection" "replyQueue"
        "Reply Queue to collect data"
    ∷ str_parm "cm.ReplyQ2" "" "ibmmq.replyQueue2" "connection" "replyQueue2"
        "Reply Queue to collect other data "
    ∷ str_parm "cm.CC.DurableSubPrefix" "" "ibmmq.durableSubPrefix" "connection" "durableSubPrefix"
        "Collector identifier when using Durable Subscriptions"
    ∷ []

abbrev object_parms : List AddParm
object_parms =
    str_parm "cm.CC.StatisticsQ" "SYSTEM.ADMIN.STATISTICS.QUEUE" "ibmmq.statisticsQueue"
      "connection" "statisticsQueue" "Queue holding statistics data"
    ∷ int_parm "cm.CC.WaitInterval" 3 "ibmmq.waitInterval" "connection" "waitInterval"
        "Maximum wait time for queue manager responses"
    ∷ str_parm "cm.MetaPrefix" "" "metaPrefix" "global" "metaPrefix"
        "Override path to monitoring resource topic"
    ∷ str_parm "cm.MonitoredQueues" "" "ibmmq.monitoredQueues" "objects" "queues"
        "Patterns of queues to monitor"
    ∷ str_parm "cm.MonitoredChannels" "" "ibmmq.monitoredChannels" "objects" "channels"
        "Patterns of channels to monitor"
    ∷ str_parm "cm.MonitoredAMQPChannels" "" "ibmmq.monitoredAMQPChannels" "objects" "amqpChannels"
        "Patterns of AMQP channels to monitor"
    ∷ str_parm "cm.MonitoredMQTTChannels" "" "ibmmq.monitoredMQTTChannels" "objects" "mqttChannels"
        "Patterns of MQTT channels to monitor"
    ∷ str_parm "cm.MonitoredQueuesFile" "" "ibmmq.monitoredQueuesFile" "objects" "queuesFile"
        "File with patterns of queues to monitor"
    ∷ str_parm "cm.MonitoredChannelsFile" "" "ibmmq.monitoredChannelsFile" "objects" "channelsFile"
        "File with patterns of channels to monitor"
    ∷ str_parm "cm.MonitoredAMQPChannelsFile" "" "ibmmq.monitoredAMQPChannelsFile" "objects"
        "amqpChannelsFile" "File with patterns of AMQP channels to monitor"
    ∷ str_parm "cm.MonitoredMQTTChannelsFile" "" "ibmmq.monitoredMQTTChannelsFile" "objects"
        "mqttChannelsFile" "File with patterns of MQTT channels to monitor"
    ∷ str_parm "cm.MonitoredTopics" "#" "ibmmq.monitoredTopics" "objects" "topics"
        "Patterns of topics to monitor"
    ∷ str_parm "cm.MonitoredSubscriptions" "*" "ibmmq.monitoredSubscriptions" "objects"
        "subscriptions" "Patterns of subscriptions to monitor"
    ∷ []

abbrev filter_parms : List AddParm
filter_parms =
    str_parm "cm.MonitoredTopicsFile" "" "ibmmq.monitoredTopicsFile" "objects" "topicsFile"
      "File with patterns of topics to monitor"
    ∷ str_parm "cm.MonitoredSubscriptionsFile" "" "ibmmq.monitoredSubscriptionsFile" "objects"
        "subscriptionsFile" "File with patterns of subscriptions to monitor"
    ∷ str_parm "cm.QueueSubscriptionSelector" "" "ibmmq.queueSubscriptionSelector" "filters"
        "queueSubscriptionSelector" "Resource topic selection for queues"
    ∷ bool_parm "cm.CC.ShowInactiveChannels" false "ibmmq.showInactiveChannels" "filters"
        "showInactiveChannels" "Show inactive channels (not just stopped ones)"
    ∷ bool_parm "cm.CC.ShowCustomAttribute" false "ibmmq.showCustomAttribute" "filters"
        "showCustomAttribute" "Include custom attribute in metrics"
    ∷ bool_parm "cm.CC.ShowUnknownSince" false "ibmmq.showUnknownSince" "filters" "showUnknownSince"
        "Show the 'since last put/get' values as very large value if not known"
    ∷ bool_parm "cm.CC.HideSvrConnJobname" false "ibmmq.hideSvrConnJobname" "filters"
        "hideSvrConnJobname" "Don't create multiple instances of SVRCONN information"
    ∷ bool_parm "cm.CC.HideAMQPClientId" false "ibmmq.hideAMQPClientId" "filters" "hideAMQPClientId"
        "Don't create multiple instances of ClientID information"
    ∷ bool_parm "cm.CC.HideMQTTClientId" false "ibmmq.hideMQTTClientId" "filters" "hideMQTTClientId"
        "Don't create multiple instances of ClientID information"
    ∷ []

abbrev global_parms : List AddParm
global_parms =
    bool_parm "deprecatedBool" false "ibmmq.qStatus" "global" "useObjectStatus"
      "Add metrics from the QSTATUS fields"
    ∷ bool_parm "deprecatedBool" false "ibmmq.useStatus" "global" "useObjectStatus"
        "Add metrics from all object STATUS fields"
    ∷ bool_parm "cm.CC.UsePublications" true "ibmmq.usePublications" "global" "usePublications"
        "Use resource publications. Set to false to monitor older Distributed platforms"
    ∷ bool_parm "cm.CC.UseResetQStats" false "ibmmq.resetQStats" "global" "useResetQStats"
        "Use RESET QSTATS on z/OS queue managers"
    ∷ bool_parm "cm.CC.UseStatistics" false "ibmmq.useStatistics" "global" "useStatistics"
        "Use STATISTICS messages instead of publications on Distributed platforms"
    ∷ str_parm "cm.CC.UserId" "" "ibmmq.userid" "connection" "user" "UserId for MQ connection"
    ∷ str_parm "cm.CC.Password" "" "ibmmq.password" "connection" "password"
        "Password for MQ connection"
    ∷ str_parm "cm.PasswordFile" "" "ibmmq.passwordFile" "connection" "passwordFile"
        "File containing password for MQ connection"
    ∷ bool_parm "cm.CC.ClientMode" false "ibmmq.client" "connection" "clientConnection"
        "Connect as MQ client"
    ∷ str_parm "cm.TZOffsetString" "0h" "ibmmq.tzOffset" "global" "tzOffset"
        "Time difference between collector and queue manager"
    ∷ str_parm "cm.pollInterval" "0s" "pollInterval" "global" "pollInterval"
        "Frequency of issuing object status checks"
    ∷ str_parm "cm.rediscoverInterval" "1h" "rediscoverInterval" "global" "rediscoverInterval"
        "Frequency of expanding wildcards for monitored queues"
    ∷ str_parm "cm.Locale" "" "locale" "global" "locale" "Locale for translated metric descriptions"
    ∷ str_parm "cm.ConfigFile" "" "f" "global" "configurationFile" "Configuration file"
    ∷ []

abbrev other_parms : List AddParm
other_parms =
    str_parm "cfMoved.QueueSubscriptionSelector" "" "removed.queueSubscriptionSelector" "objects"
      "queueSubscriptionSelector" "Moved to FILTERS section"
    ∷ str_parm "cfMoved.ShowInactiveChannels" "" "removed.showInactiveChannels" "objects"
        "showInactiveChannels" "Moved to FILTERS section"
    ∷ str_parm "cm.metadataTags" "" "ibmmq.metadataTags" "connection" "metadataTags"
        "Additional Tags"
    ∷ str_parm "cm.metadataValues" "" "ibmmq.metadataValues" "connection" "metadataValues"
        "Additional Values (one per tag)"
    ∷ []

abbrev pub include_var : String → String
include_var ot = str_append "filters.include." ot

abbrev pub exclude_var : String → String
exclude_var ot = str_append "filters.exclude." ot

abbrev metric_parms : List (String × ℕ) → List AddParm
metric_parms [] = []
metric_parms ((ot, idx) ∷ rest) =
    str_parm (include_var ot) "" (str_append "includeMetric." ot) "filters"
      (str_append "Include_" ot) (str_append "Metric inclusion list for " ot)
    ∷ str_parm (exclude_var ot) "" (str_append "excludeMetric." ot) "filters"
        (str_append "Exclude_" ot) (str_append "Metric exclusion list for " ot)
    ∷ metric_parms rest

unfoldable pub run_adds : List AddParm → AddParm
run_adds [] parms = parms
run_adds (f ∷ fs) parms = run_adds fs (f parms)

unfoldable pub init_config : ConfigParms
unfolding run_adds add_parm
init_config =
    run_adds
      (append connection_parms (
        append object_parms (
          append filter_parms (append global_parms (append other_parms (metric_parms ot_string))))))
      []
