-- ===== src/Config/Verify/Steps.antt =====
-- pkg/config/config.go: VerifyConfig up to the checks of the patterns. Every `if err == nil` block is
-- a step; an error ends the run with the configuration as it then is. mqmetric's functions, the
-- parser of durations and the environment are parameters.
use mq_metric_samples.Prelude.{
  Bytes, String, codes, is_empty, split, Bool, true, false, List, [], ◌∷◌, Option, if◌then◌else◌,
}
use mq_metric_samples.Prelude.Int.{ℤ}
use mq_metric_samples.Config.Parms.Vars.{set_str, set_bool}
use mq_metric_samples.Config.Parms.Convert.{one_of}
use mq_metric_samples.Config.Record.{Config}

pub data VerifyError : Type 0 where
  queues_file channels_file amqp_channels_file mqtt_channels_file : VerifyError
  topics_file subscriptions_file : VerifyError
  queue_patterns channel_patterns selector tz_offset poll_interval rediscover_interval : VerifyError
  moved_selector moved_inactive metadata_lengths : VerifyError

-- A write to a nil map panics.
pub data Checked : Type 0 where
  passed : Config → Checked
  failed : Config → VerifyError → Checked
  panicked : Checked

infixl 5 ◌>>=◌
abbrev pub ◌>>=◌ : Checked → (Config → Checked) → Checked
passed c >>= f = f c
failed c e >>= f = failed c e
panicked >>= f = panicked

-- What VerifyConfig calls: mqmetric.ReadPatterns with its text, also beside an error;
-- VerifyQueuePatterns and VerifyPatterns, true if there is no error; time.ParseDuration in
-- nanoseconds.
pub record Externals : Type 0 where
  pub getenv : Bytes → Bytes
  pub read_patterns : Bytes → Bytes × Bool
  pub verify_queue_patterns : Bytes → Bool
  pub verify_patterns : Bytes → Bool
  pub parse_duration : Bytes → Option ℤ

abbrev pub Step : Type 0
Step = Config → Checked

abbrev pub str_of : Config → String → Bytes
str_of c x = c.vars.str_var x

abbrev pub bool_of : Config → String → Bool
bool_of c x = c.vars.bool_var x

abbrev pub with_str : String → Bytes → Config → Config
with_str x v c = record c { vars = set_str x v c.vars }

abbrev pub with_bool : String → Bool → Config → Config
with_bool x v c = record c { vars = set_bool x v c.vars }

module _ (ext : Externals) where
  unfoldable pub force_use_status : Step
  force_use_status c =
      passed (
        with_bool "cm.CC.UseStatus" (is_empty (ext.getenv (codes "MQIGO_FORCE_USESTATUS_FALSE"))) c)

  unfoldable pub status_for_publications : Step
  status_for_publications c =
      if bool_of c "cm.CC.UsePublications"
      then passed c
      else if is_empty (ext.getenv (codes "MQIGO_NOFORCE_USESTATUS"))
      then passed (with_bool "cm.CC.UseStatus" true c)
      else passed c

  unfoldable pub status_for_reset : Step
  status_for_reset c =
      if bool_of c "cm.CC.UseResetQStats"
      then passed (if bool_of c "cm.CC.UseStatus" then c else with_bool "cm.CC.UseStatus" true c)
      else passed c

  unfoldable pub statistics_queue : Step
  statistics_queue c =
      if bool_of c "cm.CC.UseStatistics"
      then passed (
          if is_empty (str_of c "cm.CC.StatisticsQ")
          then with_str "cm.CC.StatisticsQ" (codes "SYSTEM.ADMIN.STATISTICS.QUEUE") c
          else c)
      else passed c

  -- `if file != ""`: the patterns come from the file, and an error of it is reported.
  unfoldable pub patterns_file : String → String → VerifyError → Step
  patterns_file file var error c =
      if is_empty (str_of c file)
      then passed c
      else if (ext.read_patterns (str_of c file)).1
      then passed (with_str var (ext.read_patterns (str_of c file)).0 c)
      else failed (with_str var (ext.read_patterns (str_of c file)).0 c) error

  unfoldable pub check_queue_patterns : Step
  check_queue_patterns c =
      if ext.verify_queue_patterns (str_of c "cm.MonitoredQueues")
      then passed c
      else failed c queue_patterns

  unfoldable pub check_channel_patterns : Step
  check_channel_patterns c =
      if ext.verify_patterns (str_of c "cm.MonitoredChannels")
      then passed c
      else failed c channel_patterns

abbrev pub valid_selectors : List Bytes
valid_selectors =
    codes "PUT"
    ∷ codes "GET"
    ∷ codes "GENERAL"
    ∷ codes "OPENCLOSE"
    ∷ codes "INQSET"
    ∷ codes "EXTENDED"
    ∷ codes "NONE"
    ∷ []

-- The loop over the selectors: an invalid one sets the error.
unfoldable pub selectors_valid : List Bytes → Bool
unfolding one_of
selectors_valid [] = true
selectors_valid (s ∷ ss) =
    let rest = selectors_valid ss in if one_of s valid_selectors then rest else false

unfoldable pub check_selectors : Step
unfolding selectors_valid split
check_selectors c =
    if is_empty (str_of c "cm.QueueSubscriptionSelector")
    then passed c
    else if selectors_valid (split b',' (str_of c "cm.QueueSubscriptionSelector"))
    then passed c
    else failed c selector
