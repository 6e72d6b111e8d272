-- ===== src/Config/Verify/Late.antt =====
-- pkg/config/config.go: VerifyConfig from the time offset on.
pub mod Fill
use mq_metric_samples.Prelude.{
  ℕ, Bytes, String, codes, is_empty, remove_byte, split, length, Bool, true, false, List, [], ◌∷◌,
  Option, none, some, ◌==◌, if◌then◌else◌,
}
use mq_metric_samples.Prelude.Int.{ℤ}
use mq_metric_samples.Config.Init.{ot_string}
use mq_metric_samples.Config.NameSets.{Side, including, excluding, filter_var, write_name}
use mq_metric_samples.Config.Record.{Config}
use mq_metric_samples.Config.Verify.Steps.{
  VerifyError, tz_offset, poll_interval, rediscover_interval, moved_selector, moved_inactive,
  metadata_lengths, Checked, passed, failed, panicked, ◌>>=◌, Externals, Step, str_of, bool_of,
  with_str,
}

-- An empty text gives way to the default.
abbrev pub default_str : String → Bytes → Config → Config
default_str x v c = if is_empty (str_of c x) then with_str x v c else c

module _ (ext : Externals) where
  unfoldable pub parsed_offset : Config → Option ℤ → Checked
  parsed_offset c none = failed c tz_offset
  parsed_offset c (some d) = passed (record c { tz_offset_secs = d })

  -- The offset is kept as the duration whose seconds the source stores.
  unfoldable pub check_tz_offset : Step
  unfolding parsed_offset
  check_tz_offset c =
      let c' = default_str "cm.TZOffsetString" (codes "0h") c in
      parsed_offset c' (ext.parse_duration (str_of c' "cm.TZOffsetString"))

  unfoldable pub parsed_poll : Config → Option ℤ → Checked
  parsed_poll c none = failed c poll_interval
  parsed_poll c (some d) = passed (record c { poll_interval_duration = d })

  unfoldable pub check_poll_interval : Step
  unfolding parsed_poll
  check_poll_interval c =
      let c' = default_str "cm.pollInterval" (codes "0s") c in
      parsed_poll c' (ext.parse_duration (str_of c' "cm.pollInterval"))

  unfoldable pub parsed_rediscover : Config → Option ℤ → Checked
  parsed_rediscover c none = failed c rediscover_interval
  parsed_rediscover c (some d) = passed (record c { rediscover_duration = d })

  unfoldable pub check_rediscover_interval : Step
  unfolding parsed_rediscover
  check_rediscover_interval c =
      let c' = default_str "cm.rediscoverInterval" (codes "1h") c in
      parsed_rediscover c' (ext.parse_duration (str_of c' "cm.rediscoverInterval"))

unfoldable pub check_moved_selector : Step
check_moved_selector c =
    if is_empty (str_of c "cfMoved.QueueSubscriptionSelector")
    then passed c
    else failed c moved_selector

unfoldable pub check_moved_inactive : Step
check_moved_inactive c =
    if is_empty (str_of c "cfMoved.ShowInactiveChannels") then passed c else failed c moved_inactive

abbrev pub split_metadata : Config → Config
split_metadata c = record c {
  metadata_tags_array = split b',' (str_of c "cm.metadataTags");
  metadata_values_array = split b',' (str_of c "cm.metadataValues");
}

unfoldable pub check_metadata : Step
unfolding split
check_metadata c =
    if is_empty (str_of c "cm.metadataTags")
    then passed c
    else if length (split b',' (str_of c "cm.metadataTags"))
        == length (split b',' (str_of c "cm.metadataValues"))
    then passed (split_metadata c)
    else failed (split_metadata c) metadata_lengths

write_or_panic : Option Config → Checked
write_or_panic none = panicked
write_or_panic (some c) = passed c

write_names : Side → ℕ → List Bytes → Step
write_names side i [] c = passed c
write_names side i (n ∷ ns) c = do
  c' ← write_or_panic (write_name side i n c)
  write_names side i ns c'

-- The loop over `otString`; the order of a Go map is not fixed, and the sets are apart.
fill_side : Side → List (String × ℕ) → Step
fill_side side [] c = passed c
fill_side side ((ot, i) ∷ rest) c =
    let s = remove_byte b' ' (str_of c (filter_var side ot)) in
    (do
      c' ← (if is_empty s then passed c else write_names side i (split b',' s) c)
      fill_side side rest c')

unfoldable pub fill_filters : Step
unfolding write_name write_or_panic write_names fill_side remove_byte split
fill_filters c = do c' ← fill_side including ot_string c; fill_side excluding ot_string c'

-- With statistics all queues are monitored.
unfoldable pub monitor_all : Step
monitor_all c =
    passed
      (if bool_of c "cm.CC.UseStatistics" then with_str "cm.MonitoredQueues" (codes "*") c else c)
