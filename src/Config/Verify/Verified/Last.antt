-- ===== src/Config/Verify/Verified/Last.antt =====
-- What the last block of VerifyConfig checks and sets.
use mq_metric_samples.Prelude.{
  codes, is_empty, split, length, true, false, ◌⨾◌, ◌≡◌, arith, inl, inr,
}
use mq_metric_samples.Config.Record.{Config}
use mq_metric_samples.Config.Verify.Frames.{run_steps-Establishes}
use mq_metric_samples.Config.Verify.Late.Fill.{fill_filters-SameButSets}
use mq_metric_samples.Config.Verify.Late.{check_metadata, monitor_all}
use mq_metric_samples.Config.Verify.Steps.{passed, str_of, bool_of}
use mq_metric_samples.Config.Verify.Whole.{run_steps, last_steps}

-- Tags and values come in pairs, and with statistics all queues are monitored.
pub record LastPassed (c : Config) : Type 0 where
  pub metadata :
      is_empty (str_of c "cm.metadataTags") ≡ false
      → (c.metadata_tags_array ≡ split b',' (str_of c "cm.metadataTags"))
        × (c.metadata_values_array ≡ split b',' (str_of c "cm.metadataValues"))
        × (length c.metadata_tags_array ≡ length c.metadata_values_array)
  pub all_queues :
      bool_of c "cm.CC.UseStatistics" ≡ true → str_of c "cm.MonitoredQueues" ≡ codes "*"

abbrev pub Metadata : Config → Type 0
Metadata c =
    is_empty (str_of c "cm.metadataTags") ≡ false
    → (c.metadata_tags_array ≡ split b',' (str_of c "cm.metadataTags"))
      × (c.metadata_values_array ≡ split b',' (str_of c "cm.metadataValues"))
      × (length c.metadata_tags_array ≡ length c.metadata_values_array)

pub last_steps-LastPassed : (c c' : Config) → run_steps last_steps c ≡ passed c' → LastPassed c'
unfolding check_metadata monitor_all
last_steps-LastPassed c c' h = record {
  metadata =
      run_steps-Establishes Metadata last_steps
        (inl (
          (λ c c' h ne. ground arith),
          (λ c c' h p. let s = fill_filters-SameButSets c c' h in rw (s.vars, s.tags, s.values) p)
              ⨾ (λ c c' h p ne. ground (arith, p))
              ⨾ tt,
        ))
        c c' h;
  all_queues =
      run_steps-Establishes
        (λ c. bool_of c "cm.CC.UseStatistics" ≡ true → str_of c "cm.MonitoredQueues" ≡ codes "*")
        last_steps (inr (inr (inl ((λ c c' h a. ground arith), tt)))) c c' h;
}
