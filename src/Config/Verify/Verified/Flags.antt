-- ===== src/Config/Verify/Verified/Flags.antt =====
-- The flags of a configuration that VerifyConfig lets through: its first block.
use mq_metric_samples.Prelude.{codes, is_empty, true, false, ◌⨾◌, ◌≡◌, arith, inl, inr}
use mq_metric_samples.Config.Record.{Config}
use mq_metric_samples.Config.Verify.Frames.{Frame, run_steps-Establishes}
use mq_metric_samples.Config.Verify.Steps.{
  passed, Externals, str_of, bool_of, status_for_publications, status_for_reset, statistics_queue,
}
use mq_metric_samples.Config.Verify.Whole.{run_steps, status_steps}

module _ (ext : Externals) where
  -- The flags: status is collected where it is needed, and statistics have their queue.
  pub record FlagsAgree (c : Config) : Type 0 where
    pub publications :
        bool_of c "cm.CC.UsePublications" ≡ false
        → is_empty (ext.getenv (codes "MQIGO_NOFORCE_USESTATUS")) ≡ true
        → bool_of c "cm.CC.UseStatus" ≡ true
    pub reset : bool_of c "cm.CC.UseResetQStats" ≡ true → bool_of c "cm.CC.UseStatus" ≡ true
    pub statistics :
        bool_of c "cm.CC.UseStatistics" ≡ true → is_empty (str_of c "cm.CC.StatisticsQ") ≡ false

  abbrev pub Publications : Config → Type 0
  Publications c =
      bool_of c "cm.CC.UsePublications" ≡ false
      → is_empty (ext.getenv (codes "MQIGO_NOFORCE_USESTATUS")) ≡ true
      → bool_of c "cm.CC.UseStatus" ≡ true

  pub status_steps-FlagsAgree :
      (c c' : Config) → run_steps (status_steps ext) c ≡ passed c' → FlagsAgree c'
  unfolding status_for_publications status_for_reset statistics_queue
  status_steps-FlagsAgree c c' h = record {
    publications =
        run_steps-Establishes Publications (status_steps ext)
          (inr (
            inl (
              (λ c c' h a b. ground arith),
              (λ c c' h p a b. ground arith) ⨾ (λ c c' h p a b. ground arith) ⨾ tt,
            )))
          c c' h;
    reset =
        run_steps-Establishes
          (λ c. bool_of c "cm.CC.UseResetQStats" ≡ true → bool_of c "cm.CC.UseStatus" ≡ true)
          (status_steps ext)
          (inr (inr (inl ((λ c c' h a. ground arith), (λ c c' h p a. ground arith) ⨾ tt)))) c c' h;
    statistics =
        run_steps-Establishes
          (λ c.
            bool_of c "cm.CC.UseStatistics" ≡ true
            → is_empty (str_of c "cm.CC.StatisticsQ") ≡ false)
          (status_steps ext) (inr (inr (inr (inl ((λ c c' h a. ground arith), tt))))) c c' h;
  }

  pub FlagsAgree-Frame : (c c' : Config) → Frame c c' → FlagsAgree c → FlagsAgree c'
  FlagsAgree-Frame c c' f a = record {
    publications = rw f.bools a.publications;
    reset = rw f.bools a.reset;
    statistics = rw (f.bools, f.statistics_q) a.statistics;
  }
