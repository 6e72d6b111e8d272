-- ===== src/Config/Verify/Verified.antt =====
-- What a configuration that VerifyConfig lets through satisfies.
mod Flags
mod Checks
mod Last
use mq_metric_samples.Prelude.{
  ℕ, Bytes, codes, is_empty, bytes_eq, bytes_eq_iff, split, length, true, false, List, [], ◌∷◌,
  some, All, All-weaken, In, here, there, ◌⨾◌, ◌≡◌, refl, ◌∙◌, ap, sym, arith, inl, inr, Bool-cases,
}
use mq_metric_samples.Config.Parms.Convert.{one_of}
use mq_metric_samples.Config.Record.{Config}
use mq_metric_samples.Config.Verify.Frames.{
  Keeps, Frame, run_steps-Establishes, run_steps-Keeps, >>=-eq-passed,
}
use mq_metric_samples.Config.Verify.Kept.{
  check_steps-kept, file_steps-Frame, check_steps-Frame, last_steps-Frame,
}
use mq_metric_samples.Config.Verify.Late.Fill.{SameButSets, fill_filters-SameButSets}
use mq_metric_samples.Config.Verify.Late.{
  check_tz_offset, check_poll_interval, check_rediscover_interval, check_moved_selector,
  check_moved_inactive, check_metadata, fill_filters, monitor_all,
}
use mq_metric_samples.Config.Verify.Steps.{
  passed, Externals, Step, str_of, bool_of, force_use_status, status_for_publications,
  status_for_reset, statistics_queue, selectors_valid, valid_selectors, check_selectors,
}
use mq_metric_samples.Config.Verify.Whole.{
  run_steps, status_steps, file_steps, check_steps, last_steps, verify_config,
}
use mq_metric_samples.Config.Verify.Verified.Flags.{
  FlagsAgree, status_steps-FlagsAgree, FlagsAgree-Frame,
}
use mq_metric_samples.Config.Verify.Verified.Checks.{
  ChecksPassed, check_steps-ChecksPassed, last_steps-ChecksPassed,
}
use mq_metric_samples.Config.Verify.Verified.Last.{LastPassed, last_steps-LastPassed}

module _ (ext : Externals) where
  pub record IsVerified (c : Config) : Type 0 where
    pub flags : FlagsAgree ext c
    pub checks : ChecksPassed ext c
    pub last : LastPassed c

  -- A configuration that passes has: status collection on where publications are off (unless the
  -- environment forbids it) or RESET QSTATS is used; a statistics queue and all queues where
  -- statistics are used; only known selectors; the three durations as their texts are parsed, no
  -- value in a place that has moved; and, where metadata tags are given as text, the parts of that
  -- text as tags, those of the values' text as values, and as many of the one as of the other.
  pub verify_config-IsVerified : (c c' : Config) → verify_config ext c ≡ passed c' → IsVerified c'
  unfolding verify_config
  verify_config-IsVerified c c' h =
      let (c₁, first, h₁) = >>=-eq-passed (run_steps (status_steps ext) c) _ h in
      let (c₂, second, h₂) = >>=-eq-passed (run_steps (file_steps ext) c₁) _ h₁ in
      let (c₃, third, fourth) = >>=-eq-passed (run_steps (check_steps ext) c₂) _ h₂ in
      record {
        flags = FlagsAgree-Frame ext c₃ c' (last_steps-Frame c₃ c' fourth) (
            FlagsAgree-Frame ext c₂ c₃ (check_steps-Frame ext c₂ c₃ third) (
              FlagsAgree-Frame ext c₁ c₂ (file_steps-Frame ext c₁ c₂ second)
                (status_steps-FlagsAgree ext c c₁ first)));
        checks =
            last_steps-ChecksPassed ext c₃ c' fourth (check_steps-ChecksPassed ext c₂ c₃ third);
        last = last_steps-LastPassed c₃ c' fourth;
      }
