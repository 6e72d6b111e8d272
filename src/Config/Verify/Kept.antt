-- ===== src/Config/Verify/Kept.antt =====
-- No step behind the status flags changes the variables of `Frame`.
use mq_metric_samples.Prelude.{All, ◌⨾◌, arith}
use mq_metric_samples.Config.Verify.Frames.{Keeps, Frame, run_steps-Frame}
use mq_metric_samples.Config.Verify.Late.Fill.{fill_filters-SameButSets}
use mq_metric_samples.Config.Verify.Late.{
  check_tz_offset, check_poll_interval, check_rediscover_interval, check_moved_selector,
  check_moved_inactive, check_metadata, fill_filters, monitor_all,
}
use mq_metric_samples.Config.Verify.Steps.{
  Externals, patterns_file, check_queue_patterns, check_channel_patterns, check_selectors,
}
use mq_metric_samples.Config.Verify.Whole.{run_steps, file_steps, check_steps, last_steps}

module _ (ext : Externals) where
  file_steps-kept : All (Keeps Frame) (file_steps ext)
  unfolding patterns_file
  file_steps-kept =
      (λ c c' h. ground arith)
      ⨾ (λ c c' h. ground arith)
      ⨾ (λ c c' h. ground arith)
      ⨾ (λ c c' h. ground arith)
      ⨾ (λ c c' h. ground arith)
      ⨾ (λ c c' h. ground arith)
      ⨾ tt

  pub check_steps-kept : All (Keeps Frame) (check_steps ext)
  unfolding check_queue_patterns check_channel_patterns check_selectors check_tz_offset
      check_poll_interval check_rediscover_interval check_moved_selector check_moved_inactive
  check_steps-kept =
      (λ c c' h. ground arith)
      ⨾ (λ c c' h. ground arith)
      ⨾ (λ c c' h. ground arith)
      ⨾ (λ c c' h. ground arith)
      ⨾ (λ c c' h. ground arith)
      ⨾ (λ c c' h. ground arith)
      ⨾ (λ c c' h. ground arith)
      ⨾ (λ c c' h. ground arith)
      ⨾ tt

  pub file_steps-Frame : Keeps Frame (run_steps (file_steps ext))
  file_steps-Frame = run_steps-Frame (file_steps ext) file_steps-kept

  pub check_steps-Frame : Keeps Frame (run_steps (check_steps ext))
  check_steps-Frame = run_steps-Frame (check_steps ext) check_steps-kept

fill_filters-Frame : Keeps Frame fill_filters
fill_filters-Frame c c' h =
    let e = (fill_filters-SameButSets c c' h).vars in
    record {
      bools = rw e;
      statistics_q = rw e;
      selectors = rw e;
      moved_selectors = rw e;
      moved_inactives = rw e;
    }

last_steps-kept : All (Keeps Frame) last_steps
unfolding check_metadata monitor_all
last_steps-kept = (λ c c' h. ground arith) ⨾ fill_filters-Frame ⨾ (λ c c' h. ground arith) ⨾ tt

pub last_steps-Frame : Keeps Frame (run_steps last_steps)
last_steps-Frame = run_steps-Frame last_steps last_steps-kept
