-- ===== src/Config/Verify/Verified/Checks.antt =====
-- What the third block of VerifyConfig checks, and that the last block leaves it alone.
use mq_metric_samples.Prelude.{
  Bytes, is_empty, bytes_eq, bytes_eq_iff, split, true, false, List, [], ◌∷◌, some, All, All-weaken,
  In, here, there, ◌⨾◌, ◌≡◌, ◌∙◌, ap, arith, inl, inr, Bool-cases,
}
use mq_metric_samples.Config.Parms.Convert.{one_of}
use mq_metric_samples.Config.Record.{Config}
use mq_metric_samples.Config.Verify.Frames.{Keeps, Frame, run_steps-Establishes, run_steps-Keeps}
use mq_metric_samples.Config.Verify.Kept.{check_steps-kept, last_steps-Frame}
use mq_metric_samples.Config.Verify.Late.Fill.{fill_filters-SameButSets}
use mq_metric_samples.Config.Verify.Late.{
  check_tz_offset, check_poll_interval, check_rediscover_interval, check_moved_selector,
  check_moved_inactive, check_metadata, monitor_all,
}
use mq_metric_samples.Config.Verify.Steps.{
  passed, Externals, str_of, selectors_valid, valid_selectors, check_selectors,
}
use mq_metric_samples.Config.Verify.Whole.{run_steps, check_steps, last_steps}

one_of-In : (s : Bytes) (ws : List Bytes) → one_of s ws ≡ true → In s ws
unfolding one_of
one_of-In s [] h = cc h
one_of-In s (w ∷ ws) h = elim (Bool-cases (bytes_eq s w)) [
  | inl same ↦ rw ((bytes_eq_iff s w).0 same) here
  | inr other ↦ there (one_of-In s ws (rw other at h))
]

selectors_valid-All :
    (ss : List Bytes) → selectors_valid ss ≡ true → All (λ s. In s valid_selectors) ss
unfolding selectors_valid
selectors_valid-All [] h = tt
selectors_valid-All (s ∷ ss) h = elim (Bool-cases (one_of s valid_selectors)) [
  | inl valid ↦ (one_of-In s valid_selectors valid, selectors_valid-All ss (rw valid at h))
  | inr invalid ↦ cc (rw invalid at h)
]

module _ (ext : Externals) where
  abbrev pub Selectors : Config → Type 0
  Selectors c =
      is_empty (str_of c "cm.QueueSubscriptionSelector") ≡ false
      → All (λ s. In s valid_selectors) (split b',' (str_of c "cm.QueueSubscriptionSelector"))

  check_selectors_lem :
      (c c' : Config)
      → check_selectors c ≡ passed c'
      → (c ≡ c')
        × (is_empty (str_of c "cm.QueueSubscriptionSelector") ≡ false
            → selectors_valid (split b',' (str_of c "cm.QueueSubscriptionSelector")) ≡ true)
  unfolding check_selectors
  check_selectors_lem c c' h = (ground arith, λ ne. ground arith)

  check_selectors-Selectors : (c c' : Config) → check_selectors c ≡ passed c' → Selectors c'
  check_selectors-Selectors c c' h =
      let (same, valid) = check_selectors_lem c c' h in
      rw (← same) (λ ne. selectors_valid-All _ (valid ne))

  Selectors-Frame : (c c' : Config) → Frame c c' → Selectors c → Selectors c'
  Selectors-Frame c c' f s = rw f.selectors s

  abbrev pub Moved : Config → Type 0
  Moved c =
      (is_empty (str_of c "cfMoved.QueueSubscriptionSelector") ≡ true)
      × (is_empty (str_of c "cfMoved.ShowInactiveChannels") ≡ true)

  abbrev pub Offset : Config → Type 0
  Offset c = ext.parse_duration (str_of c "cm.TZOffsetString") ≡ some c.tz_offset_secs

  abbrev pub Poll : Config → Type 0
  Poll c = ext.parse_duration (str_of c "cm.pollInterval") ≡ some c.poll_interval_duration

  abbrev pub Rediscover : Config → Type 0
  Rediscover c = ext.parse_duration (str_of c "cm.rediscoverInterval") ≡ some c.rediscover_duration

  -- What the checks of the third block establish.
  pub record ChecksPassed (c : Config) : Type 0 where
    pub selectors : Selectors c
    pub offset : Offset c
    pub poll : Poll c
    pub rediscover : Rediscover c
    pub moved : Moved c

  pub check_steps-ChecksPassed :
      (c c' : Config) → run_steps (check_steps ext) c ≡ passed c' → ChecksPassed c'
  unfolding check_tz_offset check_poll_interval check_rediscover_interval check_moved_selector
      check_moved_inactive
  check_steps-ChecksPassed c c' h = record {
    selectors =
        run_steps-Establishes Selectors (check_steps ext)
          (inr (
            inr (
              inl (
                (λ c c' h. check_selectors-Selectors c c' h),
                All-weaken {P = Keeps Frame} {Q = Keeps (λ c c'. Selectors c → Selectors c')}
                    (λ f k c c' h. Selectors-Frame c c' (k c c' h))
                    (check_tz_offset ext
                      ∷ check_poll_interval ext
                      ∷ check_rediscover_interval ext
                      ∷ check_moved_selector
                      ∷ check_moved_inactive
                      ∷ [])
                    (check_steps-kept ext).1.1.1,
              ))))
          c c' h;
    offset =
        run_steps-Establishes Offset (check_steps ext)
          (inr (
            inr (
              inr (
                inl (
                  (λ c c' h. ground arith),
                  (λ c c' h p. ground arith)
                      ⨾ (λ c c' h p. ground arith)
                      ⨾ (λ c c' h p. ground arith)
                      ⨾ (λ c c' h p. ground arith)
                      ⨾ tt,
                )))))
          c c' h;
    poll =
        run_steps-Establishes Poll (check_steps ext)
          (inr (
            inr (
              inr (
                inr (
                  inl (
                    (λ c c' h. ground arith),
                    (λ c c' h p. ground arith)
                        ⨾ (λ c c' h p. ground arith)
                        ⨾ (λ c c' h p. ground arith)
                        ⨾ tt,
                  ))))))
          c c' h;
    rediscover =
        run_steps-Establishes Rediscover (check_steps ext)
          (inr (
            inr (
              inr (
                inr (
                  inr (
                    inl (
                      (λ c c' h. ground arith),
                      (λ c c' h p. ground arith) ⨾ (λ c c' h p. ground arith) ⨾ tt,
                    )))))))
          c c' h;
    moved = (
      run_steps-Establishes (λ c. is_empty (str_of c "cfMoved.QueueSubscriptionSelector") ≡ true)
          (check_steps ext)
          (inr (
            inr (
              inr (
                inr
                  (inr (inr (inl ((λ c c' h. ground arith), (λ c c' h p. ground arith) ⨾ tt))))))))
          c c' h,
      run_steps-Establishes (λ c. is_empty (str_of c "cfMoved.ShowInactiveChannels") ≡ true)
          (check_steps ext)
          (inr (inr (inr (inr (inr (inr (inr (inl ((λ c c' h. ground arith), tt))))))))) c c' h,
    );
  }

  -- The last block leaves those facts alone.
  pub last_steps-ChecksPassed :
      (c c' : Config) → run_steps last_steps c ≡ passed c' → ChecksPassed c → ChecksPassed c'
  unfolding check_metadata monitor_all
  last_steps-ChecksPassed c c' h k = record {
    selectors = Selectors-Frame c c' (last_steps-Frame c c' h) k.selectors;
    offset =
        run_steps-Keeps (λ c c'. Offset c → Offset c') (λ c p. p) (λ a b c f g p. g (f p))
          last_steps
          ((λ c c' h p. ground arith)
            ⨾ (λ c c' h p. let s = fill_filters-SameButSets c c' h in rw (s.vars, s.offset) p)
            ⨾ (λ c c' h p. ground arith)
            ⨾ tt)
          c c' h k.offset;
    poll =
        run_steps-Keeps (λ c c'. Poll c → Poll c') (λ c p. p) (λ a b c f g p. g (f p)) last_steps
          ((λ c c' h p. ground arith)
            ⨾ (λ c c' h p. let s = fill_filters-SameButSets c c' h in rw (s.vars, s.poll) p)
            ⨾ (λ c c' h p. ground arith)
            ⨾ tt)
          c c' h k.poll;
    rediscover =
        run_steps-Keeps (λ c c'. Rediscover c → Rediscover c') (λ c p. p) (λ a b c f g p. g (f p))
          last_steps
          ((λ c c' h p. ground arith)
            ⨾ (λ c c' h p. let s = fill_filters-SameButSets c c' h in rw (s.vars, s.rediscover) p)
            ⨾ (λ c c' h p. ground arith)
            ⨾ tt)
          c c' h k.rediscover;
    moved =
        let f = last_steps-Frame c c' h in
        (ap is_empty f.moved_selectors ∙ k.moved.0, ap is_empty f.moved_inactives ∙ k.moved.1);
  }
