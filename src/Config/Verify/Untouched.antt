-- ===== src/Config/Verify/Untouched.antt =====
-- The variables that VerifyConfig does not know.
use mq_metric_samples.Prelude.{
  Bytes, String, Option, none, some, Bool, true, false, List, [], ◌∷◌, All, ◌≡◌, refl,
  if◌then◌else◌, ◌∙◌, ◌⨾◌,
}
use mq_metric_samples.Prelude.Int.{ℤ}
use mq_metric_samples.Config.Parms.Vars.{Loc, str_loc, bool_loc, load, same_loc}
use mq_metric_samples.Config.Record.{Config}
use mq_metric_samples.Config.Verify.Frames.{Keeps, run_steps-Keeps, >>=-eq-passed}
use mq_metric_samples.Config.Verify.Late.Fill.{fill_filters-SameButSets}
use mq_metric_samples.Config.Verify.Late.{
  split_metadata, parsed_offset, parsed_poll, parsed_rediscover, check_tz_offset,
  check_poll_interval, check_rediscover_interval, check_moved_selector, check_moved_inactive,
  check_metadata, monitor_all,
}
use mq_metric_samples.Config.Verify.Steps.{
  VerifyError, Checked, failed, panicked, Externals, Step, passed, with_str, with_bool,
  force_use_status, status_for_publications, status_for_reset, statistics_queue, patterns_file,
  check_queue_patterns, check_channel_patterns, check_selectors,
}
use mq_metric_samples.Config.Verify.Whole.{
  run_steps, status_steps, file_steps, check_steps, last_steps, verify_config,
}
use mq_metric_samples.Config.Yaml.Precedence.{set_str-load, set_bool-load}

-- The variables that VerifyConfig writes.
abbrev pub written_strs : List String
written_strs =
    "cm.CC.StatisticsQ" ∷ "cm.MonitoredQueues" ∷ "cm.MonitoredChannels" ∷ "cm.MonitoredAMQPChannels"
    ∷ "cm.MonitoredMQTTChannels" ∷ "cm.MonitoredTopics" ∷ "cm.MonitoredSubscriptions"
    ∷ "cm.TZOffsetString" ∷ "cm.pollInterval" ∷ "cm.rediscoverInterval" ∷ []

abbrev pub Untouched : Loc → Type 0
Untouched l =
    (same_loc (bool_loc "cm.CC.UseStatus") l ≡ false)
    × All (λ x. same_loc (str_loc x) l ≡ false) written_strs

-- The variable at `l` is the same in both.
record SameAt (l : Loc) (c c' : Config) : Type 0 where
  same : load l c'.vars ≡ load l c.vars

SameAt-self : (l : Loc) (c : Config) → SameAt l c c
SameAt-self l c = record { same = refl }

SameAt-trans : (l : Loc) (a b c : Config) → SameAt l a b → SameAt l b c → SameAt l a c
SameAt-trans l a b c f g = record { same = g.same ∙ f.same }

SameAt-if :
    (l : Loc) (c : Config) (b : Bool) (d d' : Config)
    → SameAt l c d
    → SameAt l c d'
    → SameAt l c (if b then d else d')
SameAt-if l c true d d' h h' = h
SameAt-if l c false d d' h h' = h'

with_str-SameAt :
    (l : Loc) (x : String) (v : Bytes) (c : Config)
    → same_loc (str_loc x) l ≡ false
    → SameAt l c (with_str x v c)
with_str-SameAt l x v c h = record { same = set_str-load x v l c.vars ∙ rw h }

with_bool-SameAt :
    (l : Loc) (x : String) (b : Bool) (c : Config)
    → same_loc (bool_loc x) l ≡ false
    → SameAt l c (with_bool x b c)
with_bool-SameAt l x v c h = record { same = set_bool-load x v l c.vars ∙ rw h }

-- What a step lets through agrees with `c` at `l`.
data AgreesAt (l : Loc) (c : Config) : Checked → Type 0 where
  same_passed : {c' : Config} → SameAt l c c' → AgreesAt l c (passed c')
  not_passed : {c' : Config} {e : VerifyError} → AgreesAt l c (failed c' e)
  crashed : AgreesAt l c panicked

AgreesAt-if :
    (l : Loc) (c : Config) (b : Bool) (m m' : Checked)
    → AgreesAt l c m
    → AgreesAt l c m'
    → AgreesAt l c (if b then m else m')
AgreesAt-if l c true m m' h h' = h
AgreesAt-if l c false m m' h h' = h'

AgreesAt-SameAt :
    (l : Loc) (c c' : Config) (m : Checked) → AgreesAt l c m → m ≡ passed c' → SameAt l c c'
AgreesAt-SameAt l c c' (passed d) (same_passed h) e = let is : d ≡ c' = cc e in rw (← is) h
AgreesAt-SameAt l c c' (failed d e) not_passed e' = cc e'
AgreesAt-SameAt l c c' panicked crashed e = cc e

ruleset agreement = (
  same_passed, not_passed, AgreesAt-if, SameAt-if, SameAt-self, with_str-SameAt, with_bool-SameAt,
)

module _ (ext : Externals) (l : Loc) where
  status_steps-SameAt :
      same_loc (bool_loc "cm.CC.UseStatus") l ≡ false
      → same_loc (str_loc "cm.CC.StatisticsQ") l ≡ false
      → All (Keeps (SameAt l)) (status_steps ext)
  unfolding force_use_status status_for_publications status_for_reset statistics_queue
  status_steps-SameAt free free_q =
      (λ c c' h. AgreesAt-SameAt l c c' (force_use_status ext c) (search agreement) h)
      ⨾ (λ c c' h. AgreesAt-SameAt l c c' (status_for_publications ext c) (search agreement) h)
      ⨾ (λ c c' h. AgreesAt-SameAt l c c' (status_for_reset ext c) (search agreement) h)
      ⨾ (λ c c' h. AgreesAt-SameAt l c c' (statistics_queue ext c) (search agreement) h)
      ⨾ tt

  patterns_file-SameAt :
      (file var : String) (error : VerifyError)
      → same_loc (str_loc var) l ≡ false
      → Keeps (SameAt l) (patterns_file ext file var error)
  unfolding patterns_file
  patterns_file-SameAt file var error free c c' h =
      AgreesAt-SameAt l c c' (patterns_file ext file var error c) (search agreement) h

  parsed_offset-AgreesAt :
      (c c' : Config) (o : Option ℤ) → SameAt l c c' → AgreesAt l c (parsed_offset ext c' o)
  unfolding parsed_offset
  parsed_offset-AgreesAt c c' none h = not_passed
  parsed_offset-AgreesAt c c' (some d) h = same_passed (record { same = h.same })

  parsed_poll-AgreesAt :
      (c c' : Config) (o : Option ℤ) → SameAt l c c' → AgreesAt l c (parsed_poll ext c' o)
  unfolding parsed_poll
  parsed_poll-AgreesAt c c' none h = not_passed
  parsed_poll-AgreesAt c c' (some d) h = same_passed (record { same = h.same })

  parsed_rediscover-AgreesAt :
      (c c' : Config) (o : Option ℤ) → SameAt l c c' → AgreesAt l c (parsed_rediscover ext c' o)
  unfolding parsed_rediscover
  parsed_rediscover-AgreesAt c c' none h = not_passed
  parsed_rediscover-AgreesAt c c' (some d) h = same_passed (record { same = h.same })

  check_steps-SameAt :
      same_loc (str_loc "cm.TZOffsetString") l ≡ false
      → same_loc (str_loc "cm.pollInterval") l ≡ false
      → same_loc (str_loc "cm.rediscoverInterval") l ≡ false
      → All (Keeps (SameAt l)) (check_steps ext)
  unfolding check_queue_patterns check_channel_patterns check_selectors check_tz_offset
      check_poll_interval check_rediscover_interval check_moved_selector check_moved_inactive
  check_steps-SameAt free₁ free₂ free₃ =
      (λ c c' h. AgreesAt-SameAt l c c' (check_queue_patterns ext c) (search agreement) h)
      ⨾ (λ c c' h. AgreesAt-SameAt l c c' (check_channel_patterns ext c) (search agreement) h)
      ⨾ (λ c c' h. AgreesAt-SameAt l c c' (check_selectors c) (search agreement) h)
      ⨾ (λ c c' h.
          AgreesAt-SameAt l c c' (check_tz_offset ext c)
            (parsed_offset-AgreesAt c _ _ (search agreement)) h)
      ⨾ (λ c c' h.
          AgreesAt-SameAt l c c' (check_poll_interval ext c)
            (parsed_poll-AgreesAt c _ _ (search agreement)) h)
      ⨾ (λ c c' h.
          AgreesAt-SameAt l c c' (check_rediscover_interval ext c)
            (parsed_rediscover-AgreesAt c _ _ (search agreement)) h)
      ⨾ (λ c c' h. AgreesAt-SameAt l c c' (check_moved_selector c) (search agreement) h)
      ⨾ (λ c c' h. AgreesAt-SameAt l c c' (check_moved_inactive c) (search agreement) h)
      ⨾ tt

  split_metadata-SameAt : (c : Config) → SameAt l c (split_metadata c)
  split_metadata-SameAt c = record { same = refl }

  last_steps-SameAt :
      same_loc (str_loc "cm.MonitoredQueues") l ≡ false → All (Keeps (SameAt l)) last_steps
  unfolding check_metadata monitor_all
  last_steps-SameAt free =
      (λ c c' h.
        AgreesAt-SameAt l c c' (check_metadata c) (search (agreement, split_metadata-SameAt)) h)
      ⨾ (λ c c' h. record { same = rw (fill_filters-SameButSets c c' h).vars })
      ⨾ (λ c c' h. AgreesAt-SameAt l c c' (monitor_all c) (search agreement) h)
      ⨾ tt

  run-SameAt : (fs : List Step) → All (Keeps (SameAt l)) fs → Keeps (SameAt l) (run_steps fs)
  run-SameAt = run_steps-Keeps (SameAt l) (SameAt-self l) (SameAt-trans l)

  -- VerifyConfig keeps every variable but those that it writes.
  pub verify_config-kept :
      (c c' : Config)
      → Untouched l
      → verify_config ext c ≡ passed c'
      → load l c'.vars ≡ load l c.vars
  unfolding verify_config
  verify_config-kept c c'
        (free, (free_q, (q, (ch, (amqp, (mqtt, (t, (s, (tz, (poll, (rediscover, _))))))))))) h =
      let (c₁, first, h₁) = >>=-eq-passed (run_steps (status_steps ext) c) _ h in
      let (c₂, second, h₂) = >>=-eq-passed (run_steps (file_steps ext) c₁) _ h₁ in
      let (c₃, third, fourth) = >>=-eq-passed (run_steps (check_steps ext) c₂) _ h₂ in
      let files : All (Keeps (SameAt l)) (file_steps ext) =
        patterns_file-SameAt _ _ _ q
        ⨾ patterns_file-SameAt _ _ _ ch
        ⨾ patterns_file-SameAt _ _ _ amqp
        ⨾ patterns_file-SameAt _ _ _ mqtt
        ⨾ patterns_file-SameAt _ _ _ t
        ⨾ patterns_file-SameAt _ _ _ s
        ⨾ tt in
      let kept₁ = run-SameAt (status_steps ext) (status_steps-SameAt free free_q) c c₁ first in
      let kept₂ = run-SameAt (file_steps ext) files c₁ c₂ second in
      let kept₃ =
        run-SameAt (check_steps ext) (check_steps-SameAt tz poll rediscover) c₂ c₃ third in
      let kept₄ = run-SameAt last_steps (last_steps-SameAt q) c₃ c' fourth in
      kept₄.same ∙ kept₃.same ∙ kept₂.same ∙ kept₁.same
