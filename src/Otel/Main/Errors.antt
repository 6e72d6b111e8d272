-- ===== src/Otel/Main/Errors.antt =====
-- cmd/mq_otel/main.go: after how many errors the loop ends.
use mq_metric_samples.Prelude.{
  ℕ, zero, suc, ◌+◌, ltb, true, false, List, [], ◌∷◌, ◌++◌, map, All, here, there, inl, inr, ◌⊎◌,
  ◌↔◌, ◌≡◌, sym, ◌∙◌, arith, Bool-cases, if◌then◌else◌,
}
use mq_metric_samples.Prelude.Int.{pos}
use mq_metric_samples.Config.Parms.Parse.{Parsed}
use mq_metric_samples.Config.Parms.Vars.{load}
use mq_metric_samples.Config.Record.{Config}
use mq_metric_samples.Config.Start.{MqExporterConfigYaml, Surroundings, ready}
use mq_metric_samples.Config.Start.Own.{NotGiven, FileRead}
use mq_metric_samples.Config.Yaml.Rows.{int_row}
use mq_metric_samples.Otel.Main.{
  Ending, fatal, Round, no_counts, failed_round, count_error, gives_up, run_rounds,
}
use mq_metric_samples.Otel.Settings.File.{otel_init_config-file}
use mq_metric_samples.Otel.Settings.{ConfigYoTel, otel_parms, otel_init_config}
use mq_metric_samples.Status.{
  StartsFailing, StartsFailing-le, FailsInARow, now, later, now_or_later, never_in_none,
}

-- No interrupt comes.
abbrev pub Calm : Round → Type 0
Calm r = r.interrupted ≡ false

module _ (m : ℕ) (loops : ℕ) where
  abbrev run : List Round → ℕ → Ending
  run rs n =
      run_rounds (pos m) (pos 0) rs (record { total_error_count = n; unittest_loops = loops })

  step_failed :
      (r : Round) (rs : List Round) (n : ℕ)
      → Calm r
      → failed_round r ≡ true
      → run (r ∷ rs) n ≡ (if ltb m (n + 1) then fatal else run rs (n + 1))
  unfolding run_rounds count_error gives_up
  step_failed r rs n calm failed = simp (failed, calm) (ground arith)

  -- Whether an interrupt comes or not.
  at_once :
      (r : Round) (rs : List Round)
      → failed_round r ≡ true
      → run_rounds (pos 0) (pos 0) (r ∷ rs) no_counts ≡ fatal
  unfolding run_rounds count_error gives_up
  at_once r rs failed = simp failed

  step_ok :
      (r : Round) (rs : List Round) (n : ℕ)
      → Calm r
      → failed_round r ≡ false
      → run (r ∷ rs) n ≡ run rs 0
  unfolding run_rounds count_error gives_up
  step_ok r rs n calm ok = simp (ok, calm) (ground arith)

  after_ok :
      (oks rest : List Round)
      → All (λ o. Calm o × (failed_round o ≡ false)) oks
      → run (oks ++ rest) 0 ≡ run rest 0
  after_ok [] rest h = λ i. run rest 0
  after_ok (o ∷ oks) rest h = step_ok o (oks ++ rest) 0 h.0.0 h.0.1 ∙ after_ok oks rest h.1

  allowed :
      (r : Round) (rs : List Round) (n left : ℕ)
      → n + suc left ≡ m
      → Calm r
      → failed_round r ≡ true
      → run (r ∷ rs) n ≡ run rs (n + 1)
  allowed r rs n left e calm bad = step_failed r rs n calm bad ∙ ground arith

  one_too_many :
      (r : Round) (rs : List Round) (n : ℕ)
      → n + 0 ≡ m
      → Calm r
      → failed_round r ≡ true
      → run (r ∷ rs) n ≡ fatal
  one_too_many r rs n e calm bad = step_failed r rs n calm bad ∙ ground arith

  -- With `left` more errors allowed.
  fatal→fails :
      (rs : List Round) (n left : ℕ)
      → n + left ≡ m
      → All Calm rs
      → run rs n ≡ fatal
      → StartsFailing (suc left) (map failed_round rs) ⊎ FailsInARow (suc m) (map failed_round rs)
  unfolding run_rounds
  fatal→fails [] n left e calm h = cc h
  fatal→fails (r ∷ rs) n zero e calm h = elim (Bool-cases (failed_round r)) [
    | inl bad ↦ inl (rw bad tt)
    | inr ok ↦ elim (fatal→fails rs 0 m (omega arith) calm.1 (sym (step_ok r rs n calm.0 ok) ∙ h)) [
      | inl s ↦ inr (later (now s))
      | inr f ↦ inr (later f)
    ]
  ]
  fatal→fails (r ∷ rs) n (suc left) e calm h = elim (Bool-cases (failed_round r)) [
    | inl bad ↦
        elim (fatal→fails rs (n + 1) left (omega arith) calm.1
          (sym (allowed r rs n left e calm.0 bad) ∙ h)) [
            | inl s ↦ inl (rw bad s)
            | inr f ↦ inr (later f)
          ]
    | inr ok ↦ elim (fatal→fails rs 0 m (omega arith) calm.1 (sym (step_ok r rs n calm.0 ok) ∙ h)) [
      | inl s ↦ inr (later (now s))
      | inr f ↦ inr (later f)
    ]
  ]

  starts→fatal :
      (rs : List Round) (n left : ℕ)
      → n + left ≡ m
      → All Calm rs
      → StartsFailing (suc left) (map failed_round rs)
      → run rs n ≡ fatal
  starts→fatal [] n left e calm s = absurd s
  starts→fatal (r ∷ rs) n zero e calm s = elim (Bool-cases (failed_round r)) [
    | inl bad ↦ one_too_many r rs n e calm.0 bad
    | inr ok ↦ absurd (rw ok at s)
  ]
  starts→fatal (r ∷ rs) n (suc left) e calm s = elim (Bool-cases (failed_round r)) [
    | inl bad ↦
        allowed r rs n left e calm.0 bad
        ∙ starts→fatal rs (n + 1) left (omega arith) calm.1 (rw bad at s)
    | inr ok ↦ absurd (rw ok at s)
  ]

  fails_later :
      (r : Round) (rs : List Round) (n left : ℕ)
      → n + left ≡ m
      → Calm r
      → failed_round r ≡ true
      → ((n' left' : ℕ) → n' + left' ≡ m → run rs n' ≡ fatal)
      → run (r ∷ rs) n ≡ fatal
  fails_later r rs n zero e calm bad ih = one_too_many r rs n e calm bad
  fails_later r rs n (suc left) e calm bad ih =
      allowed r rs n left e calm bad ∙ ih (n + 1) left (omega arith)

  fails→fatal :
      (rs : List Round) (n left : ℕ)
      → n + left ≡ m
      → All Calm rs
      → FailsInARow (suc m) (map failed_round rs)
      → run rs n ≡ fatal
  fails→fatal [] n left e calm f = absurd (never_in_none f)
  fails→fatal (r ∷ rs) n left e calm f = elim (now_or_later f) [
    | inl s ↦
        starts→fatal (r ∷ rs) n left e calm
          (StartsFailing-le (suc left) (suc m) (map failed_round (r ∷ rs)) (omega arith) s)
    | inr f' ↦ elim (Bool-cases (failed_round r)) [
      | inl bad ↦
          fails_later r rs n left e calm.0 bad (λ n' left' e'. fails→fatal rs n' left' e' calm.1 f')
      | inr ok ↦ step_ok r rs n calm.0 ok ∙ fails→fatal rs 0 m (omega arith) calm.1 f'
    ]
  ]

-- With no interrupt and no limit on the rounds, the loop ends the process exactly when more than
-- maxErrors rounds in a row fail.
pub run_rounds_fatal_iff :
    (m : ℕ) (rs : List Round)
    → All Calm rs
    → (run_rounds (pos m) (pos 0) rs no_counts ≡ fatal) ↔ FailsInARow (suc m) (map failed_round rs)
run_rounds_fatal_iff m rs calm = (
  (λ h. elim (fatal→fails m 0 rs 0 m (omega arith) calm h) [ inl s ↦ now s | inr f ↦ f ]),
  fails→fatal m 0 rs 0 m (omega arith) calm,
)

-- A YAML file that does not mention maxErrors, read where the user has given it neither by flag nor by
-- environment variable, makes the first round that fails end the process, whatever the
-- default, after any rounds that have succeeded, if there is no interrupt in these and no limit on
-- the rounds.
pub first_error_fatal :
    (w : Surroundings ConfigYoTel) (c c' : Config) {p : Parsed}
    {f : MqExporterConfigYaml ConfigYoTel} (oks : List Round) (r : Round) (rs : List Round)
    → FileRead w otel_parms c p f
    → f.own.max_errors ≡ pos 0
    → NotGiven w.process otel_parms "otel" "maxErrors" "ibmmq.maxErrors"
    → otel_init_config w c ≡ ready c'
    → All (λ o. Calm o × (failed_round o ≡ false)) oks
    → failed_round r ≡ true
    → run_rounds (c'.vars.int_var "ci.MaxErrors") (pos 0) (oks ++ r ∷ rs) no_counts ≡ fatal
unfolding load
first_error_fatal w c c' {f = f} oks r rs file absent not_given started ok bad =
    let row = int_row "ci.MaxErrors" "otel" "maxErrors" f.own.max_errors in
    let e =
      otel_init_config-file w c c' row "ibmmq.maxErrors" file (there (there here)) not_given
        started in
    let is : c'.vars.int_var "ci.MaxErrors" ≡ pos 0 = cc (e, absent) in
    rw is (after_ok 0 0 oks (r ∷ rs) ok ∙ at_once 0 0 r rs bad)
