-- ===== src/Otel/Main.antt =====
-- cmd/mq_otel/main.go: mainReturnWithCode behind initConfig, with the choice of the exporter. What
-- mqmetric, the OpenTelemetry library and the signals answer are arguments. Logging is left out.
pub mod Errors
use mq_metric_samples.Prelude.{
  ℕ, ◌+◌, Bytes, codes, bytes_eq, is_empty, has_prefix, to_lower, to_lower_byte, Bool, true, false,
  not, ◌&&◌, ◌||◌, List, [], ◌∷◌, Option, none, some, if◌then◌else◌,
}
use mq_metric_samples.Prelude.Int.{ℤ, pos, ltb_ℤ, eqb_ℤ}
use mq_metric_samples.Config.Record.{Config}
use mq_metric_samples.Config.Verify.Steps.{str_of, with_str}
use mq_metric_samples.Config.Yaml.Copy.{as_bool}
use mq_metric_samples.Prometheus.Reconnect.{
  InitResult, connected, mq_error, other_error, Attempt, Connection, usable, failing, standby,
  connection, discovered,
}

-- How the process ends: with a return code, or by log.Fatal. `running` is that the rounds that are
-- given do not end it.
pub data Ending : Type 0 where
  returns : ℕ → Ending
  fatal : Ending
  running : Ending

-- A round: the results of GetMetrics, of the reader and of the exporter, and whether an interrupt has
-- come by its end.
pub record Round : Type 0 where
  pub metrics_ok : Bool
  pub collected_ok : Bool
  pub exported_ok : Bool
  pub interrupted : Bool

-- totalErrorCount and unittestLoops.
pub record Counts : Type 0 where
  pub total_error_count : ℕ
  pub unittest_loops : ℕ

abbrev pub no_counts : Counts
no_counts = record { total_error_count = 0; unittest_loops = 0 }

abbrev pub failed_round : Round → Bool
failed_round r = not (r.metrics_ok && (r.collected_ok && r.exported_ok))

pub count_error : Bool → Counts → Counts
count_error true n = record n { total_error_count = n.total_error_count + 1 }
count_error false n = record n { total_error_count = 0 }

count_loop : ℤ → Counts → Counts
count_loop max_loops n =
    if eqb_ℤ max_loops (pos 0) then n else record n { unittest_loops = n.unittest_loops + 1 }

-- The last round of a test leaves the loop, with its error.
is_last : ℤ → Counts → Bool
is_last max_loops n = not (eqb_ℤ max_loops (pos 0)) && ltb_ℤ max_loops (pos n.unittest_loops)

module _ (max_errors max_loops : ℤ) where
  -- Behind the counting of the round.
  unfoldable pub gives_up : Round → Counts → Bool
  gives_up r n = ltb_ℤ max_errors (pos n.total_error_count) || r.interrupted

  unfoldable pub run_rounds : List Round → Counts → Ending
  unfolding count_error count_loop is_last gives_up
  run_rounds [] n = running
  run_rounds (r ∷ rs) n =
      let looped = count_loop max_loops n in
      let counted = count_error (failed_round r) looped in
      let rest = run_rounds rs counted in
      if is_last max_loops looped
      then (if failed_round r then fatal else returns 0)
      else if gives_up r counted
      then fatal
      else rest

-- newExporter.
pub data Exporter : Type 0 where
  to_stdout to_stderr : Exporter
  over_http over_grpc : Bytes → Bool → Exporter

unfoldable pub new_exporter : Config → Exporter
unfolding as_bool bytes_eq has_prefix to_lower_byte
new_exporter c =
    let endpoint = str_of c "ci.Endpoint" in
    let insecure = as_bool (str_of c "ci.Insecure") false in
    if is_empty endpoint
      || (bytes_eq (to_lower endpoint) (codes "stdout")
          || bytes_eq (to_lower endpoint) (codes "stderr"))
    then (if bytes_eq (to_lower endpoint) (codes "stderr") then to_stderr else to_stdout)
    else if has_prefix endpoint (codes "http://") || has_prefix endpoint (codes "https://")
    then over_http endpoint insecure
    else over_grpc endpoint insecure

-- What the process meets: the parser of durations (in nanoseconds), the connection with what is
-- discovered, the real name of the queue manager, whether an exporter can be made, the number of
-- rounds of a test, and the rounds.
pub record World : Type 0 where
  pub parse_duration : Bytes → Option ℤ
  pub attempt : Attempt
  pub resolved_q_mgr_name : Bytes
  pub exporter_made : Exporter → Bool
  pub unittest_max_loops : ℤ
  pub rounds : Config → List Round

-- At most a second is too short.
valid_interval : Option ℤ → Bool
valid_interval none = false
valid_interval (some d) = ltb_ℤ (pos 1000000000) d

unfoldable pub resolve_name : World → Config → Config
unfolding has_prefix
resolve_name w c =
    if is_empty (str_of c "cm.QMgrName") || has_prefix (str_of c "cm.QMgrName") (codes "*")
    then with_str "cm.QMgrName" w.resolved_q_mgr_name c
    else c

-- The name is looked up only behind a connection without a warning.
unfoldable pub named : World → InitResult → Config → Config
unfolding resolve_name
named w connected c = resolve_name w c
named w (mq_error mqrc mqcc) c = c
named w other_error c = c

collect_rounds : World → Config → Ending
unfolding run_rounds new_exporter
collect_rounds w c =
    if w.exporter_made (new_exporter c)
    then run_rounds (c.vars.int_var "ci.MaxErrors") w.unittest_max_loops (w.rounds c) no_counts
    else fatal

connected_run : World → Connection → Config → Ending
unfolding collect_rounds discovered
connected_run w standby c = returns 30
connected_run w failing c = fatal
connected_run w usable c = if discovered w.attempt then collect_rounds w c else fatal

-- Behind an initConfig that has succeeded.
unfoldable pub main_return_with_code : World → Config → Ending
unfolding valid_interval connected_run connection named
main_return_with_code w c =
    if valid_interval (w.parse_duration (str_of c "ci.Interval"))
    then connected_run w (connection w.attempt.init) (named w w.attempt.init c)
    else returns 1
