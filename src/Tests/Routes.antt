-- ===== src/Tests/Routes.antt =====
-- A trace with one report, and its summary.
use mq_metric_samples.Prelude.{Bytes, codes, false, [], ◌∷◌, Option, none, some, In, refl, arith}
use mq_metric_samples.Prelude.Int.{int32, ℤ, pos}
use mq_metric_samples.Dspmqrtj.Activities.{
  Trace, empty_activity, empty_operation, init_activity, map_lookup, with_act, with_op,
  new_activity, new_operation, add_activity,
}
use mq_metric_samples.Dspmqrtj.Parse.{
  Pcf, integer, string, group, nil, cons, enter, parse_string, parse_integer,
}
use mq_metric_samples.Dspmqrtj.Route.{parse_all, print_summary-all}
use mq_metric_samples.Dspmqrtj.Summary.{Output, print_summary}
use mq_metric_samples.Dspmqrtj.Sending.{Target, Resolved}

-- A channel that sends, and is the first to be recorded.
abbrev report : Pcf
report = group 8005 3 (
    cons (string 3024 (codes "amqrmppa" ∷ [])) (
      cons (group 8004 1 (cons (integer 1240 (pos 8 ∷ [])) nil)) (
        cons
          (group 8003 2 (cons (integer 1235 (pos 1 ∷ [])) (cons (integer 1257 (pos 0 ∷ [])) nil)))
          nil)))

-- The test message's activity, number 0, is there already.
abbrev before_reports : Trace
before_reports = record {
  heap = record empty_activity { operations = empty_operation ∷ [] } ∷ [];
  first_activity = some 0;
  activity_map = [];
  highest_activity = pos 0;
  seen_discard = false;
  recorded = pos 0;
  unrecorded = pos 0;
  discon = pos 0;
  operation_date = [];
  operation_time = [];
  act = none;
  op = none;
  has_error = false;
}

abbrev no_output : Output
no_output = record {
  info = record {
    success = [];
    failure = [];
    total_time = pos 0;
    last_time = [];
    last_date = [];
    last_time_stamp_epoch = pos 0;
    channel_count = 0;
    final_qmgr = [];
  };
  immediate_failure = false;
  activities = [];
}

abbrev name_of : Bytes → ℤ → Bytes
name_of set v = codes "MQOPER_SEND"

abbrev epoch_of_text : Bytes → Option ℤ
epoch_of_text d = none

abbrev trace_or : Trace → Option Trace → Trace
trace_or d none = d
trace_or d (some t) = t

abbrev output_or : Output → Option Output → Output
output_or d none = d
output_or d (some o) = o

abbrev after_report : Trace
after_report =
    trace_or before_reports
      (parse_all name_of epoch_of_text ((report ∷ []) ∷ []) (init_activity before_reports))

abbrev summary : Output
summary = output_or no_output (print_summary after_report no_output)

print_summary-all_example : In (some 1) summary.activities
unfolding parse_all print_summary map_lookup init_activity enter parse_string parse_integer int32
    with_act with_op new_activity new_operation add_activity
print_summary-all_example =
    print_summary-all name_of epoch_of_text ((report ∷ []) ∷ []) before_reports after_report
      no_output summary 1 (some 1) refl refl refl (ground arith) refl

abbrev target : Target
target = record {
  obj_type = pos 1;
  obj_name = codes "APP.Q";
  q_mgr_name = codes "QM1";
  max_activities = pos 100;
  msg_length = pos 0;
}

abbrev resolved_here : Resolved
resolved_here = record { resolved_q_name = codes "APP.Q"; resolved_q_mgr_name = codes "QM1" }
