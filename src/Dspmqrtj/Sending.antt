-- ===== src/Dspmqrtj/Sending.antt =====
-- dspmqrtj/tracert.go: putTestMessage, putMessage and doTrace. What the queue manager answers and the
-- clock shows are arguments; a message is its list of parameters and its body, which the MQ package
-- turns into bytes.
pub mod Local
use mq_metric_samples.Prelude.{
  ℕ, zero, suc, ◌+◌, ◌*◌, ◌%◌, Bytes, codes, is_empty, bytes_eq, lookup, insert, length, get_elem?,
  set, Bool, true, false, not, ◌&&◌, ◌||◌, List, [], ◌∷◌, ◌++◌, Option, none, some, ◌>>=◌,
  if◌then◌else◌, ◌==◌,
}
use mq_metric_samples.Prelude.Int.{ℤ, pos, negsuc, eqb_ℤ, ltb_ℤ, pos_part}
use mq_metric_samples.Dspmqrtj.Format.{
  obj_type_string, prettify, time_stamp, iacf_route_accumulation, iacf_route_delivery,
  iacf_route_forwarding, iacf_route_detail,
}
use mq_metric_samples.Dspmqrtj.Activities.{
  Operation, Activity, Trace, empty_activity, empty_operation, add_activity, init_activity,
}
use mq_metric_samples.Dspmqrtj.Parse.{Pcf, oper_discard, mqi_to_string_p, parse_parms_of}

pub record Target : Type 0 where
  pub obj_type : ℤ
  pub obj_name : Bytes
  pub q_mgr_name : Bytes
  pub max_activities : ℤ
  pub msg_length : ℤ

-- Where a message that was put went to.
pub record Resolved : Type 0 where
  pub resolved_q_name : Bytes
  pub resolved_q_mgr_name : Bytes

-- The elements of the group that asks for the trace.
unfoldable pub trace_group : ℤ → List (ℕ × ℤ)
trace_group max_activities =
    (iacf_route_detail, pos 8)
    ∷ (1235, pos 0)
    ∷ (1257, pos 0)
    ∷ (1237, pos 0)
    ∷ (1236, if eqb_ℤ max_activities (pos 0) then pos 1000 else max_activities)
    ∷ (iacf_route_accumulation, pos 65539)
    ∷ (iacf_route_forwarding, pos 256)
    ∷ (iacf_route_delivery, pos 8192)
    ∷ []

body_from : ℕ → ℕ → Bytes
body_from zero i = []
body_from (suc n) i = i % 256 ∷ body_from n (suc i)

-- The additional body, its length in kilobytes.
unfoldable pub message_body : ℤ → Bytes
unfolding body_from
message_body msg_length = body_from (pos_part msg_length * 1024) 0

pub record Message : Type 0 where
  pub elements : List (ℕ × ℤ)
  pub body : Bytes

unfoldable pub trace_message : Target → Message
unfolding trace_group message_body
trace_message target = record {
  elements = trace_group target.max_activities;
  body = message_body target.msg_length;
}

abbrev pub oper_put : ℤ
oper_put = pos 4

unfoldable pub put_name : Bytes → Bytes → List (Bytes × Bytes) → List (Bytes × Bytes)
put_name key name details = if is_empty name then details else insert key name details

-- `details[key] == text`, where the key may be missing.
unfoldable pub is_text : Option Bytes → Bytes → Bool
unfolding bytes_eq
is_text none s = false
is_text (some d) s = bytes_eq d s

-- A reply that was got: its parameters, none where its format is not read; or why none was got.
pub data Reply : Type 0 where
  message : List Pcf → Reply
  no_message : Reply
  get_error : Reply

-- How the wait for replies stands: it has ended, with an error or not, more replies are awaited, or
-- the program has panicked.
pub data Received : Type 0 where
  ended : Trace → Bool → Received
  waiting : Trace → Received
  crashed : Received

module _ (mqi_to_string : Bytes → ℤ → Bytes) (parse_time : Bytes → Option ℤ)
    (mqat_default : ℤ) where
  -- The first operation: the put that is backed out.
  unfoldable pub first_operation : Target → Resolved → Operation
  unfolding put_name
  first_operation target r = record empty_operation {
    operation_string = mqi_to_string_p mqi_to_string parse_time (codes "OPER") oper_put;
    operation_val = oper_put;
    details = put_name (codes "resolvedQueue") r.resolved_q_name (
        insert (codes "localQueueManager") target.q_mgr_name (
          insert (if eqb_ℤ target.obj_type (pos 1) then codes "objectName" else codes "topicString")
            target.obj_name (insert (codes "objectType") (obj_type_string target.obj_type) [])));
  }

  -- The report of the put, as activity 0.
  unfoldable pub put_test_message : Target → Resolved → Trace → Trace
  unfolding first_operation
  put_test_message target r t = add_activity (some (length t.heap)) (pos 0) (record t {
    heap =
        t.heap
        ++ record {
          appl_name = codes "dspmqrtj";
          appl_type = mqi_to_string_p mqi_to_string parse_time (codes "AT") mqat_default;
          description = codes "Display Route Application (GO/JSON Version)";
          operations = first_operation target r ∷ [];
          trace_route = [];
        }
          ∷ [];
  })

  -- What putMessage writes to the first operation. The Boolean is that the queue is local, which is
  -- an error.
  unfoldable pub sent_operation : Resolved → Bytes × Bytes × ℤ → Operation → Operation × Bool
  unfolding put_name lookup is_text
  sent_operation r stamp op =
      let op' = record op { date = stamp.0; time = stamp.1; time_stamp_epoch = stamp.2 } in
      if is_text (lookup (codes "localQueueManager") op.details) r.resolved_q_mgr_name
      then (
        record op' {
          operation_string = mqi_to_string_p mqi_to_string parse_time (codes "OPER") oper_discard;
          operation_val = oper_discard;
        },
        true,
      )
      else (
        record op' {
          details =
              put_name (codes "remoteQueueManager") r.resolved_q_mgr_name
                (put_name (codes "remoteQueue") r.resolved_q_name op.details);
        },
        false,
      )

  -- The conditions under which no more replies are awaited.
  unfoldable pub has_all : ℤ → Trace → Bool
  has_all max_activities t =
      not (ltb_ℤ (pos (length t.activity_map)) max_activities)
      || t.seen_discard && not (ltb_ℤ (pos (length t.activity_map)) t.highest_activity)

  unfoldable pub next_reply : ℤ → Option Trace → (Trace → Received) → Received
  next_reply max_activities none f = crashed
  next_reply max_activities (some t) f = if has_all max_activities t then ended t false else f t

  -- The loop of doTrace over the replies that come.
  unfoldable pub receive : ℤ → List Reply → Trace → Received
  unfolding next_reply has_all parse_parms_of
  receive max_activities [] t = waiting t
  receive max_activities (no_message ∷ rs) t = ended t false
  receive max_activities (get_error ∷ rs) t = ended t true
  receive max_activities (message ps ∷ rs) t =
      next_reply max_activities (parse_parms_of mqi_to_string parse_time ps t)
        (λ t'. receive max_activities rs t')
