-- ===== src/Tests/Events.antt =====
-- The formatting of events, and the callbacks that end the program.
use mq_metric_samples.Prelude.{
  ℕ, Bytes, map, bytes_eq, if◌then◌else◌, codes, Bool, true, false, List, [], ◌∷◌, none, some, Free,
  lookup, ◌≡◌, ◌↔◌, refl, here, there, ◌⨾◌, arith, All, Option, ◌++◌,
}
use mq_metric_samples.Prelude.Int.{pos}
use mq_metric_samples.Json.Fixup.{camel}
use mq_metric_samples.Amqsevtg.Callback.{OpenObject, Session, callbacks}
use mq_metric_samples.Amqsevtg.Callback.Quiet.{no_messages, callbacks-all_quiet}
use mq_metric_samples.Amqsevtg.Elements.{Constants, Elem, group, string}
use mq_metric_samples.Amqsevtg.Events.{Body, add_elems, records_of, is_repeated}
use mq_metric_samples.Amqsevtg.Events.Groups.{groups_of, Leaves, add_elems-records}
use mq_metric_samples.Amqsevtg.Names.{pretty_name, pretty_name-camel}
use mq_metric_samples.Amqsevtg.Open.{
  Answer, opened, refused, mqot_q, mqrc_unknown_object_name, open_all, wanted_objects,
}
use mq_metric_samples.Amqsevtg.Open.Ready.{Acceptable, open_all_succeeds_iff}
use mq_metric_samples.Amqsevtg.Output.{
  print_events, close_array, start_printer, array_text, print_events-array,
}
use mq_metric_samples.Amqsevtg.Values.{Raw, pretty_val_string, titled, special, special_dash}
use mq_metric_samples.Amqsevtg.Values.Clean.{pretty_val_string-Free}

pretty_name_example : pretty_name false (codes "MQIA_CURRENT_Q_DEPTH") ≡ codes "currentQDepth"
unfolding pretty_name
pretty_name_example = refl

pretty_name-camel_example : pretty_name false (codes "MQIA_APPL_TYPE") ≡ camel (codes "APPL_TYPE")
pretty_name-camel_example = pretty_name-camel (codes "MQIA") (codes "APPL_TYPE") (ground arith)

abbrev formatted : Raw
formatted = record { raw_string = false; raw_number = false }

pretty_val_string_example :
    pretty_val_string formatted (codes "MQEVR_API_AMQP") (pos 1) false ≡ codes "Api AMQP"
unfolding pretty_val_string
pretty_val_string_example = refl

pretty_val_string-Free_example :
    Free b'_' (pretty_val_string formatted (codes "MQRC_Q_FULL") (pos 2053) false)
    × (special_dash (special (titled (codes "MQRC_Q_FULL")))
        ≡ special (titled (codes "MQRC_Q_FULL")))
pretty_val_string-Free_example =
    pretty_val_string-Free formatted (codes "MQRC_Q_FULL") (pos 2053) false refl

abbrev queue_object : ℕ → Bool → OpenObject
queue_object h active = record {
  handle = h;
  object_type = 1;
  object_name = codes "Q";
  active = active;
}

abbrev two_open : Session
two_open = record {
  open_objects = queue_object 1 true ∷ queue_object 2 false ∷ queue_object 3 true ∷ [];
  end_program = false;
  no_more_printed = false;
}

callbacks-all_quiet_example : (callbacks (no_messages (3 ∷ 1 ∷ [])) two_open).end_program ≡ true
callbacks-all_quiet_example =
    callbacks-all_quiet 3 (1 ∷ []) two_open ((λ h. there here) ⨾ (λ h. cc h) ⨾ (λ h. here) ⨾ tt)

print_events-array_example :
    (close_array true (print_events true (codes "{1}" ∷ codes "{2}" ∷ []) start_printer)).printed
    ≡ array_text (codes "{1}" ∷ codes "{2}" ∷ [])
print_events-array_example = print_events-array (codes "{1}" ∷ codes "{2}" ∷ [])

-- Every constant has the one name.
abbrev activity_names : Constants
activity_names = record {
  name = λ set v. codes "MQGACF_ACTIVITY_TRACE";
  attr_prefix = λ v. codes "MQOT";
  value_name = λ p v. [];
}

abbrev traces : List Elem
traces = group (pos 8013) 0 [] ∷ group (pos 8013) 1 (string (pos 2016) (codes "Q" ∷ []) ∷ []) ∷ []

abbrev body_or_empty : Option Body → Body
body_or_empty none = []
body_or_empty (some b) = b

abbrev trace_body : Body
trace_body = body_or_empty (add_elems activity_names formatted traces [])

traces_added : add_elems activity_names formatted traces [] ≡ some trace_body
unfolding add_elems
traces_added = refl

activity_repeats : is_repeated (pos 8013) ≡ true
unfolding is_repeated
activity_repeats = refl

traces-Leaves : All (Leaves activity_names formatted (codes "activityTrace")) traces
unfolding is_repeated
traces-Leaves = (λ (h : true ≡ false). cc h) ⨾ (λ (h : true ≡ false). cc h) ⨾ tt

abbrev no_body : Body
no_body = []

add_elems-records_example :
    records_of (lookup (codes "activityTrace") trace_body)
    ≡ records_of (lookup (codes "activityTrace") no_body)
      ++ groups_of activity_names formatted (codes "activityTrace") traces
add_elems-records_example =
    add_elems-records activity_names formatted (codes "activityTrace") traces [] trace_body
      traces_added traces-Leaves

-- Two queues of the default list, of which the second does not exist.
abbrev two_wanted : List OpenObject
two_wanted =
    record {
      handle = 0;
      object_type = mqot_q;
      object_name = codes "SYSTEM.ADMIN.QMGR.EVENT";
      active = false;
    }
    ∷ record {
      handle = 1;
      object_type = mqot_q;
      object_name = codes "SYSTEM.ADMIN.LOGGER.EVENT";
      active = false;
    }
    ∷ []

abbrev no_logger : ℕ → Bytes → Answer
no_logger type name =
    if bytes_eq name (codes "SYSTEM.ADMIN.LOGGER.EVENT")
    then refused (record { mqrc = mqrc_unknown_object_name; mqcc = 2 })
    else opened

default_names :
    map (λ o. o.object_name) (wanted_objects true (record { q_name = []; topic_name = [] }))
    ≡ codes "SYSTEM.ADMIN.PERFM.EVENT"
      ∷ codes "SYSTEM.ADMIN.CHANNEL.EVENT"
      ∷ codes "SYSTEM.ADMIN.QMGR.EVENT"
      ∷ codes "SYSTEM.ADMIN.PUBSUB.EVENT"
      ∷ codes "SYSTEM.ADMIN.CONFIG.EVENT"
      ∷ codes "SYSTEM.ADMIN.COMMAND.EVENT"
      ∷ []
unfolding wanted_objects
default_names = refl

open_all_succeeds_iff_example :
    ((open_all true no_logger two_wanted).1 ≡ none) ↔ All (Acceptable true no_logger) two_wanted
open_all_succeeds_iff_example = open_all_succeeds_iff true no_logger two_wanted
