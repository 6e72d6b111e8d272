-- ===== src/Amqsevtg/Open.antt =====
-- amqsevtg/amqsevtg.go, mainWithRc: which objects are opened, what becomes of an error, and the
-- return code. The answers of the queue manager are an argument.
pub mod Ready
use mq_metric_samples.Prelude.{
  ℕ, ◌+◌, Bytes, codes, is_empty, bytes_eq, split, length, Bool, true, false, not, ◌&&◌, List, [],
  ◌∷◌, ◌++◌, Option, none, some, ◌==◌, if◌then◌else◌,
}
use mq_metric_samples.Amqsevtg.Callback.{OpenObject, mqot_topic}

abbrev pub mqot_q : ℕ
mqot_q = 1

abbrev pub default_queues : Bytes
default_queues =
    codes
      "SYSTEM.ADMIN.PERFM.EVENT,SYSTEM.ADMIN.CHANNEL.EVENT,SYSTEM.ADMIN.QMGR.EVENT,SYSTEM.ADMIN.LOGGER.EVENT,SYSTEM.ADMIN.PUBSUB.EVENT,SYSTEM.ADMIN.CONFIG.EVENT,SYSTEM.ADMIN.COMMAND.EVENT"

-- The queues and topics of the command line.
pub record Wanted : Type 0 where
  pub q_name : Bytes
  pub topic_name : Bytes

unfoldable pub using_defaults : Wanted → Bool
using_defaults w = is_empty w.q_name && is_empty w.topic_name

-- A pointer is the position of its object.
unfoldable pub new_open_object : ℕ → Bytes → List OpenObject → List OpenObject
new_open_object type name os =
    os ++ record { handle = length os; object_type = type; object_name = name; active = false } ∷ []

-- There is no logger queue on z/OS.
unfoldable pub add_queues : Bool → List Bytes → List OpenObject → List OpenObject
unfolding new_open_object bytes_eq
add_queues is_zos [] os = os
add_queues is_zos (n ∷ ns) os = add_queues is_zos ns (
    if is_zos && bytes_eq n (codes "SYSTEM.ADMIN.LOGGER.EVENT")
    then os
    else new_open_object mqot_q n os)

unfoldable pub add_topics : List Bytes → List OpenObject → List OpenObject
unfolding new_open_object
add_topics [] os = os
add_topics (n ∷ ns) os = add_topics ns (new_open_object mqot_topic n os)

unfoldable pub wanted_objects : Bool → Wanted → List OpenObject
unfolding using_defaults add_queues add_topics split
wanted_objects is_zos w =
    let q_name = if using_defaults w then default_queues else w.q_name in
    let queues = if is_empty q_name then [] else add_queues is_zos (split b',' q_name) [] in
    if is_empty w.topic_name then queues else add_topics (split b',' w.topic_name) queues

-- An `MQReturn`: reason and completion code.
pub record MqReturn : Type 0 where
  pub mqrc : ℕ
  pub mqcc : ℕ

pub data Answer : Type 0 where
  opened : Answer
  refused : MqReturn → Answer

abbrev pub mqrc_unknown_object_name : ℕ
mqrc_unknown_object_name = 2085

-- One object: a default queue that does not exist is passed over.
unfoldable pub open_object : Bool → Answer → OpenObject → OpenObject × Option MqReturn
open_object defaults opened o = (record o { active = true }, none)
open_object defaults (refused r) o = (
  o,
  if o.object_type == mqot_q && (r.mqrc == mqrc_unknown_object_name && defaults)
      then none
      else some r,
)

-- The loop goes on while there is no error.
module _ (defaults : Bool) (answer : ℕ → Bytes → Answer) where
  go_on :
      OpenObject × Option MqReturn
      → List OpenObject
      → List OpenObject × Option MqReturn
      → List OpenObject × Option MqReturn
  go_on (o, some r) os rest = (o ∷ os, some r)
  go_on (o, none) os rest = (o ∷ rest.0, rest.1)

  unfoldable pub open_all : List OpenObject → List OpenObject × Option MqReturn
  unfolding open_object go_on
  open_all [] = ([], none)
  open_all (o ∷ os) =
      let rest = open_all os in
      go_on (open_object defaults (answer o.object_type o.object_name) o) os rest

-- The return code of the program.
unfoldable pub return_code : Option MqReturn → ℕ
return_code none = 0
return_code (some r) = r.mqcc
