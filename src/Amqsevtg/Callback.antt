-- ===== src/Amqsevtg/Callback.antt =====
-- amqsevtg/callback.go: cb, with the open objects and the flags that end the program. What is printed
-- is left out. Callbacks of a connection come one after the other.
pub mod Quiet
use mq_metric_samples.Prelude.{
  ℕ, Bytes, Bool, true, false, not, ◌&&◌, ◌||◌, List, [], ◌∷◌, ◌==◌, if◌then◌else◌,
}

-- An open queue or subscription; `handle` stands for the pointer `hObj`.
pub record OpenObject : Type 0 where
  pub handle : ℕ
  pub object_type : ℕ
  pub object_name : Bytes
  pub active : Bool

pub record Session : Type 0 where
  pub open_objects : List OpenObject
  pub end_program : Bool
  pub no_more_printed : Bool

abbrev pub mqot_topic : ℕ
mqot_topic = 8

-- The first object of the handle has a message, and so is active.
unfoldable pub mark_active : ℕ → List OpenObject → List OpenObject
mark_active h [] = []
mark_active h (o ∷ os) =
    let rest = o ∷ mark_active h os in
    if o.handle == h then record o { active = true } ∷ os else rest

-- The name and type reported with a message; a topic's name comes from the message, if it has one.
unfoldable pub source_of : ℕ → Bytes → Bool → List OpenObject → Bytes × ℕ
source_of h topic has_properties [] = ([], 1)
source_of h topic has_properties (o ∷ os) =
    let rest = source_of h topic has_properties os in
    if o.handle == h
    then (
      if o.object_type == mqot_topic && has_properties then topic else o.object_name,
      o.object_type,
    )
    else rest

-- The loop for an object that has no more messages: it becomes inactive.
unfoldable pub mark_inactive : ℕ → List OpenObject → List OpenObject
mark_inactive h [] = []
mark_inactive h (o ∷ os) =
    (if o.handle == h then record o { active = false } else o) ∷ mark_inactive h os

-- `someActive`: another object is active.
unfoldable pub some_active : ℕ → List OpenObject → Bool
some_active h [] = false
some_active h (o ∷ os) =
    let rest = some_active h os in if o.handle == h then rest else if o.active then true else rest

-- Reasons that end the program: the object changed, or the connection or the queue manager ends.
unfoldable pub is_ending : ℕ → Bool
is_ending rc = rc == 2041 || rc == 2009 || rc == 2162 || rc == 2161 || rc == 2202 || rc == 2203

abbrev pub mqrc_no_msg_available : ℕ
mqrc_no_msg_available = 2033

no_more : Session → Session
no_more s = record s { no_more_printed = true; end_program = true }

event_call : ℕ → ℕ → Session → Session
unfolding mark_inactive some_active is_ending no_more
event_call h rc s =
    if rc == mqrc_no_msg_available
    then (let s' = record s { open_objects = mark_inactive h s.open_objects } in
        if some_active h s.open_objects then s' else no_more s')
    else if is_ending rc
    then record s { end_program = true }
    else s

pub data Call : Type 0 where
  -- a message, removed from its queue or not
  msg : ℕ → Call
  -- an event, with its reason
  event : ℕ → ℕ → Call
  -- another call type
  unexpected : Call

unfoldable pub callback : Call → Session → Session
unfolding event_call mark_active
callback (msg h) s = record s { open_objects = mark_active h s.open_objects }
callback (event h rc) s = event_call h rc s
callback unexpected s = s

unfoldable pub callbacks : List Call → Session → Session
unfolding callback
callbacks [] s = s
callbacks (c ∷ cs) s = callbacks cs (callback c s)
