-- ===== src/Amqsevtg/Events.antt =====
-- amqsevtg/callback.go: formatEvent, up to its output. The header and the elements are what the MQ
-- package reads from the message; the put date, its two forms and the correlation identifier in
-- hexadecimal are given. `none` is a panic.
pub mod Groups
use mq_metric_samples.Prelude.{
  ℕ, zero, suc, Bytes, codes, is_empty, lookup, insert, Bool, true, false, not, ◌&&◌, ◌||◌, List,
  [], ◌∷◌, ◌++◌, Option, none, some, ◌>>=◌, ltb, ◌==◌, if◌then◌else◌,
}
use mq_metric_samples.Prelude.Int.{ℤ, pos, eqb_ℤ, ltb_ℤ}
use mq_metric_samples.Amqsevtg.Elements.{
  Constants, Elem, leaf, group, Leaf, Fields, Scalar, item, elem_entry, print_elems,
}
use mq_metric_samples.Amqsevtg.Names.{pretty_name}
use mq_metric_samples.Amqsevtg.Values.{Raw, pretty_val_string}

pub record Header : Type 0 where
  pub header_type : ℤ
  pub version : ℤ
  pub command : ℤ
  pub reason : ℤ
  pub control : ℤ
  pub comp_code : ℤ
  pub parameter_count : ℤ

pub record NameValue : Type 0 where
  pub value_name : Bytes
  pub value : ℤ

-- A member of the event's data: a value, a group, or the groups of one kind.
pub data Member : Type 0 where
  scalar : Scalar → Member
  single : Fields → Member
  several : List Fields → Member

abbrev pub Body : Type 0
Body = List (Bytes × Member)

pub record Event : Type 0 where
  pub object_name : Bytes
  pub object_type : Bytes
  pub queue_manager : Bytes
  pub event_type : NameValue
  pub msg_type : Option NameValue
  pub callback_reason : Option NameValue
  pub event_reason : NameValue
  pub time_stamp : Bytes
  pub epoch : ℤ
  pub correl_id : Bytes
  pub object_state : Bytes
  pub event_data : Body

-- What is known of the message beside its data.
pub record Origin : Type 0 where
  pub from_name : Bytes
  pub from_type : ℤ
  pub from_q_mgr : Bytes
  pub called_for : ℤ
  pub put_time : Bytes
  pub put_epoch : ℤ
  pub put_correl_id : Bytes

-- Groups that come more than once: activity traces, and accounting and statistics data.
unfoldable pub is_repeated : ℤ → Bool
is_repeated p = eqb_ℤ p (pos 8013) || eqb_ℤ p (pos 8010) || eqb_ℤ p (pos 8011) || eqb_ℤ p (pos 8012)

-- `body[groupName].([]interface{})`, or an empty array.
unfoldable pub records_of : Option Member → List Fields
records_of (some (several rs)) = rs
records_of _ = []

unfoldable pub has_data : Option Header → Bool
has_data none = false
has_data (some h) = not (eqb_ℤ h.parameter_count (pos 0))

-- The message is in the range of events and has a known version.
unfoldable pub is_event : Header → Bool
is_event h =
    not (ltb_ℤ (pos 27) h.header_type)
    && not (ltb_ℤ h.version (pos 1))
    && not (ltb_ℤ (pos 3) h.version)

module _ (mq : Constants) (raw : Raw) where
  unfoldable pub group_name : ℤ → Bytes
  unfolding pretty_name
  group_name p = pretty_name raw.raw_string (mq.name (codes "MQGACF") p)

  unfoldable pub add_group : ℤ → Fields → Body → Body
  unfolding is_repeated group_name records_of insert lookup
  add_group p fields body =
      let name = group_name p in
      if is_repeated p
      then insert name (several (records_of (lookup name body) ++ fields ∷ [])) body
      else insert name (single fields) body

  unfoldable pub add_elem : Elem → Body → Option Body
  unfolding add_group print_elems elem_entry insert
  add_elem (leaf e) body = elem_entry mq raw e >>= λ kv. some (insert kv.0 (scalar kv.1) body)
  add_elem (group p count es) body =
      print_elems mq raw count es [] >>= λ fields. some (add_group p fields body)

  unfoldable pub add_elems : List Elem → Body → Option Body
  unfolding add_elem
  add_elems [] body = some body
  add_elems (e ∷ es) body = add_elem e body >>= λ body'. add_elems es body'

  -- The loop reads one element before it looks for the end.
  at_least_one : List Elem → Option Body
  at_least_one [] = none
  at_least_one (e ∷ es) = add_elems (e ∷ es) []

  unfoldable pub event_data_of : Header → List Elem → Option Body
  unfolding at_least_one add_elems
  event_data_of h es =
      let body = at_least_one es in if eqb_ℤ h.comp_code (pos 2) then some [] else body

  -- The name of a constant beside its number, which always is a name.
  unfoldable pub named_value : Bytes → ℤ → NameValue
  unfolding pretty_val_string
  named_value set v = record {
    value_name = pretty_val_string raw (mq.name set v) v false;
    value = v;
  }

  unfoldable pub build_event : Origin → Header → Body → Event
  unfolding named_value pretty_val_string
  build_event o h body = record {
    object_name = o.from_name;
    object_type = pretty_val_string raw (mq.name (codes "MQOT") o.from_type) o.from_type false;
    queue_manager = o.from_q_mgr;
    event_type = named_value (codes "MQCMD") h.command;
    msg_type =
        if eqb_ℤ h.header_type (pos 7)
        then none
        else some (named_value (codes "MQCFT") h.header_type);
    callback_reason =
        if eqb_ℤ o.called_for (pos 0) then none else some (named_value (codes "MQRC") o.called_for);
    event_reason = named_value (codes "MQRC") h.reason;
    time_stamp = o.put_time;
    epoch = o.put_epoch;
    correl_id =
        if eqb_ℤ h.command (pos 43) || eqb_ℤ h.command (pos 99) then o.put_correl_id else [];
    object_state =
        if eqb_ℤ h.reason (pos 2368)
        then (if eqb_ℤ h.control (pos 1) then codes "After Change" else codes "Before Change")
        else [];
    event_data = body;
  }

  checked_event : Origin → Option Header → List Elem → Option (Option Event)
  unfolding is_event event_data_of build_event
  checked_event o none es = some none
  checked_event o (some h) es =
      let built = event_data_of h es >>= λ body. some (some (build_event o h body)) in
      if is_event h then built else some none

  -- The event, or none where the message has no data or is no event.
  unfoldable pub format_event : Origin → Option Header → List Elem → Option (Option Event)
  unfolding has_data checked_event
  format_event o h es = let event = checked_event o h es in if has_data h then event else some none
