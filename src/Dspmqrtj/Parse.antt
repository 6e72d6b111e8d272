-- ===== src/Dspmqrtj/Parse.antt =====
-- dspmqrtj/tracert.go: parseParm, and parseMsg's work on the parameters of one header. What MQ reads
-- from the bytes (mq.ReadPCFParameter) is the data type Pcf; mq.MQItoString and time.Parse are
-- parameters. `none` is a panic: a nil pointer, or an index past the end.
pub mod Stored
use mq_metric_samples.Prelude.{
  ℕ, zero, suc, ◌+◌, ◌-◌, ◌%◌, ◌^◌, ◌≤◌, Bytes, codes, is_empty, insert, get_elem?, Bool, true,
  false, not, ◌&&◌, ◌||◌, List, [], ◌∷◌, Option, none, some, ◌>>=◌, ltb, ◌==◌, if◌then◌else◌, ◌≡◌,
  refl, arith,
}
use mq_metric_samples.Prelude.Int.{int32, ℤ, pos, negsuc, eqb_ℤ}
use mq_metric_samples.Dspmqrtj.Format.{
  prettify, decode_route_options, time_stamp, iacf_route_accumulation, iacf_route_delivery,
  iacf_route_forwarding, iacf_route_detail,
}
use mq_metric_samples.Dspmqrtj.Activities.{
  Value, number, text, Operation, Activity, Trace, minus_one, new_activity, new_operation, with_act,
  with_op, add_activity,
}

-- A group has the count that it was read with and the parameters that were read.
mutual
  pub data Pcf : Type 0 where
    integer : ℕ → List ℤ → Pcf
    string : ℕ → List Bytes → Pcf
    group : ℕ → ℕ → PcfList → Pcf
    other : ℕ → Pcf

  pub data PcfList : Type 0 where
    nil : PcfList
    cons : Pcf → PcfList → PcfList

abbrev pub parameter : Pcf → ℕ
parameter (integer p vs) = p
parameter (string p ss) = p
parameter (group p n ps) = p
parameter (other p) = p

abbrev pub oper_discard : ℤ
oper_discard = pos 2

module _ (mqi_to_string : Bytes → ℤ → Bytes) (parse_time : Bytes → Option ℤ) where
  abbrev pub mqi_to_string_p : Bytes → ℤ → Bytes
  mqi_to_string_p set v = prettify (mqi_to_string set v)

  -- A new activity or operation starts where its group does.
  unfoldable pub enter : ℕ → Trace → Option Trace
  enter p t =
      if p == 8005
      then some
          (record (new_activity t) { op = none; recorded = minus_one; unrecorded = minus_one })
      else if p == 8004
      then new_operation t
      else some t

  abbrev pub put_route : Bytes → Value → Activity → Activity
  put_route key v a = record a { trace_route = insert key v a.trace_route }

  abbrev pub put_detail : Bytes → Bytes → Operation → Operation
  put_detail key v o = record o { details = insert key v o.details }

  unfoldable pub feedback : ℤ → Bytes
  feedback v =
      let fb = mqi_to_string (codes "MQFB") v in
      prettify (if is_empty fb then mqi_to_string (codes "MQRC") v else fb)

  unfoldable pub note_discard : ℤ → Trace → Trace
  note_discard v t = if eqb_ℤ v oper_discard then record t { seen_discard = true } else t

  unfoldable pub operation_type : ℤ → Trace → Option Trace
  unfolding note_discard
  operation_type v t =
      with_op
        (λ o. record o { operation_string = mqi_to_string_p (codes "OPER") v; operation_val = v }) t
      >>= λ t'. some (note_discard v t')

  -- The cases of an integer parameter, in the source's order.
  unfoldable pub parse_integer : ℕ → ℤ → Trace → Option Trace
  unfolding feedback operation_type
  parse_integer p v t =
      if p == 1245
      then with_op (put_detail (codes "feedback") (feedback v)) t
      else if p == 1
      then with_act (λ a. record a { appl_type = mqi_to_string_p (codes "MQAT") v }) t
      else if p == 1235
      then with_act (put_route (codes "recordedActivities") (number v)) (record t { recorded = v })
      else if p == 1257
      then with_act (put_route (codes "unrecordedActivites") (number v))
          (record t { unrecorded = v })
      else if p == 1237
      then with_act (put_route (codes "discontinuityCount") (number v)) (record t { discon = v })
      else if p == 1240
      then operation_type v t
      else if p == 1511
      then with_op (put_detail (codes "channelType") (mqi_to_string_p (codes "CHT") v)) t
      else if p == iacf_route_accumulation
          || p == iacf_route_delivery
          || p == iacf_route_forwarding
          || p == iacf_route_detail
      then (let d = decode_route_options p v in with_act (put_route d.0 (text d.1)) t)
      else if p == 1236
      then with_act (put_route (codes "maxActivities") (number v)) t
      else some t

  -- The key a string has in the operation's details; the empty one where it is not kept there.
  unfoldable pub string_key : ℕ → Bytes → Bytes
  string_key p s =
      if p == 3133 || p == 3132
      then codes "timestamp"
      else if p == 2016
      then codes "queue"
      else if p == 3141
      then (if is_empty s then [] else codes "resolvedQueue")
      else if p == 2015
      then codes "queueManager"
      else if p == 3501
      then codes "channelName"
      else if p == 2017
      then codes "remoteQueueManager"
      else if p == 2018
      then codes "remoteQueue"
      else if p == 3505
      then codes "transmissionQueue"
      else if p == 2094
      then (if is_empty s then [] else codes "topicString")
      else []

  -- The cases that keep the string elsewhere.
  unfoldable pub keep_string : ℕ → Bytes → Trace → Option Trace
  keep_string p s t =
      if p == 3133
      then some (record t { operation_time = s })
      else if p == 3132
      then some (record t { operation_date = s })
      else if p == 3024
      then with_act (λ a. record a { appl_name = s }) t
      else if p == 3134
      then with_act (λ a. record a { description = s }) t
      else some t

  -- Date and time are combined when both have come.
  unfoldable pub stamp : Trace → Option Trace
  stamp t =
      if not (is_empty t.operation_date) && not (is_empty t.operation_time)
      then (time_stamp parse_time t.operation_date t.operation_time >>= λ r.
          with_op (λ o. record o { date = r.0; time = r.1; time_stamp_epoch = r.2 })
            (record t { operation_date = []; operation_time = [] }))
      else some t

  unfoldable pub has_op : Option ℕ → Bool
  has_op none = false
  has_op (some o) = true

  unfoldable pub parse_string : ℕ → Bytes → Trace → Option Trace
  unfolding string_key keep_string stamp has_op
  parse_string p s t = keep_string p s t >>= λ t'.
      let key = string_key p s in
      if has_op t'.op && not (is_empty key)
      then (if p == 3133 || p == 3132 then stamp t' else with_op (put_detail key s) t')
      else some t'

  abbrev pub skipped : ℕ → Bool
  skipped p = p == 8006 || p == 8008 || p == 8007

  -- `Int64Value[0]` and `String[0]`.
  unfoldable mutual
    pub parse_parm : Pcf → Trace → Option Trace
    parse_parm (integer p vs) t =
        enter p t >>= λ t'. get_elem? vs 0 >>= λ v. parse_integer p (int32 v) t'
    parse_parm (string p ss) t = enter p t >>= λ t'. get_elem? ss 0 >>= λ s. parse_string p s t'
    parse_parm (group p n ps) t =
        enter p t >>= λ t'. if skipped p then some t' else parse_group n ps t'
    parse_parm (other p) t = enter p t

    pub parse_group : ℕ → PcfList → Trace → Option Trace
    parse_group zero ps t = some t
    parse_group (suc n) nil t = none
    parse_group (suc n) (cons p ps) t = parse_parm p t >>= λ t'. parse_group n ps t'

  -- After a parameter: an activity is stored when both its counts are known.
  unfoldable pub settle : Trace → Trace
  settle t =
      let stored =
        if not (eqb_ℤ t.recorded minus_one) && not (eqb_ℤ t.unrecorded minus_one)
        then record (add_activity t.act t.recorded t) {
          recorded = minus_one;
          unrecorded = minus_one;
        }
        else t in
      record stored { discon = minus_one }

  -- The loop over pcfArray.
  unfoldable pub parse_parms_of : List Pcf → Trace → Option Trace
  unfolding parse_parm settle
  parse_parms_of [] t = some t
  parse_parms_of (p ∷ ps) t =
      parse_parm p (record t { operation_date = []; operation_time = [] }) >>= λ t'.
      parse_parms_of ps (settle t')
