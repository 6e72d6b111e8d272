-- ===== src/Dspmqrtj/Summary.antt =====
-- dspmqrtj/main.go: printSummary, less its printing. The structure Output lives on between calls.
pub mod Listed
use mq_metric_samples.Prelude.{
  ℕ, zero, suc, ◌+◌, ◌-◌, ◌≤◌, ◌<◌, Bytes, codes, is_empty, lookup, length, get_elem?, Bool, true,
  false, not, ◌&&◌, List, [], ◌∷◌, ◌++◌, Option, none, some, ◌>>=◌, >>=-eq-some, ltb, ◌==◌,
  if◌then◌else◌, ◌≡◌, refl, sym, ◌∙◌, ap, arith, In, here, there, append_assoc, append-nil,
}
use mq_metric_samples.Prelude.Int.{ℤ, pos, negsuc, eqb_ℤ, pos_part}
use mq_metric_samples.Dspmqrtj.Format.{time_diff}
use mq_metric_samples.Dspmqrtj.Activities.{Operation, Activity, Trace, map_lookup, ActivityMap}
use mq_metric_samples.Dspmqrtj.Parse.{oper_discard}

pub record Info : Type 0 where
  pub success : Bytes
  pub failure : Bytes
  pub total_time : ℤ
  pub last_time : Bytes
  pub last_date : Bytes
  pub last_time_stamp_epoch : ℤ
  pub channel_count : ℕ
  pub final_qmgr : Bytes

pub record Output : Type 0 where
  pub info : Info
  pub immediate_failure : Bool
  pub activities : List (Option ℕ)

abbrev pub oper_send : ℤ
oper_send = pos 8

unfoldable pub reached : Option Bytes → Info → Info
reached none i = i
reached (some s) i = record i {
  final_qmgr = s;
  success = codes "Message successfully reached a destination";
}

-- The inner loop's body.
unfoldable pub note_operation : Operation → Info → Info
unfolding reached lookup
note_operation op i =
    if eqb_ℤ op.operation_val oper_send
    then record i { channel_count = suc i.channel_count }
    else if eqb_ℤ op.operation_val oper_discard
    then reached (lookup (codes "queueManager") op.details) i
    else i

unfoldable pub note_operations : List Operation → Info → Info
unfolding note_operation
note_operations [] i = i
note_operations (op ∷ ops) i = note_operations ops (note_operation op i)

abbrev pub last_of : List Operation → Option Operation
last_of [] = none
last_of (op ∷ []) = some op
last_of (op ∷ p ∷ ops) = last_of (p ∷ ops)

pub record Walk : Type 0 where
  pub walk_info : Info
  pub listed : List (Option ℕ)
  pub last_epoch : ℤ

-- The outer loop's body for an activity that is in the map.
unfoldable pub noted : Option ℕ → Activity → Operation → Walk → Walk
unfolding note_operations
noted a x last_op w = record {
  walk_info = note_operations x.operations (record w.walk_info {
    last_time = last_op.time;
    last_date = last_op.date;
    last_time_stamp_epoch = last_op.time_stamp_epoch;
  });
  listed = w.listed ++ a ∷ [];
  last_epoch = last_op.time_stamp_epoch;
}

-- A nil pointer, or an activity with no operations, panics.
unfoldable pub note_activity : List Activity → Option ℕ → Walk → Option Walk
unfolding noted
note_activity heap a w = a >>= λ i.
    get_elem? heap i >>= λ x. last_of x.operations >>= λ last_op. some (noted a x last_op w)

unfoldable pub note_found : List Activity → Option (Option ℕ) → Walk → Option Walk
unfolding note_activity
note_found heap none w = some w
note_found heap (some a) w = note_activity heap a w

-- The outer loop: n more keys from i on.
unfoldable pub walk : ℕ → ℕ → List Activity → ActivityMap → Walk → Option Walk
unfolding note_found map_lookup
walk zero i heap m w = some w
walk (suc n) i heap m w =
    note_found heap (map_lookup (pos i) m) w >>= λ w'. walk n (suc i) heap m w'

-- The epoch of the first operation, 0 where there is none.
unfoldable pub first_epoch : List Operation → ℤ
first_epoch [] = pos 0
first_epoch (op ∷ ops) = op.time_stamp_epoch

unfoldable pub judge : Bool → Info → Info
judge has_error i =
    if is_empty i.success && not has_error
    then record i { failure = codes "Message not reported at a final destination" }
    else i

-- What is set after the loop.
unfoldable pub finish : Bool → List Operation → Walk → Output → Output
unfolding first_epoch judge time_diff
finish has_error ops w o = record o {
  info = record (judge has_error w.walk_info) {
    total_time = time_diff (first_epoch ops) w.last_epoch;
  };
  activities = w.listed;
}

unfoldable pub print_summary : Trace → Output → Option Output
unfolding walk finish
print_summary t o =
    if o.immediate_failure
    then some o
    else (t.first_activity >>= λ f. get_elem? t.heap f >>= λ x.
        walk (pos_part t.highest_activity) 1 t.heap t.activity_map
          (record { walk_info = o.info; listed = some f ∷ []; last_epoch = pos 0 })
        >>= λ w. some (finish t.has_error x.operations w o))
