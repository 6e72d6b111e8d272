-- ===== src/Dspmqrtj/Activities.antt =====
-- dspmqrtj/structures.go and the package's variables that the parser shares with it. An activity is
-- reached by `act`, by the map and by the summary's list at once, so activities lie in a heap and are
-- named by their place in it. `op` always points into the operations of the activity `act`, as a
-- new activity sets it to nil, and is a place among them.
use mq_metric_samples.Prelude.{
  ℕ, Bytes, length, get_elem?, set, Bool, false, List, [], ◌∷◌, ◌++◌, Option, none, some, ◌>>=◌,
  if◌then◌else◌,
}
use mq_metric_samples.Prelude.Int.{ℤ, pos, negsuc, eqb_ℤ, ltb_ℤ}

pub data Value : Type 0 where
  number : ℤ → Value
  text : Bytes → Value

pub record Operation : Type 0 where
  pub operation_string : Bytes
  pub operation_val : ℤ
  pub date : Bytes
  pub time : Bytes
  pub time_stamp_epoch : ℤ
  pub details : List (Bytes × Bytes)

pub record Activity : Type 0 where
  pub appl_name : Bytes
  pub appl_type : Bytes
  pub description : Bytes
  pub operations : List Operation
  pub trace_route : List (Bytes × Value)

-- activityMap, with the places of its activities in the heap; a nil pointer is `none`.
abbrev pub ActivityMap : Type 0
ActivityMap = List (ℤ × Option ℕ)

pub record Trace : Type 0 where
  pub heap : List Activity
  pub first_activity : Option ℕ
  pub activity_map : ActivityMap
  pub highest_activity : ℤ
  pub seen_discard : Bool
  pub recorded : ℤ
  pub unrecorded : ℤ
  pub discon : ℤ
  pub operation_date : Bytes
  pub operation_time : Bytes
  pub act : Option ℕ
  pub op : Option ℕ
  -- The keys of o.Error do not matter here, but whether there are some.
  pub has_error : Bool

abbrev pub minus_one : ℤ
minus_one = negsuc 0

unfoldable pub init_activity : Trace → Trace
init_activity t = record t {
  activity_map = [];
  has_error = false;
  highest_activity = pos 0;
  seen_discard = false;
}

abbrev pub empty_activity : Activity
empty_activity = record {
  appl_name = [];
  appl_type = [];
  description = [];
  operations = [];
  trace_route = [];
}

abbrev pub empty_operation : Operation
empty_operation = record {
  operation_string = [];
  operation_val = pos 0;
  date = [];
  time = [];
  time_stamp_epoch = pos 0;
  details = [];
}

-- `act = newActivity()`
unfoldable pub new_activity : Trace → Trace
new_activity t = record t { heap = t.heap ++ empty_activity ∷ []; act = some (length t.heap) }

unfoldable pub map_insert : ℤ → Option ℕ → ActivityMap → ActivityMap
map_insert k a [] = (k, a) ∷ []
map_insert k a ((j, b) ∷ m) = if eqb_ℤ j k then (k, a) ∷ m else (j, b) ∷ map_insert k a m

unfoldable pub map_lookup : ℤ → ActivityMap → Option (Option ℕ)
map_lookup k [] = none
map_lookup k ((j, b) ∷ m) = if eqb_ℤ j k then some b else map_lookup k m

-- The larger of the two; a float64 holds every int32.
unfoldable pub max_ℤ : ℤ → ℤ → ℤ
max_ℤ a b = if ltb_ℤ a b then b else a

-- `addActivity(act, i)`, where `act` may be nil.
unfoldable pub add_activity : Option ℕ → ℤ → Trace → Trace
unfolding map_insert max_ℤ
add_activity a i t =
    if eqb_ℤ i (pos 0)
    then record t { first_activity = a; highest_activity = max_ℤ t.highest_activity i }
    else record t {
      activity_map = map_insert i a t.activity_map;
      highest_activity = max_ℤ t.highest_activity i;
    }

-- A write through `act`, and one through `op`; `none` is the panic on a nil pointer.
unfoldable pub with_act : (Activity → Activity) → Trace → Option Trace
with_act f t =
    t.act >>= λ a. get_elem? t.heap a >>= λ x. some (record t { heap = set t.heap a (f x) })

unfoldable pub with_op : (Operation → Operation) → Trace → Option Trace
with_op f t = t.act >>= λ a. t.op >>= λ o. get_elem? t.heap a >>= λ x.
    get_elem? x.operations o >>= λ y.
    some (record t { heap = set t.heap a (record x { operations = set x.operations o (f y) }) })

-- `op = newOperation(act)`
unfoldable pub new_operation : Trace → Option Trace
new_operation t = t.act >>= λ a. get_elem? t.heap a >>= λ x. some (record t {
  heap = set t.heap a (record x { operations = x.operations ++ empty_operation ∷ [] });
  op = some (length x.operations);
})
