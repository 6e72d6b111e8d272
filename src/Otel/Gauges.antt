-- ===== src/Otel/Gauges.antt =====
-- cmd/mq_otel/reader.go: addMetric with the maps of counters and gauges, observe, and the two loops of
-- GetMetrics that empty the gauges and take out what stayed empty.
pub mod Slices
pub mod Held
use mq_metric_samples.Prelude.{
  Bytes, codes, is_empty, bytes_eq, has_prefix, length, drop, Bool, true, false, not, ◌&&◌, List,
  [], ◌∷◌, ◌++◌, Option, none, some, lookup, insert, map, if◌then◌else◌,
}
use mq_metric_samples.Json.Labels.{Tags}

-- What one call of addMetric is given.
pub record Report (F : Type 0) : Type 0 where
  pub series : Bytes
  pub report_name : Bytes
  pub report_description : Bytes
  pub cumul : Bool
  pub value : F
  pub tags : Tags

pub record GaugeStruct (F : Type 0) : Type 0 where
  pub gauge_value : F
  pub gauge_tags : Tags

-- `counterMap` and `gaugeMap`, where a nil slice is an empty list; what has been added to the
-- counters; and the keys for which a callback is registered, once for each registration.
pub record Instruments (F : Type 0) : Type 0 where
  pub counter_map : List (Bytes × Bytes)
  pub added : List (Bytes × GaugeStruct F)
  pub gauge_map : List (Bytes × List (GaugeStruct F))
  pub callbacks : List Bytes

-- A queue's metrics lose a second "queue_".
unfoldable pub metric_name_of : Bytes → Bytes → Bytes
metric_name_of series name =
    if bytes_eq series (codes "queue") && has_prefix name (codes "queue_")
    then drop (length (codes "queue_")) name
    else name

unfoldable pub counter_key : Bytes → Bytes → Bytes
unfolding metric_name_of
counter_key series name = codes "ibmmq." ++ series ++ codes "." ++ metric_name_of series name

abbrev pub key_of_report : {F : Type 0} → Report F → Bytes
key_of_report r = counter_key r.series r.report_name

-- A slice or nil.
abbrev pub or_nil {ℓ} : {A : Type ℓ} → Option (List A) → List A
or_nil (some gs) = gs
or_nil none = []

abbrev pub is_some {ℓ} : {A : Type ℓ} → Option A → Bool
is_some (some a) = true
is_some none = false

-- `gaugeMap[key]`
abbrev pub held : {F : Type 0} → Bytes → List (Bytes × List (GaugeStruct F)) → List (GaugeStruct F)
held key m = or_nil (lookup key m)

abbrev pub is_known {ℓ} : {V : Type ℓ} → Bytes → List (Bytes × V) → Bool
is_known key m = is_some (lookup key m)

-- `creates` says which names the meter accepts for a new instrument; `override_c_type` makes every
-- metric a gauge.
module _ {F : Type 0} (creates : Bytes → Bool) (override_c_type : Bool) where
  abbrev pub is_counter : Report F → Bool
  is_counter r = r.cumul && not override_c_type

  -- The gauge is put behind those that the key has.
  abbrev stash : Report F → Instruments F → Instruments F
  stash r s =
      let key = key_of_report r in
      record s {
        gauge_map =
            insert key
              (held key s.gauge_map ++ record { gauge_value = r.value; gauge_tags = r.tags } ∷ [])
              s.gauge_map;
      }

  abbrev count_up : Report F → Instruments F → Instruments F
  count_up r s = record s {
    added =
        s.added ++ (key_of_report r, record { gauge_value = r.value; gauge_tags = r.tags }) ∷ [];
  }

  abbrev new_counter : Report F → Instruments F → Instruments F
  new_counter r s = record s {
    counter_map = insert (key_of_report r) r.report_description s.counter_map;
  }

  abbrev new_gauge : Report F → Instruments F → Instruments F
  new_gauge r s = record s { callbacks = s.callbacks ++ key_of_report r ∷ [] }

  -- A new instrument that the meter refuses ends the call.
  unfoldable pub add_metric : Report F → Instruments F → Instruments F
  add_metric r s =
      let key = key_of_report r in
      if is_counter r
      then (if is_known key s.counter_map
          then count_up r s
          else if creates key
          then count_up r (new_counter r s)
          else s)
      else if is_known key s.gauge_map
      then stash r s
      else if creates key
      then stash r (new_gauge r s)
      else s

  unfoldable pub add_metrics : List (Report F) → Instruments F → Instruments F
  unfolding add_metric
  add_metrics [] s = s
  add_metrics (r ∷ rs) s = add_metrics rs (add_metric r s)

-- What the callback of a key passes on to the observer.
abbrev pub observe : {F : Type 0} → Bytes → Instruments F → List (GaugeStruct F)
observe key s = held key s.gauge_map

-- `gaugeMap[gaugeName] = nil` for every name.
unfoldable pub clear_gauges :
    {F : Type 0} → List (Bytes × List (GaugeStruct F)) → List (Bytes × List (GaugeStruct F))
clear_gauges [] = []
clear_gauges ((key, gs) ∷ m) = (key, []) ∷ clear_gauges m

-- The entries that are still nil are deleted.
unfoldable pub evict_gauges :
    {F : Type 0} → List (Bytes × List (GaugeStruct F)) → List (Bytes × List (GaugeStruct F))
evict_gauges [] = []
evict_gauges ((key, []) ∷ m) = evict_gauges m
evict_gauges ((key, g ∷ gs) ∷ m) = (key, g ∷ gs) ∷ evict_gauges m
