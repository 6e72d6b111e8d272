-- ===== src/Prometheus/Collect/Loops.antt =====
-- cmd/mq_prometheus/exporter.go, Collect: the orders of the types of objects, and the loops over the
-- vectors of the types and of the published metrics.
use mq_metric_samples.Prelude.{
  Bool, true, false, List, [], ◌∷◌, ◌++◌, Option, some, ◌>>=◌, lookup, insert,
}
use mq_metric_samples.Mqmetric.{
  Element, ObjectType, StatusSet, ot_q, ot_channel, ot_topic, ot_sub, ot_cluster, ot_q_mgr,
}
use mq_metric_samples.Prometheus.Allocate.{Maps, put_map}
use mq_metric_samples.Prometheus.Scrape.{VecMap, sent}
use mq_metric_samples.Prometheus.Vectors.{MqVec, make_key, reset}

-- The order in which the values of the status are added, and the vectors passed on.
abbrev pub filled_types : List ObjectType
filled_types = ot_channel ∷ ot_q ∷ ot_topic ∷ ot_sub ∷ ot_q_mgr ∷ ot_cluster ∷ []

-- The order in which the vectors of the status are cleared.
abbrev pub cleared_types : List ObjectType
cleared_types = ot_channel ∷ ot_q ∷ ot_q_mgr ∷ ot_topic ∷ ot_sub ∷ ot_cluster ∷ []

-- Changes to the maps of the types that are listed, one after the other.
unfoldable pub each_type :
    {F : Type 0}
    → (ObjectType → VecMap F → Option (VecMap F))
    → List ObjectType
    → Maps F
    → Option (Maps F)
unfolding put_map
each_type f [] maps = some maps
each_type f (ot ∷ ots) maps = f ot (maps ot) >>= λ m. each_type f ots (put_map ot m maps)

-- The vectors of the types that are listed.
unfoldable pub send_types :
    {F : Type 0}
    → Bool
    → (ObjectType → StatusSet)
    → List ObjectType
    → Maps F
    → Option (List (MqVec F))
unfolding sent
send_types poll_status sets [] maps = some []
send_types poll_status sets (ot ∷ ots) maps = sent poll_status (sets ot) (maps ot) >>= λ vs.
    send_types poll_status sets ots maps >>= λ rest. some (vs ++ rest)

-- `if b { … }` on what may panic.
abbrev pub if_all : {A : Type 0} → Bool → (A → Option A) → A → Option A
if_all true f a = f a
if_all false f a = some a

unfoldable pub reset_elements : {F : Type 0} → List Element → VecMap F → Option (VecMap F)
unfolding make_key lookup insert
reset_elements [] m = some m
reset_elements (elem ∷ elems) m =
    lookup (make_key elem) m >>= λ v. reset_elements elems (insert (make_key elem) (reset v) m)

unfoldable pub send_elements : {F : Type 0} → List Element → VecMap F → Option (List (MqVec F))
unfolding make_key lookup
send_elements [] m = some []
send_elements (elem ∷ elems) m =
    lookup (make_key elem) m >>= λ v. send_elements elems m >>= λ vs. some (v ∷ vs)
