-- ===== src/Json/Points/Merge/Shared.antt =====
-- cmd/mq_json/exporter.go, Collect: a queue's status values go into its published point.
use mq_metric_samples.Prelude.{
  ℕ, ◌<◌, ◌==◌, Bytes, bytes_eq, codes, lookup, length, true, false, ◌++◌, some, if◌then◌else◌, ◌≡◌,
}
use mq_metric_samples.Json.Fixup.{fixup}
use mq_metric_samples.Config.Record.{Config}
use mq_metric_samples.Json.Points.{Point, Points}
use mq_metric_samples.Json.Points.Blocks.{described, queue_point, named_queue}
use mq_metric_samples.Json.Points.Merge.{find_point, metrics_at, IsPut-found, status_value}
use mq_metric_samples.Mqmetric.{Value, Attribute, Mq, ot_q, text_of}

module _ {F : Type 0} (trim_space : Bytes → Bytes) (topic_key : Bytes → Bytes → Bytes) (mq : Mq F)
    (c : Config) where
  -- A number that is reported for a queue with a published point, whose metrics are in the store, is
  -- put, without a panic, into the metrics of that very point, under the name that fixup gives it; all
  -- else in the store stays as it is. The point is then also that of the queue in the status.
  pub status_value-published :
      (attr : Attribute) (key q_name : Bytes) (value : Value) (p : Points F) {pt : Point}
      → value.is_int64 ≡ true
      → text_of (mq.object_status ot_q) (codes "name") key ≡ some q_name
      → lookup q_name p.published ≡ some pt
      → pt.metric < length p.store
      → (p' : Points F) × (status_value trim_space topic_key mq c ot_q attr key value p ≡ some p')
        × (lookup (codes "queue/" ++ q_name) p'.status ≡ some pt)
        × (p'.published ≡ p.published)
        × ((k : Bytes)
            → lookup k (metrics_at pt.metric p'.store) ≡ (
                if bytes_eq (fixup attr.metric_name pt.object_type p.fixup_string).0 k
                then some (mq.normalise ot_q attr value.value_int64)
                else lookup k (metrics_at pt.metric p.store)))
        × ((j : ℕ) → (pt.metric == j) ≡ false → metrics_at j p'.store ≡ metrics_at j p.store)
  unfolding status_value described find_point queue_point named_queue
  status_value-published attr key q_name value p {pt} is named at inside =
      let d = named_queue trim_space topic_key mq c key q_name in
      let (p', put, is_put) =
        IsPut-found trim_space topic_key mq c d attr.metric_name
          (mq.normalise ot_q attr value.value_int64) p {pt = pt} (simp at) inside in
      (
        p',
        simp (is, named, put),
        is_put.of_key,
        is_put.same_published,
        is_put.has_number,
        is_put.no_other,
      )
