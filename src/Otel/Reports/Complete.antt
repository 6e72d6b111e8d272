-- ===== src/Otel/Reports/Complete.antt =====
-- cmd/mq_otel/reader.go: all the reports of a collection are made without a panic.
use mq_metric_samples.Prelude.{
  Bytes, codes, bytes_eq, has_prefix, List, [], ◌∷◌, Option, All, String,
}
use mq_metric_samples.Config.Record.{Config}
use mq_metric_samples.Config.Verify.Steps.{bool_of}
use mq_metric_samples.Json.Labels.{Tags, add_meta_labels}
use mq_metric_samples.Mqmetric.{
  Element, Mq, ot_q, ot_channel, ot_topic, ot_sub, ot_cluster, ot_q_mgr, ot_bp, ot_ps,
  ot_channel_amqp, ot_channel_mqtt, StatusSet, required,
}
use mq_metric_samples.Otel.Gauges.{Report}
use mq_metric_samples.Otel.Reports.{
  add_metric_e, own_metric, publication_reports, statistics_reports, status_reports, queue_numbers,
  q_mgr_numbers, usage_reports, client_reports, ◌then_report◌,
}
use mq_metric_samples.Otel.Reports.Given.{
  IsSome, is, bind-IsSome, if-IsSome, each-IsSome, EachKey, EachKey-weaken, every_key, Has,
}
use mq_metric_samples.Otel.Reports.Total.{
  Named, Metadata, meta-IsSome, numbers-IsSome, named_numbers-IsSome, topic_tags-IsSome,
  channel_tags-IsSome, sub_tags-IsSome, cluster_tags-IsSome, bufferpool_tags-IsSome,
  pageset_tags-IsSome, client_tags-IsSome, queue_tags-IsSome,
}
use mq_metric_samples.Otel.Tags.{exporter_tags, queue_tags, published_tags}

module _ {F : Type 0} (trim_space : Bytes → Bytes) (mq : Mq F) (c : Config)
    (n : Named trim_space mq c) (m : Metadata trim_space mq c) where
  then-IsSome :
      (r s : Option (List (Report F)))
      → IsSome r
      → IsSome s
      → IsSome (◌then_report◌ trim_space mq c r s)
  unfolding ◌then_report◌
  then-IsSome r s h k = bind-IsSome _ r h (λ xs. bind-IsSome _ s k (λ ys. is _))

  pub own_metric-IsSome :
      (name description : String) (f : F) → IsSome (own_metric trim_space mq c name description f)
  unfolding own_metric
  own_metric-IsSome name description f =
      bind-IsSome _ (add_meta_labels c (exporter_tags trim_space mq c))
        (meta-IsSome trim_space mq c (exporter_tags trim_space mq c) m) (λ t. is _)

  published_tags-IsSome : (key : Bytes) → IsSome (published_tags trim_space mq c key)
  unfolding published_tags
  published_tags-IsSome key = if-IsSome (bytes_eq key (codes "@self")) _ _ (is _) (
      if-IsSome (has_prefix key (codes "@NATIVEHA@")) _ _ (is _) (
        bind-IsSome _ (queue_tags trim_space mq c key key)
          (queue_tags-IsSome trim_space mq c key key n) (λ t. is _)))

  add_metric_e-IsSome :
      (series : Bytes) (e : Element) (f : F) (tags : Tags)
      → IsSome (add_metric_e trim_space mq c series e f tags)
  unfolding add_metric_e
  add_metric_e-IsSome series e f tags =
      bind-IsSome _ (add_meta_labels c tags) (meta-IsSome trim_space mq c tags m) (λ t. is _)

  every {ℓ} : {A : Type ℓ} {P : A → Type 0} (xs : List A) → ((x : A) → P x) → All P xs
  every [] f = tt
  every (x ∷ xs) f = (f x, every xs f)

  pub publication_reports-IsSome : IsSome (publication_reports trim_space mq c)
  unfolding publication_reports
  publication_reports-IsSome = each-IsSome _ mq.published (
      every mq.published (λ e. each-IsSome _ e.element_values (
        every e.element_values (λ v.
          bind-IsSome _ (published_tags trim_space mq c v.0) (published_tags-IsSome v.0)
            (λ st. add_metric_e-IsSome st.0 e _ st.1)))))

  queue_numbers-IsSome :
      (set : StatusSet)
      → EachKey (Has set (codes "name" ∷ [])) set
      → IsSome (queue_numbers trim_space mq c set)
  unfolding queue_numbers
  queue_numbers-IsSome set h = numbers-IsSome trim_space mq c (codes "queue") ot_q _ set m (
      EachKey-weaken set
        (λ key k.
          bind-IsSome _ (required (codes "name") key set) k.0
            (λ v. queue_tags-IsSome trim_space mq c v.value_string key n))
        h)

  q_mgr_numbers-IsSome : (set : StatusSet) → IsSome (q_mgr_numbers trim_space mq c set)
  unfolding q_mgr_numbers
  q_mgr_numbers-IsSome set =
      numbers-IsSome trim_space mq c (codes "qmgr") ot_q_mgr _ set m (every_key set (λ key. is _))

  pub statistics_reports-IsSome : IsSome (statistics_reports trim_space mq c)
  unfolding statistics_reports
  statistics_reports-IsSome =
      if-IsSome (bool_of c "cm.CC.UseStatistics") _ _
        (then-IsSome _ _ (q_mgr_numbers-IsSome (mq.object_statistics ot_q_mgr))
          (queue_numbers-IsSome (mq.object_statistics ot_q) n.queue_statistics))
        (is [])

  usage_reports-IsSome : IsSome (usage_reports trim_space mq c)
  unfolding usage_reports
  usage_reports-IsSome =
      then-IsSome _ _
        (named_numbers-IsSome trim_space mq c (codes "bufferpool") ot_bp _ (mq.object_status ot_bp)
          m
          (EachKey-weaken (mq.object_status ot_bp) (bufferpool_tags-IsSome trim_space mq c)
            n.bufferpools))
        (named_numbers-IsSome trim_space mq c (codes "pageset") ot_bp _ (mq.object_status ot_ps) m (
          EachKey-weaken (mq.object_status ot_ps) (pageset_tags-IsSome trim_space mq c) n.pagesets))

  client_reports-IsSome : IsSome (client_reports trim_space mq c)
  unfolding client_reports
  client_reports-IsSome =
      then-IsSome _ _
        (named_numbers-IsSome trim_space mq c (codes "amqp") ot_channel _
          (mq.object_status ot_channel_amqp) m
          (EachKey-weaken (mq.object_status ot_channel_amqp)
            (client_tags-IsSome trim_space mq c ot_channel_amqp) n.amqp))
        (named_numbers-IsSome trim_space mq c (codes "mqtt") ot_channel _
          (mq.object_status ot_channel_mqtt) m
          (EachKey-weaken (mq.object_status ot_channel_mqtt)
            (client_tags-IsSome trim_space mq c ot_channel_mqtt) n.mqtt))

  pub status_reports-IsSome : IsSome (status_reports trim_space mq c)
  unfolding status_reports
  status_reports-IsSome =
      then-IsSome _ _
        (then-IsSome _ _
          (then-IsSome _ _
            (then-IsSome _ _
              (then-IsSome _ _
                (then-IsSome _ _ (queue_numbers-IsSome (mq.object_status ot_q) n.queues) (
                  numbers-IsSome trim_space mq c (codes "channel") ot_channel _
                    (mq.object_status ot_channel) m
                    (EachKey-weaken (mq.object_status ot_channel)
                      (λ key. channel_tags-IsSome trim_space mq c key n) n.channels)))
                (numbers-IsSome trim_space mq c (codes "topic") ot_topic _
                  (mq.object_status ot_topic) m
                  (EachKey-weaken (mq.object_status ot_topic) (topic_tags-IsSome trim_space mq c)
                    n.topics)))
              (numbers-IsSome trim_space mq c (codes "subscription") ot_sub _
                (mq.object_status ot_sub) m
                (EachKey-weaken (mq.object_status ot_sub) (sub_tags-IsSome trim_space mq c)
                  n.subs)))
            (numbers-IsSome trim_space mq c (codes "cluster") ot_cluster _
              (mq.object_status ot_cluster) m
              (EachKey-weaken (mq.object_status ot_cluster) (cluster_tags-IsSome trim_space mq c)
                n.clusters)))
          (q_mgr_numbers-IsSome (mq.object_status ot_q_mgr)))
        (if-IsSome mq.is_zos _ _ usage_reports-IsSome client_reports-IsSome)
