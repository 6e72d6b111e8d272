-- ===== src/Otel/Reports/Total.antt =====
-- cmd/mq_otel/reader.go: where mqmetric has the names of the objects, GetMetrics does not panic.
use mq_metric_samples.Prelude.{
  ◌≤◌, Bytes, codes, ◌&&◌, not, [], ◌∷◌, Option, length, All-weaken, arith,
}
use mq_metric_samples.Config.Record.{Config}
use mq_metric_samples.Json.Labels.{Tags, add_meta_labels, meta_labels_from-Labelled}
use mq_metric_samples.Mqmetric.{
  Attribute, StatusSet, Mq, ObjectType, ot_q, ot_channel, ot_topic, ot_sub, ot_cluster, ot_bp,
  ot_ps, ot_channel_amqp, ot_channel_mqtt, required, values_of, text_of, text_or,
}
use mq_metric_samples.Otel.Reports.{add_metric_a, numbers, named_numbers}
use mq_metric_samples.Otel.Tags.{
  queue_tags, channel_tags, topic_tags, sub_tags, cluster_tags, bufferpool_tags, pageset_tags,
  client_tags,
}
use mq_metric_samples.Otel.Reports.Given.{
  IsSome, is, bind-IsSome, if-IsSome, each-IsSome, EachKey, Has, text-IsSome, text_or-IsSome,
}

module _ {F : Type 0} (trim_space : Bytes → Bytes) (mq : Mq F) (c : Config) where
  -- What mqmetric is to have for the objects that it has values of.
  pub record Named : Type 0 where
    pub usage : IsSome (values_of (codes "attribute_usage") (mq.object_status ot_q))
    pub rqmname : IsSome (values_of (codes "rqmname") (mq.object_status ot_channel))
    pub sslciph : IsSome (values_of (codes "sslciph") (mq.object_status ot_channel))
    pub queues : EachKey (Has (mq.object_status ot_q) (codes "name" ∷ [])) (mq.object_status ot_q)
    pub queue_statistics :
        EachKey (Has (mq.object_statistics ot_q) (codes "name" ∷ [])) (mq.object_statistics ot_q)
    pub channels :
        EachKey
          (Has
            (mq.object_status ot_channel)
            (codes "type" ∷ codes "name" ∷ codes "connname" ∷ codes "jobname" ∷ []))
          (mq.object_status ot_channel)
    pub topics :
        EachKey
          (Has (mq.object_status ot_topic) (codes "name" ∷ codes "type" ∷ []))
          (mq.object_status ot_topic)
    pub subs :
        EachKey
          (Has
            (mq.object_status ot_sub)
            (codes "subid" ∷ codes "name" ∷ codes "type" ∷ codes "topic" ∷ []))
          (mq.object_status ot_sub)
    pub clusters :
        EachKey
          (Has (mq.object_status ot_cluster) (codes "name" ∷ codes "qmtype" ∷ []))
          (mq.object_status ot_cluster)
    pub bufferpools :
        EachKey
          (Has (mq.object_status ot_bp) (codes "id" ∷ codes "location" ∷ codes "pageclass" ∷ []))
          (mq.object_status ot_bp)
    pub pagesets :
        EachKey
          (Has (mq.object_status ot_ps) (codes "id" ∷ codes "bufferpool" ∷ []))
          (mq.object_status ot_ps)
    pub amqp :
        EachKey
          (Has
            (mq.object_status ot_channel_amqp)
            (codes "name" ∷ codes "clientid" ∷ codes "connname" ∷ []))
          (mq.object_status ot_channel_amqp)
    pub mqtt :
        EachKey
          (Has
            (mq.object_status ot_channel_mqtt)
            (codes "name" ∷ codes "clientid" ∷ codes "connname" ∷ []))
          (mq.object_status ot_channel_mqtt)

  abbrev pub Metadata : Type 0
  Metadata = length c.metadata_tags_array ≤ length c.metadata_values_array

  pub meta-IsSome : (tags : Tags) → Metadata → IsSome (add_meta_labels c tags)
  unfolding add_meta_labels
  meta-IsSome tags m =
      let (tags', ran, l) =
        meta_labels_from-Labelled c.metadata_tags_array c.metadata_values_array 0 tags
          (omega (arith, m)) in
      rw ran (is tags')

  add_metric_a-IsSome :
      (series : Bytes) (attr : Attribute) (f : F) (tags : Tags)
      → Metadata
      → IsSome (add_metric_a trim_space mq c series attr f tags)
  unfolding add_metric_a
  add_metric_a-IsSome series attr f tags m =
      bind-IsSome _ (add_meta_labels c tags) (meta-IsSome tags m) (λ t. is _)

  pub numbers-IsSome :
      (series : Bytes) (ot : ObjectType) (tags_of : Bytes → Option Tags) (set : StatusSet)
      → Metadata
      → EachKey (λ key. IsSome (tags_of key)) set
      → IsSome (numbers trim_space mq c series ot tags_of set)
  unfolding numbers
  numbers-IsSome series ot tags_of set m h = each-IsSome _ set (
      All-weaken
        (λ a ha. each-IsSome _ a.1.values (
          All-weaken
            (λ v hv.
              if-IsSome v.1.is_int64 _ _
                (bind-IsSome _ (tags_of v.0) hv (λ tags. add_metric_a-IsSome series a.1 _ tags m))
                (is []))
            a.1.values ha))
        set h)

  pub named_numbers-IsSome :
      (series : Bytes) (ot : ObjectType) (tags_of : Bytes → Option Tags) (set : StatusSet)
      → Metadata
      → EachKey (λ key. IsSome (tags_of key)) set
      → IsSome (named_numbers trim_space mq c series ot tags_of set)
  unfolding named_numbers
  named_numbers-IsSome series ot tags_of set m h = each-IsSome _ set (
      All-weaken
        (λ a ha. each-IsSome _ a.1.values (
          All-weaken
            (λ v hv. bind-IsSome _ (tags_of v.0) hv (λ tags.
              if-IsSome (v.1.is_int64 && not a.1.pseudo) _ _
                (add_metric_a-IsSome series a.1 _ tags m) (is [])))
            a.1.values ha))
        set h)

  pub topic_tags-IsSome :
      (key : Bytes)
      → Has (mq.object_status ot_topic) (codes "name" ∷ codes "type" ∷ []) key
      → IsSome (topic_tags trim_space mq c key)
  unfolding topic_tags
  topic_tags-IsSome key h =
      bind-IsSome _ (text_of (mq.object_status ot_topic) (codes "name") key)
        (text-IsSome (mq.object_status ot_topic) (codes "name") key h.0)
        (λ a.
          bind-IsSome _ (text_of (mq.object_status ot_topic) (codes "type") key)
            (text-IsSome (mq.object_status ot_topic) (codes "type") key h.1.0) (λ a. is _))

  pub channel_tags-IsSome :
      (key : Bytes)
      → Named
      → Has
          (mq.object_status ot_channel)
          (codes "type" ∷ codes "name" ∷ codes "connname" ∷ codes "jobname" ∷ [])
          key
      → IsSome (channel_tags trim_space mq c key)
  unfolding channel_tags
  channel_tags-IsSome key n h =
      bind-IsSome _ (required (codes "type") key (mq.object_status ot_channel)) (h.0) (λ a.
        bind-IsSome _ (text_or [] (mq.object_status ot_channel) (codes "rqmname") key)
          (text_or-IsSome [] (mq.object_status ot_channel) (codes "rqmname") key n.rqmname)
          (λ a.
            bind-IsSome _ (text_of (mq.object_status ot_channel) (codes "name") key)
              (text-IsSome (mq.object_status ot_channel) (codes "name") key h.1.0)
              (λ a.
                bind-IsSome _ (text_of (mq.object_status ot_channel) (codes "connname") key)
                  (text-IsSome (mq.object_status ot_channel) (codes "connname") key h.1.1.0)
                  (λ a.
                    bind-IsSome _ (text_of (mq.object_status ot_channel) (codes "jobname") key)
                      (text-IsSome (mq.object_status ot_channel) (codes "jobname") key h.1.1.1.0)
                      (λ a.
                        bind-IsSome _
                          (text_or (codes "-") (mq.object_status ot_channel) (codes "sslciph") key)
                          (text_or-IsSome (codes "-") (mq.object_status ot_channel)
                            (codes "sslciph") key n.sslciph)
                          (λ a. is _))))))

  pub sub_tags-IsSome :
      (key : Bytes)
      → Has
          (mq.object_status ot_sub)
          (codes "subid" ∷ codes "name" ∷ codes "type" ∷ codes "topic" ∷ [])
          key
      → IsSome (sub_tags trim_space mq c key)
  unfolding sub_tags
  sub_tags-IsSome key h =
      bind-IsSome _ (text_of (mq.object_status ot_sub) (codes "subid") key)
        (text-IsSome (mq.object_status ot_sub) (codes "subid") key h.0)
        (λ a.
          bind-IsSome _ (text_of (mq.object_status ot_sub) (codes "name") key)
            (text-IsSome (mq.object_status ot_sub) (codes "name") key h.1.0)
            (λ a.
              bind-IsSome _ (required (codes "type") key (mq.object_status ot_sub)) (h.1.1.0) (λ a.
                bind-IsSome _ (text_of (mq.object_status ot_sub) (codes "topic") key)
                  (text-IsSome (mq.object_status ot_sub) (codes "topic") key h.1.1.1.0)
                  (λ a. is _))))

  pub cluster_tags-IsSome :
      (key : Bytes)
      → Has (mq.object_status ot_cluster) (codes "name" ∷ codes "qmtype" ∷ []) key
      → IsSome (cluster_tags trim_space mq c key)
  unfolding cluster_tags
  cluster_tags-IsSome key h =
      bind-IsSome _ (text_of (mq.object_status ot_cluster) (codes "name") key)
        (text-IsSome (mq.object_status ot_cluster) (codes "name") key h.0)
        (λ a.
          bind-IsSome _ (required (codes "qmtype") key (mq.object_status ot_cluster)) (h.1.0)
            (λ a. is _))

  pub bufferpool_tags-IsSome :
      (key : Bytes)
      → Has (mq.object_status ot_bp) (codes "id" ∷ codes "location" ∷ codes "pageclass" ∷ []) key
      → IsSome (bufferpool_tags trim_space mq c key)
  unfolding bufferpool_tags
  bufferpool_tags-IsSome key h =
      bind-IsSome _ (text_of (mq.object_status ot_bp) (codes "id") key)
        (text-IsSome (mq.object_status ot_bp) (codes "id") key h.0)
        (λ a.
          bind-IsSome _ (text_of (mq.object_status ot_bp) (codes "location") key)
            (text-IsSome (mq.object_status ot_bp) (codes "location") key h.1.0)
            (λ a.
              bind-IsSome _ (text_of (mq.object_status ot_bp) (codes "pageclass") key)
                (text-IsSome (mq.object_status ot_bp) (codes "pageclass") key h.1.1.0) (λ a. is _)))

  pub pageset_tags-IsSome :
      (key : Bytes)
      → Has (mq.object_status ot_ps) (codes "id" ∷ codes "bufferpool" ∷ []) key
      → IsSome (pageset_tags trim_space mq c key)
  unfolding pageset_tags
  pageset_tags-IsSome key h =
      bind-IsSome _ (text_of (mq.object_status ot_ps) (codes "id") key)
        (text-IsSome (mq.object_status ot_ps) (codes "id") key h.0)
        (λ a.
          bind-IsSome _ (text_of (mq.object_status ot_ps) (codes "bufferpool") key)
            (text-IsSome (mq.object_status ot_ps) (codes "bufferpool") key h.1.0) (λ a. is _))

  pub client_tags-IsSome :
      (ot : ObjectType) (key : Bytes)
      → Has (mq.object_status ot) (codes "name" ∷ codes "clientid" ∷ codes "connname" ∷ []) key
      → IsSome (client_tags trim_space mq c ot key)
  unfolding client_tags
  client_tags-IsSome ot key h =
      bind-IsSome _ (text_of (mq.object_status ot) (codes "name") key)
        (text-IsSome (mq.object_status ot) (codes "name") key h.0)
        (λ a.
          bind-IsSome _ (text_of (mq.object_status ot) (codes "clientid") key)
            (text-IsSome (mq.object_status ot) (codes "clientid") key h.1.0)
            (λ a.
              bind-IsSome _ (text_of (mq.object_status ot) (codes "connname") key)
                (text-IsSome (mq.object_status ot) (codes "connname") key h.1.1.0) (λ a. is _)))

  pub queue_tags-IsSome : (name key : Bytes) → Named → IsSome (queue_tags trim_space mq c name key)
  unfolding queue_tags
  queue_tags-IsSome name key n =
      bind-IsSome _ (values_of (codes "attribute_usage") (mq.object_status ot_q)) n.usage
        (λ u. is _)
