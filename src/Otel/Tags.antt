-- ===== src/Otel/Tags.antt =====
-- cmd/mq_otel/reader.go: the tags that GetMetrics gives to the metrics of each type of object. `none`
-- is the panic on a value that mqmetric does not have.
use mq_metric_samples.Prelude.{
  Bytes, codes, bytes_eq, has_prefix, [], ◌∷◌, Option, some, lookup, insert, ◌>>=◌, if◌then◌else◌,
}
use mq_metric_samples.Prelude.Int.{pos, eqb_ℤ}
use mq_metric_samples.Amqsevtg.Values.{replace_all}
use mq_metric_samples.Config.Record.{Config}
use mq_metric_samples.Config.Verify.Steps.{str_of, bool_of}
use mq_metric_samples.Json.Labels.{Tags}
use mq_metric_samples.Mqmetric.{
  Mq, ObjectType, ot_q, ot_channel, ot_topic, ot_sub, ot_cluster, ot_q_mgr, ot_bp, ot_ps, values_of,
  text_of, text_or, usage_text, put_all, required,
}

-- `strings.TrimSpace` is an argument.
module _ {F : Type 0} (trim_space : Bytes → Bytes) (mq : Mq F) (c : Config) where
  abbrev pub q_mgr_name : Bytes
  q_mgr_name = str_of c "cm.QMgrName"

  abbrev base_tags : Tags
  base_tags = put_all ((codes "qmgr", q_mgr_name) ∷ (codes "platform", mq.platform) ∷ []) []

  abbrev trimmed_base : Tags
  trimmed_base =
      put_all ((codes "qmgr", trim_space q_mgr_name) ∷ (codes "platform", mq.platform) ∷ []) []

  unfoldable pub exporter_tags : Tags
  unfolding insert
  exporter_tags = base_tags

  -- `showAndSupportsCustomLabel` and the tag that depends on it.
  unfoldable pub put_custom : Bytes → ObjectType → Tags → Tags
  unfolding insert
  put_custom name ot tags =
      if bool_of c "cm.CC.ShowCustomAttribute"
      then insert (codes "custom") (mq.object_custom name ot) tags
      else tags

  put_host_name : Tags → Tags
  put_host_name tags =
      let hostname = mq.q_mgr_host_name q_mgr_name in
      if bytes_eq hostname (codes "-") then tags else insert (codes "hostname") hostname tags

  -- The tags of the queue manager, for its statistics and its status.
  unfoldable pub q_mgr_tags : Tags
  unfolding put_custom put_host_name
  q_mgr_tags = put_custom [] ot_q_mgr (
      put_host_name (insert (codes "description") (mq.object_description [] ot_q_mgr) trimmed_base))

  -- The tags of a queue, for what is published, its statistics and its status.
  unfoldable pub queue_tags : Bytes → Bytes → Option Tags
  unfolding put_custom usage_text
  queue_tags name key = values_of (codes "attribute_usage") (mq.object_status ot_q) >>= λ usages.
      some (
        put_custom key ot_q (
          put_all
            ((codes "queue", name)
              ∷ (codes "usage", usage_text (lookup key usages))
              ∷ (codes "description", mq.object_description key ot_q)
              ∷ (codes "cluster", mq.queue_cluster key)
              ∷ [])
            base_tags))

  -- The series and tags of a published metric, whose key says what it is about.
  unfoldable pub published_tags : Bytes → Option (Bytes × Tags)
  unfolding put_custom put_host_name queue_tags has_prefix
  published_tags key =
      if bytes_eq key (codes "@self")
      then some (
        codes "qmgr",
        put_custom [] ot_q_mgr (
            put_host_name (
              put_all
                ((codes "description", mq.object_description [] ot_q_mgr)
                  ∷ (codes "qmid", mq.q_mgr_identifier q_mgr_name)
                  ∷ [])
                base_tags)),
      )
      else if has_prefix key (codes "@NATIVEHA@")
      then some
          (codes "nha", insert (codes "nha") (replace_all (codes "@NATIVEHA@") [] key) base_tags)
      else queue_tags key key >>= λ tags. some (codes "queue", tags)

  unfoldable pub channel_tags : Bytes → Option Tags
  unfolding insert
  channel_tags key = required (codes "type") key (mq.object_status ot_channel) >>= λ chl_type.
      text_or [] (mq.object_status ot_channel) (codes "rqmname") key >>= λ rqm_name.
      text_of (mq.object_status ot_channel) (codes "name") key >>= λ chl_name.
      text_of (mq.object_status ot_channel) (codes "connname") key >>= λ conn_name.
      text_of (mq.object_status ot_channel) (codes "jobname") key >>= λ job_name.
      text_or (codes "-") (mq.object_status ot_channel) (codes "sslciph") key >>= λ cipher_spec.
      some (
        put_all
          ((codes "channel", chl_name)
            ∷ (
              codes "type",
              trim_space
                  (replace_all (codes "MQCHT_") [] (mq.channel_type_name chl_type.value_int64)),
            )
            ∷ (codes "rqmname", trim_space rqm_name)
            ∷ (codes "connname", trim_space conn_name)
            ∷ (codes "jobname", trim_space job_name)
            ∷ (codes "sslciph", trim_space cipher_spec)
            ∷ [])
          base_tags)

  unfoldable pub topic_tags : Bytes → Option Tags
  unfolding insert
  topic_tags key = text_of (mq.object_status ot_topic) (codes "name") key >>= λ topic_string.
      text_of (mq.object_status ot_topic) (codes "type") key >>= λ status_type.
      some (put_all ((codes "topic", topic_string) ∷ (codes "type", status_type) ∷ []) base_tags)

  unfoldable pub sub_tags : Bytes → Option Tags
  unfolding insert
  sub_tags key = text_of (mq.object_status ot_sub) (codes "subid") key >>= λ sub_id.
      text_of (mq.object_status ot_sub) (codes "name") key >>= λ sub_name.
      required (codes "type") key (mq.object_status ot_sub) >>= λ sub_type.
      text_of (mq.object_status ot_sub) (codes "topic") key >>= λ topic_string. some (
        put_all
          ((
            codes "type",
            replace_all (codes "MQSUBTYPE_") [] (mq.sub_type_name sub_type.value_int64),
          )
            ∷ (codes "subid", sub_id)
            ∷ (codes "subscription", sub_name)
            ∷ (codes "topic", topic_string)
            ∷ [])
          base_tags)

  unfoldable pub cluster_tags : Bytes → Option Tags
  unfolding insert
  cluster_tags key = text_of (mq.object_status ot_cluster) (codes "name") key >>= λ cluster_name.
      required (codes "qmtype") key (mq.object_status ot_cluster) >>= λ qm_type. some (
        put_all
          ((codes "cluster", cluster_name)
            ∷ (
              codes "qmtype",
              if eqb_ℤ qm_type.value_int64 (pos 1) then codes "FULL" else codes "PARTIAL",
            )
            ∷ [])
          base_tags)

  unfoldable pub bufferpool_tags : Bytes → Option Tags
  unfolding insert
  bufferpool_tags key = text_of (mq.object_status ot_bp) (codes "id") key >>= λ bp_id.
      text_of (mq.object_status ot_bp) (codes "location") key >>= λ bp_location.
      text_of (mq.object_status ot_bp) (codes "pageclass") key >>= λ bp_class. some (
        put_all
          ((codes "bufferpool", bp_id)
            ∷ (codes "location", bp_location)
            ∷ (codes "pageclass", bp_class)
            ∷ [])
          trimmed_base)

  unfoldable pub pageset_tags : Bytes → Option Tags
  unfolding insert
  pageset_tags key = text_of (mq.object_status ot_ps) (codes "id") key >>= λ ps_id.
      text_of (mq.object_status ot_ps) (codes "bufferpool") key >>= λ bp_id.
      some (put_all ((codes "pageset", ps_id) ∷ (codes "bufferpool", bp_id) ∷ []) trimmed_base)

  -- The channels of the AMQP and of the MQTT service, which differ in their type only.
  unfoldable pub client_tags : ObjectType → Bytes → Option Tags
  unfolding insert
  client_tags ot key = text_of (mq.object_status ot) (codes "name") key >>= λ chl_name.
      text_of (mq.object_status ot) (codes "clientid") key >>= λ client_id.
      text_of (mq.object_status ot) (codes "connname") key >>= λ conn_name. some (
        put_all
          ((codes "channel", chl_name)
            ∷ (codes "description", mq.object_description chl_name ot)
            ∷ (codes "connname", trim_space conn_name)
            ∷ (codes "clientid", client_id)
            ∷ [])
          trimmed_base)
