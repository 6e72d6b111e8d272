-- ===== src/Json/Points/Blocks.antt =====
-- cmd/mq_json/exporter.go, Collect: the keys and the tags of the points, for each type of object.
use mq_metric_samples.Prelude.{
  Bytes, codes, [], ◌∷◌, ◌++◌, Option, none, some, ◌>>=◌, bytes_eq, lookup, insert, if◌then◌else◌,
}
use mq_metric_samples.Prelude.Int.{pos, eqb_ℤ}
use mq_metric_samples.Amqsevtg.Values.{replace_all}
use mq_metric_samples.Config.Record.{Config}
use mq_metric_samples.Config.Verify.Steps.{str_of, bool_of}
use mq_metric_samples.Json.Labels.{Tags}
use mq_metric_samples.Mqmetric.{
  Mq, ObjectType, ot_q, ot_channel, ot_topic, ot_sub, ot_cluster, ot_q_mgr, ot_bp, ot_ps,
  ot_channel_amqp, ot_channel_mqtt, required, text_of, text_or, values_of, usage_text, put_all,
}
use mq_metric_samples.Json.Points.{Described}

module _ {F : Type 0} (trim_space : Bytes → Bytes) (topic_key : Bytes → Bytes → Bytes) (mq : Mq F)
    (c : Config) where
  abbrev q_mgr_tag : Bytes
  q_mgr_tag = trim_space (str_of c "cm.QMgrName")

  unfoldable pub with_custom : Bytes → ObjectType → Tags → Tags
  unfolding insert
  with_custom name ot tags =
      if bool_of c "cm.CC.ShowCustomAttribute"
      then insert (codes "custom") (mq.object_custom name ot) tags
      else tags

  -- The usage, empty where the attribute or the queue is not known.
  unfoldable pub usage_string : Bytes → Bytes
  unfolding usage_text
  usage_string key = elim (values_of (codes "attribute_usage") (mq.object_status ot_q)) [
    | none ↦ []
    | some usages ↦ usage_text (lookup key usages)
  ]

  abbrev pub own_point : Bytes → Bytes → Tags → Described
  own_point type key tags = record {
    key1 = type ++ codes "/" ++ key;
    preferred = none;
    new_type = type;
    new_tags = tags;
  }

  abbrev pub base : Tags
  base = put_all ((codes "qmgr", q_mgr_tag) ∷ (codes "platform", mq.platform) ∷ []) []

  unfoldable pub named_queue : Bytes → Bytes → Described
  unfolding insert with_custom usage_string
  named_queue key q_name =
      record (own_point (codes "queue") q_name (
        with_custom q_name ot_q (
          put_all
            ((codes "queue", q_name)
              ∷ (codes "usage", usage_string key)
              ∷ (codes "description", mq.object_description q_name ot_q)
              ∷ (codes "cluster", mq.queue_cluster key)
              ∷ [])
            base))) { preferred = some q_name }

  unfoldable pub queue_point : Bytes → Option Described
  unfolding named_queue
  queue_point key =
      text_of (mq.object_status ot_q) (codes "name") key >>= λ q_name. some (named_queue key q_name)

  unfoldable pub put_host_name : Tags → Tags
  unfolding insert
  put_host_name tags =
      let hostname = mq.q_mgr_host_name (str_of c "cm.QMgrName") in
      if bytes_eq hostname (codes "-") then tags else insert (codes "hostname") hostname tags

  unfoldable pub q_mgr_point : Bytes → Option Described
  unfolding insert with_custom put_host_name
  q_mgr_point key = text_of (mq.object_status ot_q_mgr) (codes "name") key >>= λ q_mgr.
      some
        (record (own_point (codes "qmgr") q_mgr (
          put_host_name (
            with_custom [] ot_q_mgr (
              put_all
                ((codes "qmgr", trim_space q_mgr)
                  ∷ (codes "platform", mq.platform)
                  ∷ (codes "description", mq.object_description [] ot_q_mgr)
                  ∷ [])
                [])))) { preferred = some (codes "@self") })

  channel_point : Bytes → Option Described
  unfolding insert
  channel_point key =
      let set = mq.object_status ot_channel in
      required (codes "type") key set >>= λ chl_type.
      text_or [] set (codes "rqmname") key >>= λ rqm_name.
      text_of set (codes "name") key >>= λ chl_name.
      text_of set (codes "connname") key >>= λ conn_name.
      text_of set (codes "jobname") key >>= λ job_name.
      text_or (codes "-") set (codes "sslciph") key >>= λ cipher_spec. some (
        own_point (codes "channel")
          (chl_name ++ codes "/" ++ conn_name ++ codes "/" ++ job_name ++ codes "/" ++ rqm_name)
          (put_all
            ((codes "channel", chl_name)
              ∷ (codes "description", mq.object_description chl_name ot_channel)
              ∷ (
                codes "type",
                trim_space
                    (replace_all (codes "MQCHT_") [] (mq.channel_type_name chl_type.value_int64)),
              )
              ∷ (codes "rqmname", trim_space rqm_name)
              ∷ (codes "connname", trim_space conn_name)
              ∷ (codes "jobname", trim_space job_name)
              ∷ (codes "sslciph", trim_space cipher_spec)
              ∷ [])
            base))

  topic_point : Bytes → Option Described
  unfolding insert
  topic_point key =
      let set = mq.object_status ot_topic in
      text_of set (codes "name") key >>= λ topic_name.
      text_of set (codes "type") key >>= λ status_type. some (
        own_point (codes "topic") (topic_key topic_name status_type)
          (put_all ((codes "topic", topic_name) ∷ (codes "type", status_type) ∷ []) base))

  sub_point : Bytes → Option Described
  unfolding insert
  sub_point key =
      let set = mq.object_status ot_sub in
      text_of set (codes "subid") key >>= λ sub_id. text_of set (codes "name") key >>= λ sub_name.
      required (codes "type") key set >>= λ sub_type.
      text_of set (codes "topic") key >>= λ topic_string. some (
        own_point (codes "subscription") sub_id (
          put_all
            ((codes "subid", sub_id)
              ∷ (codes "subscription", sub_name)
              ∷ (
                codes "type",
                replace_all (codes "MQSUBTYPE_") [] (mq.sub_type_name sub_type.value_int64),
              )
              ∷ (codes "topic", topic_string)
              ∷ [])
            base))

  -- A cluster's point gets the type of a subscription.
  cluster_point : Bytes → Option Described
  unfolding insert
  cluster_point key =
      let set = mq.object_status ot_cluster in
      text_of set (codes "name") key >>= λ cluster_name.
      required (codes "qmtype") key set >>= λ qm_type.
      some
        (record (own_point (codes "cluster") cluster_name (
          put_all
            ((
              codes "qmtype",
              if eqb_ℤ qm_type.value_int64 (pos 1) then codes "FULL" else codes "PARTIAL",
            )
              ∷ (codes "cluster", cluster_name)
              ∷ [])
            base)) { new_type = codes "subscription" })

  bufferpool_point : Bytes → Option Described
  unfolding insert
  bufferpool_point key =
      let set = mq.object_status ot_bp in
      text_of set (codes "id") key >>= λ bp_id.
      text_of set (codes "location") key >>= λ bp_location.
      text_of set (codes "pageclass") key >>= λ bp_class. some (
        own_point (codes "bufferpool") bp_id (
          put_all
            ((codes "bufferpool", bp_id)
              ∷ (codes "location", bp_location)
              ∷ (codes "pageclass", bp_class)
              ∷ [])
            base))

  pageset_point : Bytes → Option Described
  unfolding insert
  pageset_point key =
      let set = mq.object_status ot_ps in
      text_of set (codes "id") key >>= λ ps_id. text_of set (codes "bufferpool") key >>= λ bp_id.
      some (
        own_point (codes "pageset") ps_id
          (put_all ((codes "pageset", ps_id) ∷ (codes "bufferpool", bp_id) ∷ []) base))

  client_point : Bytes → ObjectType → Bytes → Option Described
  unfolding insert
  client_point type ot key =
      let set = mq.object_status ot in
      text_of set (codes "name") key >>= λ chl_name.
      text_of set (codes "clientid") key >>= λ client_id.
      text_of set (codes "connname") key >>= λ conn_name. some (
        own_point type (chl_name ++ codes "/" ++ conn_name ++ codes "/" ++ client_id) (
          put_all
            ((codes "channel", chl_name)
              ∷ (codes "description", mq.object_description chl_name ot)
              ∷ (codes "connname", trim_space conn_name)
              ∷ (codes "clientid", client_id)
              ∷ [])
            base))

  unfoldable pub described : ObjectType → Bytes → Option Described
  unfolding queue_point q_mgr_point channel_point topic_point sub_point cluster_point
      bufferpool_point pageset_point client_point
  described ot_q key = queue_point key
  described ot_q_mgr key = q_mgr_point key
  described ot_channel key = channel_point key
  described ot_topic key = topic_point key
  described ot_sub key = sub_point key
  described ot_cluster key = cluster_point key
  described ot_bp key = bufferpool_point key
  described ot_ps key = pageset_point key
  described ot_channel_amqp key = client_point (codes "amqp") ot_channel_amqp key
  described ot_channel_mqtt key = client_point (codes "mqtt") ot_channel_mqtt key
