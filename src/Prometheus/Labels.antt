-- ===== src/Prometheus/Labels.antt =====
-- cmd/mq_prometheus/exporter.go, Collect: the labels for the values of each type of object, before
-- addMetaLabels. `none` is the panic on a value that mqmetric does not have.
pub mod Cover
pub mod Match
pub mod Accepted
pub mod Published
use mq_metric_samples.Prelude.{
  Bytes, codes, is_empty, bytes_eq, has_prefix, [], ◌∷◌, Bool, Option, none, some, lookup, insert,
  ◌>>=◌, if◌then◌else◌,
}
use mq_metric_samples.Prelude.Int.{pos, eqb_ℤ}
use mq_metric_samples.Amqsevtg.Values.{replace_all}
use mq_metric_samples.Config.Record.{Config}
use mq_metric_samples.Config.Verify.Steps.{str_of, bool_of}
use mq_metric_samples.Json.Labels.{Tags}
use mq_metric_samples.Mqmetric.{
  Value, Mq, StatusSet, ObjectType, ot_q, ot_channel, ot_topic, ot_sub, ot_cluster, ot_q_mgr, ot_bp,
  ot_ps, values_of, required, text_of, text_or, usage_text, put_all,
}

-- What becomes of a value: labels, or, for a queue whose usage is not known yet, nothing.
pub data Labelling : Type 0 where
  labelled : Tags → Labelling
  left_out : Labelling

-- `strings.TrimSpace` is an argument; `hostname_label` is what supportsHostnameLabel has found out.
module _ {F : Type 0} (trim_space : Bytes → Bytes) (mq : Mq F) (c : Config)
    (hostname_label : Bool) where
  abbrev q_mgr_name : Bytes
  q_mgr_name = str_of c "cm.QMgrName"

  unfoldable pub with_custom : Bytes → ObjectType → Tags → Tags
  unfolding insert
  with_custom name ot labels =
      if bool_of c "cm.CC.ShowCustomAttribute"
      then insert (codes "custom") (mq.object_custom name ot) labels
      else labels

  unfoldable pub with_hostname : Bytes → Tags → Tags
  unfolding insert
  with_hostname hostname labels =
      if hostname_label then insert (codes "hostname") hostname labels else labels

  -- The labels of the queue manager, under the name that is given and with the host name.
  unfoldable pub q_mgr_labels : Bytes → Bytes → Tags
  unfolding with_custom with_hostname insert
  q_mgr_labels name hostname = with_custom [] ot_q_mgr (
      with_hostname hostname (
        put_all
          ((codes "qmgr", name)
            ∷ (codes "platform", mq.platform)
            ∷ (codes "description", mq.object_description [] ot_q_mgr)
            ∷ (codes "qmid", mq.q_mgr_identifier q_mgr_name)
            ∷ [])
          []))

  -- The labels of the one metric that is reported while there is no connection.
  unfoldable pub disconnected_labels : Bytes → Tags
  unfolding q_mgr_labels
  disconnected_labels last_hostname =
      q_mgr_labels (trim_space q_mgr_name)
        (if is_empty last_hostname then codes "-" else last_hostname)

  -- The labels of a queue with the names that its block gives.
  unfoldable pub queue_labels_as : Bytes → Bytes → Bytes → Labelling
  unfolding with_custom insert
  queue_labels_as q_mgr q_name usage =
      if is_empty usage
      then left_out
      else labelled (
          with_custom q_name ot_q (
            put_all
              ((codes "qmgr", q_mgr)
                ∷ (codes "platform", mq.platform)
                ∷ (codes "usage", usage)
                ∷ (codes "description", mq.object_description q_name ot_q)
                ∷ (codes "cluster", mq.queue_cluster q_name)
                ∷ (codes "queue", q_name)
                ∷ [])
              []))

  unfoldable pub usage_of : Bytes → Option Bytes
  unfolding usage_text
  usage_of key = values_of (codes "attribute_usage") (mq.object_status ot_q) >>= λ usages.
      some (usage_text (lookup key usages))

  -- A queue of the status or of the statistics, which the set tells apart.
  unfoldable pub queue_labels : StatusSet → Bytes → Option Labelling
  unfolding queue_labels_as usage_of
  queue_labels set key = text_of set (codes "name") key >>= λ q_name.
      usage_of key >>= λ usage. some (queue_labels_as (trim_space q_mgr_name) q_name usage)

  unfoldable pub nha_labels : Bytes → Tags
  unfolding insert
  nha_labels key =
      put_all
        ((codes "qmgr", q_mgr_name)
          ∷ (codes "nha", replace_all (codes "@NATIVEHA@") [] key)
          ∷ (codes "platform", mq.platform)
          ∷ [])
        []

  -- The labels of a published value, by its key.
  unfoldable pub published_labels : Bytes → Option Labelling
  unfolding q_mgr_labels nha_labels queue_labels_as usage_of
  published_labels key =
      if bytes_eq key (codes "@self")
      then some (labelled (q_mgr_labels q_mgr_name (mq.q_mgr_host_name q_mgr_name)))
      else if has_prefix key (codes "@NATIVEHA@")
      then some (labelled (nha_labels key))
      else usage_of key >>= λ usage. some (queue_labels_as q_mgr_name key usage)

  abbrev base : Tags
  base = put_all ((codes "qmgr", trim_space q_mgr_name) ∷ (codes "platform", mq.platform) ∷ []) []

  unfoldable pub channel_labels : Bytes → Option Tags
  unfolding insert
  channel_labels key =
      let set = mq.object_status ot_channel in
      required (codes "type") key set >>= λ chl_type.
      text_or (codes "-") set (codes "rqmname") key >>= λ rqm_name.
      text_of set (codes "name") key >>= λ chl_name.
      text_of set (codes "connname") key >>= λ conn_name.
      text_of set (codes "jobname") key >>= λ job_name.
      text_or (codes "-") set (codes "sslciph") key >>= λ cipher_spec. some (
        put_all
          ((codes "channel", chl_name)
            ∷ (codes "description", mq.object_description chl_name ot_channel)
            ∷ (
              codes "type",
              trim_space
                  (replace_all (codes "MQCHT_") [] (mq.channel_type_name chl_type.value_int64)),
            )
            ∷ (codes "rqmname", trim_space rqm_name)
            ∷ (codes "connname", trim_space conn_name)
            ∷ (codes "jobname", trim_space job_name)
            ∷ (codes "sslciph", trim_space cipher_spec)
            ∷ [])
          base)

  unfoldable pub topic_labels : Bytes → Option Tags
  unfolding insert
  topic_labels key =
      let set = mq.object_status ot_topic in
      text_of set (codes "name") key >>= λ topic_string.
      text_of set (codes "type") key >>= λ topic_type.
      some (put_all ((codes "type", topic_type) ∷ (codes "topic", topic_string) ∷ []) base)

  unfoldable pub sub_labels : Bytes → Option Tags
  unfolding insert
  sub_labels key =
      let set = mq.object_status ot_sub in
      text_of set (codes "subid") key >>= λ sub_id. text_of set (codes "name") key >>= λ sub_name.
      required (codes "type") key set >>= λ sub_type.
      text_of set (codes "topic") key >>= λ topic_string. some (
        put_all
          ((codes "subid", sub_id)
            ∷ (codes "subscription", sub_name)
            ∷ (
              codes "type",
              replace_all (codes "MQSUBTYPE_") [] (mq.sub_type_name sub_type.value_int64),
            )
            ∷ (codes "topic", topic_string)
            ∷ [])
          base)

  q_mgr_type_text : Option Value → Bytes
  q_mgr_type_text none = codes "PARTIAL"
  q_mgr_type_text (some v) = if eqb_ℤ v.value_int64 (pos 1) then codes "FULL" else codes "PARTIAL"

  unfoldable pub cluster_labels : Bytes → Option Tags
  unfolding insert q_mgr_type_text
  cluster_labels key =
      let set = mq.object_status ot_cluster in
      text_or [] set (codes "name") key >>= λ cluster_name.
      values_of (codes "qmtype") set >>= λ types. some (
        put_all
          ((codes "cluster", cluster_name)
            ∷ (codes "qmtype", q_mgr_type_text (lookup key types))
            ∷ [])
          base)

  unfoldable pub bufferpool_labels : Bytes → Option Tags
  unfolding insert
  bufferpool_labels key =
      let set = mq.object_status ot_bp in
      text_of set (codes "id") key >>= λ bp_id.
      text_of set (codes "location") key >>= λ bp_location.
      text_of set (codes "pageclass") key >>= λ bp_class. some (
        put_all
          ((codes "bufferpool", bp_id)
            ∷ (codes "location", bp_location)
            ∷ (codes "pageclass", bp_class)
            ∷ [])
          base)

  unfoldable pub pageset_labels : Bytes → Option Tags
  unfolding insert
  pageset_labels key =
      let set = mq.object_status ot_ps in
      text_of set (codes "id") key >>= λ ps_id. text_of set (codes "bufferpool") key >>= λ bp_id.
      some (put_all ((codes "pageset", ps_id) ∷ (codes "bufferpool", bp_id) ∷ []) base)

  -- The channels of the AMQP and of the MQTT service.
  unfoldable pub client_labels : ObjectType → Bytes → Option Tags
  unfolding insert
  client_labels ot key =
      let set = mq.object_status ot in
      text_of set (codes "name") key >>= λ chl_name.
      text_of set (codes "clientid") key >>= λ client_id.
      text_of set (codes "connname") key >>= λ conn_name. some (
        put_all
          ((codes "channel", chl_name)
            ∷ (codes "description", mq.object_description chl_name ot)
            ∷ (codes "clientid", client_id)
            ∷ (codes "connname", trim_space conn_name)
            ∷ [])
          base)
