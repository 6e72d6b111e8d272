-- ===== src/Prometheus/Labels/Match.antt =====
-- cmd/mq_prometheus/exporter.go: the labels of Collect against the label names of newMqVec and
-- newMqVecObj.
use mq_metric_samples.Prelude.{
  Bytes, codes, bytes_eq, Bool, true, List, [], ◌∷◌, Option, none, some, ◌>>=◌, lookup, insert, ◌≡◌,
  refl, Bool-cases, inl, inr,
}
use mq_metric_samples.Config.Record.{Config}
use mq_metric_samples.Config.Verify.Steps.{bool_of}
use mq_metric_samples.Json.Labels.{Tags}
use mq_metric_samples.Mqmetric.{
  StatusSet, Mq, ObjectType, ot_q, ot_channel, ot_topic, ot_sub, ot_cluster, ot_q_mgr, ot_bp, ot_ps,
  ot_channel_amqp, ot_channel_mqtt, text_of, text_or, required, values_of,
}
use mq_metric_samples.Prometheus.Labels.{
  Labelling, labelled, left_out, q_mgr_labels, with_custom, with_hostname, usage_of, queue_labels,
  queue_labels_as, channel_labels, topic_labels, sub_labels, cluster_labels, bufferpool_labels,
  pageset_labels, client_labels, q_mgr_name,
}
use mq_metric_samples.Prometheus.Labels.Cover.{is_exact}
use mq_metric_samples.Prometheus.Vectors.{own_names}

-- The names that the collector uses for labels itself.
abbrev pub reserved : List Bytes
reserved =
    codes "qmgr"
    ∷ codes "platform"
    ∷ codes "queue"
    ∷ codes "usage"
    ∷ codes "description"
    ∷ codes "cluster"
    ∷ codes "channel"
    ∷ codes "type"
    ∷ codes "rqmname"
    ∷ codes "connname"
    ∷ codes "jobname"
    ∷ codes "sslciph"
    ∷ codes "topic"
    ∷ codes "subscription"
    ∷ codes "subid"
    ∷ codes "qmtype"
    ∷ codes "qmid"
    ∷ codes "hostname"
    ∷ codes "custom"
    ∷ codes "bufferpool"
    ∷ codes "location"
    ∷ codes "pageclass"
    ∷ codes "pageset"
    ∷ codes "clientid"
    ∷ codes "nha"
    ∷ []

-- A property of what a computation that may panic gives.
pub data Holds {ℓ} {A : Type ℓ} (P : A → Type 0) : Option A → Type ℓ where
  panics : Holds P none
  gives : {a : A} → P a → Holds P (some a)

pub Holds-bind {ℓ κ} :
    {A : Type ℓ} {B : Type κ} (P : B → Type 0) (f : A → Option B) (m : Option A)
    → ((a : A) → Holds P (f a))
    → Holds P (m >>= f)
Holds-bind P f none h = panics
Holds-bind P f (some a) h = h a

module _ {F : Type 0} (trim_space : Bytes → Bytes) (mq : Mq F) (c : Config)
    (hostname_label : Bool) where
  abbrev all_labelled : Option Tags → Option Labelling
  all_labelled o = o >>= λ labels. some (labelled labels)

  -- The labels of the blocks for the status of each type of object.
  unfoldable pub labels_of : ObjectType → Bytes → Option Labelling
  unfolding q_mgr_labels queue_labels channel_labels topic_labels sub_labels cluster_labels
      bufferpool_labels pageset_labels client_labels
  labels_of ot_q key = queue_labels trim_space mq c hostname_label (mq.object_status ot_q) key
  labels_of ot_q_mgr key = some (
      labelled (
        q_mgr_labels trim_space mq c hostname_label
          (trim_space (q_mgr_name trim_space mq c hostname_label))
          (mq.q_mgr_host_name (q_mgr_name trim_space mq c hostname_label))))
  labels_of ot_channel key = all_labelled (channel_labels trim_space mq c hostname_label key)
  labels_of ot_topic key = all_labelled (topic_labels trim_space mq c hostname_label key)
  labels_of ot_sub key = all_labelled (sub_labels trim_space mq c hostname_label key)
  labels_of ot_cluster key = all_labelled (cluster_labels trim_space mq c hostname_label key)
  labels_of ot_bp key = all_labelled (bufferpool_labels trim_space mq c hostname_label key)
  labels_of ot_ps key = all_labelled (pageset_labels trim_space mq c hostname_label key)
  labels_of ot_channel_amqp key =
      all_labelled (client_labels trim_space mq c hostname_label ot_channel_amqp key)
  labels_of ot_channel_mqtt key =
      all_labelled (client_labels trim_space mq c hostname_label ot_channel_mqtt key)

  abbrev pub Exact : ObjectType → Tags → Type 0
  Exact ot labels = is_exact reserved (own_names c hostname_label ot) labels ≡ true

  abbrev pub ExactOf : ObjectType → Labelling → Type 0
  ExactOf ot (labelled labels) = Exact ot labels
  ExactOf ot left_out = Unit

  topic-Exact :
      (key : Bytes) → Holds (Exact ot_topic) (topic_labels trim_space mq c hostname_label key)
  unfolding topic_labels own_names lookup bytes_eq insert
  topic-Exact key = Holds-bind _ _ (text_of (mq.object_status ot_topic) (codes "name") key) (λ a.
      Holds-bind _ _ (text_of (mq.object_status ot_topic) (codes "type") key) (λ a. gives refl))

  channel-Exact :
      (key : Bytes) → Holds (Exact ot_channel) (channel_labels trim_space mq c hostname_label key)
  unfolding channel_labels own_names lookup bytes_eq insert
  channel-Exact key =
      Holds-bind _ _ (required (codes "type") key (mq.object_status ot_channel)) (λ a.
        Holds-bind _ _ (text_or (codes "-") (mq.object_status ot_channel) (codes "rqmname") key)
          (λ a. Holds-bind _ _ (text_of (mq.object_status ot_channel) (codes "name") key) (λ a.
            Holds-bind _ _ (text_of (mq.object_status ot_channel) (codes "connname") key) (λ a.
              Holds-bind _ _ (text_of (mq.object_status ot_channel) (codes "jobname") key) (λ a.
                Holds-bind _ _
                  (text_or (codes "-") (mq.object_status ot_channel) (codes "sslciph") key)
                  (λ a. gives refl))))))

  sub-Exact : (key : Bytes) → Holds (Exact ot_sub) (sub_labels trim_space mq c hostname_label key)
  unfolding sub_labels own_names lookup bytes_eq insert
  sub-Exact key = Holds-bind _ _ (text_of (mq.object_status ot_sub) (codes "subid") key) (λ a.
      Holds-bind _ _ (text_of (mq.object_status ot_sub) (codes "name") key) (λ a.
        Holds-bind _ _ (required (codes "type") key (mq.object_status ot_sub)) (λ a.
          Holds-bind _ _ (text_of (mq.object_status ot_sub) (codes "topic") key)
            (λ a. gives refl))))

  cluster-Exact :
      (key : Bytes) → Holds (Exact ot_cluster) (cluster_labels trim_space mq c hostname_label key)
  unfolding cluster_labels own_names lookup bytes_eq insert
  cluster-Exact key =
      Holds-bind _ _ (text_or [] (mq.object_status ot_cluster) (codes "name") key) (λ a.
        Holds-bind _ _ (values_of (codes "qmtype") (mq.object_status ot_cluster)) (λ a. gives refl))

  bufferpool-Exact :
      (key : Bytes) → Holds (Exact ot_bp) (bufferpool_labels trim_space mq c hostname_label key)
  unfolding bufferpool_labels own_names lookup bytes_eq insert
  bufferpool-Exact key = Holds-bind _ _ (text_of (mq.object_status ot_bp) (codes "id") key) (λ a.
      Holds-bind _ _ (text_of (mq.object_status ot_bp) (codes "location") key) (λ a.
        Holds-bind _ _ (text_of (mq.object_status ot_bp) (codes "pageclass") key)
          (λ a. gives refl)))

  pageset-Exact :
      (key : Bytes) → Holds (Exact ot_ps) (pageset_labels trim_space mq c hostname_label key)
  unfolding pageset_labels own_names lookup bytes_eq insert
  pageset-Exact key = Holds-bind _ _ (text_of (mq.object_status ot_ps) (codes "id") key) (λ a.
      Holds-bind _ _ (text_of (mq.object_status ot_ps) (codes "bufferpool") key) (λ a. gives refl))

  amqp-Exact :
      (key : Bytes)
      → Holds
          (Exact ot_channel_amqp)
          (client_labels trim_space mq c hostname_label ot_channel_amqp key)
  unfolding client_labels own_names lookup bytes_eq insert
  amqp-Exact key =
      Holds-bind _ _ (text_of (mq.object_status ot_channel_amqp) (codes "name") key) (λ a.
        Holds-bind _ _ (text_of (mq.object_status ot_channel_amqp) (codes "clientid") key) (λ a.
          Holds-bind _ _ (text_of (mq.object_status ot_channel_amqp) (codes "connname") key)
            (λ a. gives refl)))

  mqtt-Exact :
      (key : Bytes)
      → Holds
          (Exact ot_channel_mqtt)
          (client_labels trim_space mq c hostname_label ot_channel_mqtt key)
  unfolding client_labels own_names lookup bytes_eq insert
  mqtt-Exact key =
      Holds-bind _ _ (text_of (mq.object_status ot_channel_mqtt) (codes "name") key) (λ a.
        Holds-bind _ _ (text_of (mq.object_status ot_channel_mqtt) (codes "clientid") key) (λ a.
          Holds-bind _ _ (text_of (mq.object_status ot_channel_mqtt) (codes "connname") key)
            (λ a. gives refl)))

  pub q_mgr-Exact :
      (name hostname : Bytes)
      → Exact ot_q_mgr (q_mgr_labels trim_space mq c hostname_label name hostname)
  unfolding q_mgr_labels with_custom with_hostname own_names lookup bytes_eq insert
  q_mgr-Exact name hostname = elim (Bool-cases hostname_label) [
    | inl host ↦ elim (Bool-cases (bool_of c "cm.CC.ShowCustomAttribute")) [
      | inl custom ↦ rw host (rw custom refl)
      | inr plain ↦ rw host (rw plain refl)
    ]
    | inr no_host ↦ elim (Bool-cases (bool_of c "cm.CC.ShowCustomAttribute")) [
      | inl custom ↦ rw no_host (rw custom refl)
      | inr plain ↦ rw no_host (rw plain refl)
    ]
  ]

  queue_as-Exact :
      (q_mgr name usage : Bytes)
      → ExactOf ot_q (queue_labels_as trim_space mq c hostname_label q_mgr name usage)
  unfolding queue_labels_as with_custom own_names lookup bytes_eq insert
  queue_as-Exact q_mgr name [] = tt
  queue_as-Exact q_mgr name (u ∷ us) = elim (Bool-cases (bool_of c "cm.CC.ShowCustomAttribute")) [
    | inl custom ↦ rw custom refl
    | inr plain ↦ rw plain refl
  ]

  labelled-Exact :
      (ot : ObjectType) (o : Option Tags) → Holds (Exact ot) o → Holds (ExactOf ot) (all_labelled o)
  labelled-Exact ot none panics = panics
  labelled-Exact ot (some labels) (gives e) = gives e

  pub queue-Exact :
      (set : StatusSet) (key : Bytes)
      → Holds (ExactOf ot_q) (queue_labels trim_space mq c hostname_label set key)
  unfolding queue_labels
  queue-Exact set key = Holds-bind _ _ (text_of set (codes "name") key) (λ name.
      Holds-bind _ _ (usage_of trim_space mq c hostname_label key) (λ usage.
        gives (queue_as-Exact (trim_space (q_mgr_name trim_space mq c hostname_label)) name usage)))

  -- The labels of a status block have the names that newMqVecObj gives to the type.
  pub labels_of-Exact : (ot : ObjectType) (key : Bytes) → Holds (ExactOf ot) (labels_of ot key)
  unfolding labels_of
  labels_of-Exact ot_q key = queue-Exact (mq.object_status ot_q) key
  labels_of-Exact ot_q_mgr key = gives (q_mgr-Exact _ _)
  labels_of-Exact ot_channel key = labelled-Exact ot_channel _ (channel-Exact key)
  labels_of-Exact ot_topic key = labelled-Exact ot_topic _ (topic-Exact key)
  labels_of-Exact ot_sub key = labelled-Exact ot_sub _ (sub-Exact key)
  labels_of-Exact ot_cluster key = labelled-Exact ot_cluster _ (cluster-Exact key)
  labels_of-Exact ot_bp key = labelled-Exact ot_bp _ (bufferpool-Exact key)
  labels_of-Exact ot_ps key = labelled-Exact ot_ps _ (pageset-Exact key)
  labels_of-Exact ot_channel_amqp key = labelled-Exact ot_channel_amqp _ (amqp-Exact key)
  labels_of-Exact ot_channel_mqtt key = labelled-Exact ot_channel_mqtt _ (mqtt-Exact key)
