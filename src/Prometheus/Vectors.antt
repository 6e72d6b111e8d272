-- ===== src/Prometheus/Vectors.antt =====
-- cmd/mq_prometheus/exporter.go: MQVec with its methods, newMqVec, newMqVecObj and makeKey.
pub mod Keys
use mq_metric_samples.Prelude.{
  Bytes, codes, is_empty, bytes_eq, has_prefix, List, [], ◌∷◌, ◌++◌, Bool, true, ◌&&◌, Option, none,
  some, if◌then◌else◌,
}
use mq_metric_samples.Config.Record.{Config}
use mq_metric_samples.Config.Verify.Steps.{bool_of}
use mq_metric_samples.Json.Labels.{Tags}
use mq_metric_samples.Mqmetric.{
  Attribute, Element, ObjectType, ot_q, ot_channel, ot_topic, ot_sub, ot_cluster, ot_q_mgr, ot_bp,
  ot_ps, ot_channel_amqp, ot_channel_mqtt,
}

-- `MQVec`: a vector of counters or of gauges, with the value for each set of labels.
pub record MqVec (F : Type 0) : Type 0 where
  pub vec_name : Bytes
  pub help : Bytes
  pub is_counter : Bool
  pub label_names : List Bytes
  pub samples : List (Tags × F)

-- `strings.Contains`.
unfoldable pub contains_text : Bytes → Bytes → Bool
unfolding has_prefix
contains_text [] sub = is_empty sub
contains_text (c ∷ cs) sub =
    let rest = contains_text cs sub in if has_prefix (c ∷ cs) sub then true else rest

unfoldable pub make_key : Element → Bytes
make_key elem = elem.class_name ++ codes "/" ++ elem.type_name ++ codes "/" ++ elem.element_name

-- The object types as the programs name them.
unfoldable pub type_text : ObjectType → Bytes
type_text ot_q = codes "queue"
type_text ot_channel = codes "channel"
type_text ot_topic = codes "topic"
type_text ot_sub = codes "subscription"
type_text ot_cluster = codes "cluster"
type_text ot_q_mgr = codes "qmgr"
type_text ot_bp = codes "bufferpool"
type_text ot_ps = codes "pageset"
type_text ot_channel_amqp = codes "amqp"
type_text ot_channel_mqtt = codes "mqtt"

-- `hostname_label` is what supportsHostnameLabel has found out.
module _ (c : Config) (hostname_label : Bool) where
  abbrev or_custom : List Bytes
  or_custom = if bool_of c "cm.CC.ShowCustomAttribute" then codes "custom" ∷ [] else []

  abbrev q_mgr_names : List Bytes
  q_mgr_names =
      codes "qmgr"
      ∷ codes "platform"
      ∷ codes "description"
      ∷ codes "qmid"
      ∷ ((if hostname_label then codes "hostname" ∷ [] else []) ++ or_custom)

  -- The switch of newMqVecObj.
  unfoldable pub own_names : ObjectType → List Bytes
  own_names ot_q =
      codes "qmgr"
      ∷ codes "platform"
      ∷ codes "queue"
      ∷ codes "usage"
      ∷ codes "description"
      ∷ codes "cluster"
      ∷ or_custom
  own_names ot_channel =
      codes "qmgr"
      ∷ codes "platform"
      ∷ codes "channel"
      ∷ codes "description"
      ∷ codes "type"
      ∷ codes "rqmname"
      ∷ codes "connname"
      ∷ codes "jobname"
      ∷ codes "sslciph"
      ∷ []
  own_names ot_topic = codes "qmgr" ∷ codes "platform" ∷ codes "topic" ∷ codes "type" ∷ []
  own_names ot_sub =
      codes "qmgr"
      ∷ codes "platform"
      ∷ codes "subscription"
      ∷ codes "subid"
      ∷ codes "topic"
      ∷ codes "type"
      ∷ []
  own_names ot_cluster = codes "qmgr" ∷ codes "platform" ∷ codes "cluster" ∷ codes "qmtype" ∷ []
  own_names ot_q_mgr = q_mgr_names
  own_names ot_bp =
      codes "qmgr"
      ∷ codes "platform"
      ∷ codes "bufferpool"
      ∷ codes "location"
      ∷ codes "pageclass"
      ∷ []
  own_names ot_ps = codes "qmgr" ∷ codes "platform" ∷ codes "pageset" ∷ codes "bufferpool" ∷ []
  own_names ot_channel_amqp =
      codes "qmgr"
      ∷ codes "platform"
      ∷ codes "description"
      ∷ codes "channel"
      ∷ codes "clientid"
      ∷ codes "connname"
      ∷ []
  own_names ot_channel_mqtt =
      codes "qmgr"
      ∷ codes "platform"
      ∷ codes "description"
      ∷ codes "channel"
      ∷ codes "clientid"
      ∷ codes "connname"
      ∷ []

  -- The labels and the prefix that newMqVec takes from the topic of the element's type.
  unfoldable pub published_names : Bytes → List Bytes × Bytes
  unfolding contains_text
  published_names topic =
      if contains_text topic (codes "%s")
      then (if contains_text topic (codes "/NHAREPLICA/")
          then (codes "qmgr" ∷ codes "platform" ∷ codes "nha" ∷ [], codes "nha_")
          else (
            codes "queue"
                ∷ codes "qmgr"
                ∷ codes "platform"
                ∷ codes "usage"
                ∷ codes "description"
                ∷ codes "cluster"
                ∷ or_custom,
            codes "queue_",
          ))
      else (q_mgr_names, codes "qmgr_")

  module _ {F : Type 0} (override_c_type : Bool) where
    -- A queue's metric gets no second "queue_".
    unfoldable pub new_mq_vec : Element → MqVec F
    unfolding published_names
    new_mq_vec elem =
        let (labels, prefix) = published_names elem.object_topic in
        record {
          vec_name =
              if bytes_eq prefix (codes "queue_") && has_prefix elem.element_name (codes "queue_")
              then elem.element_name
              else prefix ++ elem.element_name;
          help =
              if is_empty elem.element_description_nls
              then elem.element_description
              else elem.element_description_nls;
          is_counter = override_c_type && elem.is_delta;
          label_names = labels ++ c.metadata_tags_array;
          samples = [];
        }

    unfoldable pub new_mq_vec_obj : Attribute → ObjectType → MqVec F
    unfolding own_names type_text
    new_mq_vec_obj attr ot = record {
      vec_name = type_text ot ++ codes "_" ++ attr.metric_name;
      help = attr.description;
      is_counter = override_c_type && attr.delta;
      label_names = own_names ot ++ c.metadata_tags_array;
      samples = [];
    }

-- `With(labels)`, `Set` and `Add` of the client library: `with_labels` says whether it takes the
-- labels for the names of a vector, and panics where not; `same` tells whether two sets of labels are
-- equal; `negative` tells the numbers that `Add` of a counter panics on.
module _ {F : Type 0} (with_labels : List Bytes → Tags → Bool) (same : Tags → Tags → Bool)
    (add : F → F → F) (negative : F → Bool) where
  update : (F → F) → F → Tags → List (Tags × F) → List (Tags × F)
  update f new labels [] = (labels, new) ∷ []
  update f new labels ((ls, v) ∷ ss) =
      let rest = (ls, v) ∷ update f new labels ss in if same ls labels then (ls, f v) ∷ ss else rest

  unfoldable pub updated : Tags → F → MqVec F → MqVec F
  unfolding update
  updated labels f v = record v {
    samples = update (if v.is_counter then (λ old. add old f) else (λ old. f)) f labels v.samples;
  }

  -- A gauge is set; a counter is raised, which panics on a negative number.
  unfoldable pub with_value : Tags → F → MqVec F → Option (MqVec F)
  unfolding updated
  with_value labels f v = if v.is_counter && negative f then none else some (updated labels f v)

  unfoldable pub add_metric : Tags → F → MqVec F → Option (MqVec F)
  unfolding with_value
  add_metric labels f v = if with_labels v.label_names labels then with_value labels f v else none

abbrev pub reset : {F : Type 0} → MqVec F → MqVec F
reset v = record v { samples = [] }
