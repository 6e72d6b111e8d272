-- ===== src/Config/Yaml/Types.antt =====
-- pkg/config/configyaml.go: the structures that the YAML package fills. MetadataMap is the list of
-- its pairs in the order in which Go happens to range over it.
use mq_metric_samples.Prelude.{Bytes, List}

pub record ConfigYGlobal : Type 0 where
  pub use_object_status : Bytes
  pub use_reset_q_stats : Bytes
  pub use_publications : Bytes
  pub use_statistics : Bytes
  pub log_level : Bytes
  pub meta_prefix : Bytes
  pub poll_interval : Bytes
  pub rediscover_interval : Bytes
  pub tz_offset : Bytes
  pub locale : Bytes

pub record ConfigYConnection : Type 0 where
  pub queue_manager : Bytes
  pub user : Bytes
  pub client : Bytes
  pub password : Bytes
  pub password_file : Bytes
  pub reply_queue : Bytes
  pub reply_queue2 : Bytes
  pub statistics_queue : Bytes
  pub durable_sub_prefix : Bytes
  pub ccdt_url : Bytes
  pub conn_name : Bytes
  pub channel : Bytes
  pub wait_interval : Bytes
  pub metadata_tags : List Bytes
  pub metadata_values : List Bytes
  pub metadata_map : List (Bytes × Bytes)

pub record ConfigYObjects : Type 0 where
  pub queues : List Bytes
  pub channels : List Bytes
  pub amqp_channels : List Bytes
  pub mqtt_channels : List Bytes
  pub topics : List Bytes
  pub subscriptions : List Bytes
  pub queue_subscription_selector : List Bytes
  pub show_inactive_channels : Bytes

-- A YAML value behind `interface{}`, as far as the code tells them apart.
mutual
  pub data Yaml : Type 0 where
    null : Yaml
    text : Bytes → Yaml
    seq : YamlItems → Yaml
    mapping : YamlPairs → Yaml
    other : Yaml

  pub data YamlItems : Type 0 where
    no_items : YamlItems
    item : Yaml → YamlItems → YamlItems

  pub data YamlPairs : Type 0 where
    no_pairs : YamlPairs
    pair : Yaml → Yaml → YamlPairs → YamlPairs

pub record ConfigYFilters : Type 0 where
  pub hide_svr_conn_jobname : Bytes
  pub hide_amqp_client_id : Bytes
  pub hide_mqtt_client_id : Bytes
  pub show_inactive_channels : Bytes
  pub show_custom_attribute : Bytes
  pub show_unknown_since : Bytes
  pub queue_subscription_selector : List Bytes
  pub metric_include : Yaml
  pub metric_exclude : Yaml
