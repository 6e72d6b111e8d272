-- ===== src/Otel/Reports.antt =====
-- cmd/mq_otel/reader.go: the loops of GetMetrics over the attributes and their values, each with the
-- calls of addMetric that it makes, in order. `none` is a panic.
pub mod Given
pub mod Total
pub mod Complete
use mq_metric_samples.Prelude.{
  Bytes, codes, false, not, ◌&&◌, List, [], ◌∷◌, ◌++◌, Option, some, ◌>>=◌, if◌then◌else◌, String,
}
use mq_metric_samples.Config.Record.{Config}
use mq_metric_samples.Config.Verify.Steps.{bool_of}
use mq_metric_samples.Json.Labels.{Tags, add_meta_labels}
use mq_metric_samples.Mqmetric.{
  Value, Attribute, StatusSet, Element, Mq, ObjectType, ot_q, ot_channel, ot_topic, ot_sub,
  ot_cluster, ot_q_mgr, ot_bp, ot_ps, ot_channel_amqp, ot_channel_mqtt, required, each,
}
use mq_metric_samples.Otel.Gauges.{Report}
use mq_metric_samples.Otel.Tags.{
  exporter_tags, q_mgr_tags, queue_tags, published_tags, channel_tags, topic_tags, sub_tags,
  cluster_tags, bufferpool_tags, pageset_tags, client_tags,
}

module _ {F : Type 0} (trim_space : Bytes → Bytes) (mq : Mq F) (c : Config) where
  abbrev Reports : Type 0
  Reports = Option (List (Report F))

  -- addMetricA, with the tags after addMetaLabels.
  unfoldable pub add_metric_a : Bytes → Attribute → F → Tags → Reports
  unfolding add_meta_labels
  add_metric_a series attr f tags = add_meta_labels c tags >>= λ labelled. some (
      record {
        series = series;
        report_name = attr.metric_name;
        report_description = attr.description;
        cumul = attr.delta;
        value = f;
        tags = labelled;
      }
      ∷ [])

  -- addMetricE, likewise.
  unfoldable pub add_metric_e : Bytes → Element → F → Tags → Reports
  unfolding add_meta_labels
  add_metric_e series elem f tags = add_meta_labels c tags >>= λ labelled. some (
      record {
        series = series;
        report_name = elem.element_name;
        report_description = elem.element_description;
        cumul = elem.is_delta;
        value = f;
        tags = labelled;
      }
      ∷ [])

  -- A metric of the collector itself.
  unfoldable pub own_metric : String → String → F → Reports
  unfolding exporter_tags add_meta_labels
  own_metric name description f = add_meta_labels c (exporter_tags trim_space mq c) >>= λ labelled.
      some (
        record {
          series = codes "qmgr";
          report_name = codes name;
          report_description = codes description;
          cumul = false;
          value = f;
          tags = labelled;
        }
        ∷ [])

  unfoldable pub publication_reports : Reports
  unfolding published_tags add_metric_e
  publication_reports =
      each
        (λ elem.
          each
            (λ v. published_tags trim_space mq c v.0 >>= λ st.
              add_metric_e st.0 elem (mq.normalise_element elem v.0 v.1) st.1)
            elem.element_values)
        mq.published

  -- The two loops over a set of attributes.
  each_value : (Attribute → Bytes → Value → Reports) → StatusSet → Reports
  each_value f = each (λ a. each (λ v. f a.1 v.0 v.1) a.1.values)

  -- The tags are made for a number only.
  pub numbers : Bytes → ObjectType → (Bytes → Option Tags) → StatusSet → Reports
  unfolding add_metric_a each_value
  numbers series ot tags_of = each_value (λ attr key value.
      if value.is_int64
      then (tags_of key >>= λ tags.
          add_metric_a series attr (mq.normalise ot attr value.value_int64) tags)
      else some [])

  -- The object's names are read first, even where nothing is reported.
  pub named_numbers : Bytes → ObjectType → (Bytes → Option Tags) → StatusSet → Reports
  unfolding add_metric_a each_value
  named_numbers series ot tags_of = each_value (λ attr key value. tags_of key >>= λ tags.
      if value.is_int64 && not attr.pseudo
      then add_metric_a series attr (mq.normalise ot attr value.value_int64) tags
      else some [])

  infixl 6 ◌then_report◌
  ◌then_report◌ : Reports → Reports → Reports
  r then_report s = r >>= λ xs. s >>= λ ys. some (xs ++ ys)

  queue_numbers : StatusSet → Reports
  unfolding numbers queue_tags
  queue_numbers set =
      numbers (codes "queue") ot_q
        (λ key. required (codes "name") key set >>= λ name.
          queue_tags trim_space mq c name.value_string key)
        set

  q_mgr_numbers : StatusSet → Reports
  unfolding numbers q_mgr_tags
  q_mgr_numbers = numbers (codes "qmgr") ot_q_mgr (λ key. some (q_mgr_tags trim_space mq c))

  unfoldable pub statistics_reports : Reports
  unfolding q_mgr_numbers queue_numbers ◌then_report◌
  statistics_reports =
      if bool_of c "cm.CC.UseStatistics"
      then q_mgr_numbers (mq.object_statistics ot_q_mgr)
        then_report queue_numbers (mq.object_statistics ot_q)
      else some []

  usage_reports : Reports
  unfolding named_numbers bufferpool_tags pageset_tags ◌then_report◌
  usage_reports =
      named_numbers (codes "bufferpool") ot_bp (bufferpool_tags trim_space mq c)
        (mq.object_status ot_bp)
      then_report named_numbers (codes "pageset") ot_bp (pageset_tags trim_space mq c)
          (mq.object_status ot_ps)

  client_reports : Reports
  unfolding named_numbers client_tags ◌then_report◌
  client_reports =
      named_numbers (codes "amqp") ot_channel (client_tags trim_space mq c ot_channel_amqp)
        (mq.object_status ot_channel_amqp)
      then_report named_numbers (codes "mqtt") ot_channel
          (client_tags trim_space mq c ot_channel_mqtt) (mq.object_status ot_channel_mqtt)

  -- What is reported after a poll of the status.
  unfoldable pub status_reports : Reports
  unfolding queue_numbers q_mgr_numbers numbers usage_reports client_reports ◌then_report◌
      channel_tags topic_tags sub_tags cluster_tags
  status_reports =
      queue_numbers (mq.object_status ot_q)
      then_report numbers (codes "channel") ot_channel (channel_tags trim_space mq c)
          (mq.object_status ot_channel)
      then_report numbers (codes "topic") ot_topic (topic_tags trim_space mq c)
          (mq.object_status ot_topic)
      then_report numbers (codes "subscription") ot_sub (sub_tags trim_space mq c)
          (mq.object_status ot_sub)
      then_report numbers (codes "cluster") ot_cluster (cluster_tags trim_space mq c)
          (mq.object_status ot_cluster)
      then_report q_mgr_numbers (mq.object_status ot_q_mgr)
      then_report (if mq.is_zos then usage_reports else client_reports)
