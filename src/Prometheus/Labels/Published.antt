-- ===== src/Prometheus/Labels/Published.antt =====
-- cmd/mq_prometheus/exporter.go: the labels of a published value have the names that its key stands
-- for.
use mq_metric_samples.Prelude.{
  Bytes, codes, bytes_eq, has_prefix, Bool, true, List, [], ◌∷◌, lookup, insert, Bool-cases, inl,
  inr, if◌then◌else◌, ◌≡◌, refl,
}
use mq_metric_samples.Config.Record.{Config}
use mq_metric_samples.Config.Verify.Steps.{bool_of}
use mq_metric_samples.Mqmetric.{Mq, ot_q_mgr}
use mq_metric_samples.Prometheus.Labels.Cover.{is_exact}
use mq_metric_samples.Prometheus.Labels.Match.{reserved, Holds, gives, Holds-bind, q_mgr-Exact}
use mq_metric_samples.Prometheus.Labels.{
  Labelling, labelled, left_out, usage_of, published_labels, nha_labels, queue_labels_as,
  with_custom,
}
use mq_metric_samples.Prometheus.Vectors.{own_names}

abbrev pub HasExactly : List Bytes → Labelling → Type 0
HasExactly names (labelled labels) = is_exact reserved names labels ≡ true
HasExactly names left_out = Unit

module _ {F : Type 0} (trim_space : Bytes → Bytes) (mq : Mq F) (c : Config)
    (hostname_label : Bool) where
  abbrev queue_names : List Bytes
  queue_names =
      codes "queue"
      ∷ codes "qmgr"
      ∷ codes "platform"
      ∷ codes "usage"
      ∷ codes "description"
      ∷ codes "cluster"
      ∷ (if bool_of c "cm.CC.ShowCustomAttribute" then codes "custom" ∷ [] else [])

  -- What a key stands for: the queue manager, an instance of it, or a queue.
  abbrev pub names_for : Bytes → List Bytes
  names_for key =
      if bytes_eq key (codes "@self")
      then own_names c hostname_label ot_q_mgr
      else if has_prefix key (codes "@NATIVEHA@")
      then codes "qmgr" ∷ codes "platform" ∷ codes "nha" ∷ []
      else queue_names

  nha-HasExactly :
      (key : Bytes)
      → HasExactly
          (codes "qmgr" ∷ codes "platform" ∷ codes "nha" ∷ [])
          (labelled (nha_labels trim_space mq c hostname_label key))
  unfolding nha_labels lookup bytes_eq insert
  nha-HasExactly key = refl

  queue-HasExactly :
      (q_mgr name usage : Bytes)
      → HasExactly queue_names (queue_labels_as trim_space mq c hostname_label q_mgr name usage)
  unfolding queue_labels_as with_custom lookup bytes_eq insert
  queue-HasExactly q_mgr name [] = tt
  queue-HasExactly q_mgr name (u ∷ us) = elim (Bool-cases (bool_of c "cm.CC.ShowCustomAttribute")) [
    | inl custom ↦ rw custom refl
    | inr plain ↦ rw plain refl
  ]

  pub published_labels-HasExactly :
      (key : Bytes)
      → Holds (HasExactly (names_for key)) (published_labels trim_space mq c hostname_label key)
  unfolding published_labels
  published_labels-HasExactly key = elim (Bool-cases (bytes_eq key (codes "@self"))) [
    | inl own ↦ rw own (gives (q_mgr-Exact trim_space mq c hostname_label _ _))
    | inr other ↦ elim (Bool-cases (has_prefix key (codes "@NATIVEHA@"))) [
      | inl nha ↦ rw (other, nha) (gives (nha-HasExactly key))
      | inr queue ↦
          rw (other, queue)
            (Holds-bind _ _ (usage_of trim_space mq c hostname_label key)
              (λ usage. gives (queue-HasExactly _ key usage)))
    ]
  ]
