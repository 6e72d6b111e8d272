-- ===== src/Otel/Reader/Total.antt =====
-- cmd/mq_otel/reader.go: GetMetrics comes back.
use mq_metric_samples.Prelude.{
  ℕ, Bytes, Bool, false, List, [], ◌++◌, Option, none, some, ◌>>=◌, ◌≡◌, refl,
}
use mq_metric_samples.Otel.Gauges.{Report}
use mq_metric_samples.Otel.Reader.{
  Reader, World, collected, handled, failure, reports, get_metrics, poll_due,
}
use mq_metric_samples.Otel.Reader.Cycle.{get_metrics-collected}
use mq_metric_samples.Otel.Reports.Complete.{
  own_metric-IsSome, publication_reports-IsSome, statistics_reports-IsSome, status_reports-IsSome,
}
use mq_metric_samples.Otel.Reports.Given.{IsSome, is, bind-IsSome, if-IsSome}
use mq_metric_samples.Otel.Reports.Total.{Named, Metadata}

then_reports-IsSome :
    {F : Type 0} (r s : Option (List (Report F)))
    → IsSome r
    → IsSome s
    → IsSome (r >>= λ xs. s >>= λ ys. some (xs ++ ys))
then_reports-IsSome r s h k = bind-IsSome _ r h (λ xs. bind-IsSome _ s k (λ ys. is _))

IsSome-some : {A : Type 0} (o : Option A) → IsSome o → (a : A) × (o ≡ some a)
IsSome-some (some a) (is b) = (a, refl)
IsSome-some none h = elim h [ ]

module _ {F : Type 0} (trim_space : Bytes → Bytes) (w : World F) where
  reports-IsSome :
      (s : Reader F)
      → Named trim_space w.mq w.config
      → Metadata trim_space w.mq w.config
      → IsSome (reports trim_space w s)
  unfolding reports
  reports-IsSome s n m =
      then_reports-IsSome _ _
        (if-IsSome s.first _ _ (is []) (
          then_reports-IsSome _ _
            (own_metric-IsSome trim_space w.mq w.config n m "exporter_publications"
              "Publications Processed" w.mq.publication_count)
            (then_reports-IsSome _ _ (publication_reports-IsSome trim_space w.mq w.config n m)
              (statistics_reports-IsSome trim_space w.mq w.config n m))))
        (then_reports-IsSome _ _
          (if-IsSome (poll_due w s) _ _ (status_reports-IsSome trim_space w.mq w.config n m)
            (is []))
          (own_metric-IsSome trim_space w.mq w.config n m "exporter_collection_time"
            "How long last collection took" w.elapsed_secs))

  -- A collection that can read its publications, that HandleStatus lets go on, and for which mqmetric
  -- has the names of all objects that it has values of, and each metadata name a value, returns, with
  -- the error of its calls and without a panic.
  pub get_metrics-Returns :
      (creates : Bytes → Bool) (override_c_type : Bool) (s : Reader F) (count : ℕ)
      → w.publications_fail ≡ false
      → handled w s ≡ some count
      → Named trim_space w.mq w.config
      → Metadata trim_space w.mq w.config
      → (s' : Reader F) × (get_metrics trim_space creates override_c_type w s
          ≡ collected s' (failure w s))
  get_metrics-Returns creates override_c_type s count p h n m =
      let (rs, r) = IsSome-some (reports trim_space w s) (reports-IsSome s n m) in
      (_, get_metrics-collected trim_space creates override_c_type w s rs count p h r)
