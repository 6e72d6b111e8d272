-- ===== src/Otel/Reader/Cycle.antt =====
-- cmd/mq_otel/reader.go: what a collection by GetMetrics leaves behind.
use mq_metric_samples.Prelude.{ℕ, Bytes, Bool, false, List, some, lookup, ◌≡◌, refl}
use mq_metric_samples.Otel.Gauges.{Report}
use mq_metric_samples.Otel.Gauges.Held.{Tidy, gauges_of, cycle-held}
use mq_metric_samples.Otel.Gauges.Slices.{kept}
use mq_metric_samples.Otel.Reader.{
  next_reader, Reader, World, collected, handled, failure, reports, get_metrics, with_reports,
}

module _ {F : Type 0} (trim_space : Bytes → Bytes) (creates : Bytes → Bool) (override_c_type : Bool)
    (w : World F) where
  -- The new state of a collection that is not ended by an error or a panic.
  pub get_metrics-collected :
      (s : Reader F) (rs : List (Report F)) (n : ℕ)
      → w.publications_fail ≡ false
      → handled w s ≡ some n
      → reports trim_space w s ≡ some rs
      → get_metrics trim_space creates override_c_type w s
        ≡ collected (next_reader trim_space creates override_c_type w rs n s) (failure w s)
  unfolding get_metrics
  get_metrics-collected s rs n p h r = rw p (rw h (rw r refl))

  -- A collection whose publications can be read, that HandleStatus lets go on and whose objects have
  -- their names returns; the gauges that it leaves for a key are then those that it has reported
  -- itself, in their order, and there is no entry for a key that it has not reported; the map is as
  -- tidy as before, for the next collection.
  pub get_metrics-gauges :
      (s : Reader F) (rs : List (Report F)) (n : ℕ)
      → w.publications_fail ≡ false
      → handled w s ≡ some n
      → reports trim_space w s ≡ some rs
      → Tidy creates override_c_type s.instruments.gauge_map
      → (s' : Reader F) × (get_metrics trim_space creates override_c_type w s
          ≡ collected s' (failure w s))
        × Tidy creates override_c_type s'.instruments.gauge_map
        × ((j : Bytes)
            → lookup j s'.instruments.gauge_map ≡ kept (gauges_of creates override_c_type j rs))
  unfolding with_reports
  get_metrics-gauges s rs n p h r t =
      let (t', gauges) = cycle-held creates override_c_type rs s.instruments t in
      (
        next_reader trim_space creates override_c_type w rs n s,
        get_metrics-collected s rs n p h r,
        t',
        gauges,
      )
