-- ===== src/Prometheus/Collect/Total.antt =====
-- cmd/mq_prometheus/exporter.go: Collect returns, and keeps the vectors that it needs the next time.
use mq_metric_samples.Prelude.{
  ℕ, Bytes, Bool, true, false, List, [], ◌∷◌, ◌++◌, Option, none, some, insert, All-In, All-weaken,
  here, there, if◌then◌else◌, ◌≡◌, refl,
}
use mq_metric_samples.Json.Labels.{Tags}
use mq_metric_samples.Mqmetric.{ot_q_mgr}
use mq_metric_samples.Prometheus.Allocate.Fits.{IsAllocated, put_map-HasAll}
use mq_metric_samples.Prometheus.Allocate.{Maps, put_map, shared_types, platform_types}
use mq_metric_samples.Prometheus.Collect.Filled.{FitsAll, names_of, exact-Taken}
use mq_metric_samples.Prometheus.Collect.{
  World, Scraper, Scraped, Sample, of_vector, q_mgr_status_name, report_disconnected, deliver,
  deliver_or_give_up, after_publications, poll_reason, poll_due, scrape,
}
use mq_metric_samples.Prometheus.Labels.Cover.{Covers, ValidTexts}
use mq_metric_samples.Prometheus.Labels.Match.{q_mgr-Exact}
use mq_metric_samples.Prometheus.Labels.Published.{HasExactly}
use mq_metric_samples.Prometheus.Labels.{labelled, disconnected_labels}
use mq_metric_samples.Prometheus.Scrape.Named.{Named, insert-Keeps, with_value-updated}
use mq_metric_samples.Prometheus.Vectors.{MqVec, own_names, add_metric, updated}
use mq_metric_samples.Prometheus.Collect.Orders.{bind-some}
use mq_metric_samples.Prometheus.Collect.Steps.{
  Allocated, Fits, clear-Returns, clear_status-Returns, fill-Returns, send-runs,
}

module _ {F : Type 0} (trim_space : Bytes → Bytes) (with_labels : List Bytes → Tags → Bool)
    (same : Tags → Tags → Bool) (add : F → F → F) (negative : F → Bool) (w : World F)
    (topic_of : Bytes → Bytes) (valid_text : Bytes → Bool)
    (takes : (names : List Bytes) (labels : Tags)
      → Covers names labels
      → ValidTexts valid_text labels
      → with_labels names labels ≡ true) where
  -- A scrape that returns with all vectors that the next one needs.
  abbrev pub ScrapeReturns : Scraped F → Type 0
  ScrapeReturns o =
      (s' : Scraper F) × (samples : List (Sample F)) × (o ≡ some (s', samples))
      × Allocated trim_space with_labels same add negative w topic_of valid_text takes s'.vecs

  if_Returns :
      (b : Bool) (x y : Scraped F)
      → ScrapeReturns x
      → ScrapeReturns y
      → ScrapeReturns (if b then x else y)
  if_Returns true x y rx ry = rx
  if_Returns false x y rx ry = ry

  deliver-Returns :
      (poll_status : Bool) (s : Scraper F)
      → Fits trim_space with_labels same add negative w topic_of valid_text takes
      → Allocated trim_space with_labels same add negative w topic_of valid_text takes s.vecs
      → ScrapeReturns (deliver trim_space with_labels same add negative w poll_status s)
  unfolding deliver
  deliver-Returns poll_status s fits a =
      let (vecs, ran, a') =
        fill-Returns trim_space with_labels same add negative w topic_of valid_text takes
          s.flags.first_collection poll_status s.vecs fits a in
      let (samples, ran') =
        send-runs trim_space with_labels same add negative w topic_of valid_text takes poll_status
          vecs a' in
      (_, samples, bind-some _ ran (bind-some _ ran' refl), a')

  deliver_or_give_up-Returns :
      (poll_status : Bool) (failure : Option ℕ) (s : Scraper F)
      → Fits trim_space with_labels same add negative w topic_of valid_text takes
      → Allocated trim_space with_labels same add negative w topic_of valid_text takes s.vecs
      → ScrapeReturns
          (deliver_or_give_up trim_space with_labels same add negative w poll_status failure s)
  unfolding deliver_or_give_up
  deliver_or_give_up-Returns poll_status none s fits a = deliver-Returns poll_status s fits a
  deliver_or_give_up-Returns poll_status (some mqrc) s fits a = (_, [], refl, a)

  after_publications-Returns :
      (failure : Option ℕ) (s : Scraper F)
      → Fits trim_space with_labels same add negative w topic_of valid_text takes
      → Allocated trim_space with_labels same add negative w topic_of valid_text takes s.vecs
      → ScrapeReturns (after_publications trim_space with_labels same add negative w failure s)
  unfolding after_publications
  after_publications-Returns (some mqrc) s fits a =
      deliver_or_give_up-Returns false (some mqrc) s fits a
  after_publications-Returns none s fits a =
      if_Returns (poll_due trim_space with_labels same add negative w s) _ _
        (let (vecs, ran, a') =
            clear_status-Returns trim_space with_labels same add negative w topic_of valid_text
              takes s.vecs a in
          let (s', samples, ran', a'') =
            deliver_or_give_up-Returns true (poll_reason trim_space with_labels same add negative w)
              (record s { vecs = vecs; last_poll = w.this_poll }) fits a' in
          (s', samples, bind-some _ ran ran', a''))
        (deliver_or_give_up-Returns false none s fits a)

  status_vector :
      (maps : Maps F)
      → Fits trim_space with_labels same add negative w topic_of valid_text takes
      → FitsAll w w.mq.object_status (shared_types ++ platform_types w.mq.is_zos) maps
      → Named (names_of w ot_q_mgr) (maps ot_q_mgr) q_mgr_status_name
  status_vector maps fits has_all =
      let (a, i, name) = fits.q_mgr_status in
      rw name at (
        All-In (λ a. Named (names_of w ot_q_mgr) (maps ot_q_mgr) a.1.metric_name) i
          (has_all ot_q_mgr (there (there (there (there (there here)))))))

  -- The vector of the queue manager's status is stored again.
  restored :
      (maps : Maps F) (v : MqVec F)
      → FitsAll w w.mq.object_status (shared_types ++ platform_types w.mq.is_zos) maps
      → v.label_names ≡ names_of w ot_q_mgr q_mgr_status_name
      → FitsAll w w.mq.object_status
          (shared_types ++ platform_types w.mq.is_zos)
          (put_map ot_q_mgr (insert q_mgr_status_name v (maps ot_q_mgr)) maps)
  restored maps v has_all n ot i =
      put_map-HasAll w.config w.hostname_label w.mq.object_status ot_q_mgr ot _ maps
        (All-weaken
          (λ a h.
            insert-Keeps (names_of w ot_q_mgr) q_mgr_status_name v (maps ot_q_mgr) n a.1.metric_name
              h)
          (w.mq.object_status ot_q_mgr)
          (has_all ot_q_mgr (there (there (there (there (there here)))))))
        (λ other. has_all ot i)

  disconnected-HasExactly :
      (last_hostname : Bytes)
      → HasExactly
          (own_names w.config w.hostname_label ot_q_mgr)
          (labelled (disconnected_labels trim_space w.mq w.config w.hostname_label last_hostname))
  unfolding disconnected_labels
  disconnected-HasExactly last_hostname = q_mgr-Exact trim_space w.mq w.config w.hostname_label _ _

  report_disconnected-Returns :
      (s : Scraper F) (v : MqVec F)
      → Fits trim_space with_labels same add negative w topic_of valid_text takes
      → Allocated trim_space with_labels same add negative w topic_of valid_text takes s.vecs
      → v.label_names ≡ names_of w ot_q_mgr q_mgr_status_name
      → ValidTexts valid_text
          (disconnected_labels trim_space w.mq w.config w.hostname_label s.last_hostname)
      → ScrapeReturns (report_disconnected trim_space with_labels same add negative w s (some v))
  unfolding report_disconnected add_metric updated
  report_disconnected-Returns s v fits a n texts =
      let (labels, added, ok) =
        exact-Taken w with_labels same add negative valid_text takes fits.metadata
          fits.metadata_texts (names_of w ot_q_mgr) (own_names w.config w.hostname_label ot_q_mgr)
          (labelled (disconnected_labels trim_space w.mq w.config w.hostname_label s.last_hostname))
          (disconnected-HasExactly s.last_hostname) texts in
      let accepted : with_labels v.label_names labels ≡ true = rw n ok in
      let v' = updated with_labels same add negative labels w.zero_value v in
      let stored : add_metric with_labels same add negative labels w.zero_value v ≡ some v' = rw (
        accepted,
        with_value-updated with_labels same add negative labels w.zero_value v fits.zero_taken,
      ) in
      (
        _,
        of_vector v' ∷ [],
        bind-some _ added (bind-some _ stored refl),
        record {
          rua_fits = a.rua_fits;
          status_fits = restored s.vecs.status_maps v' a.status_fits n;
          statistics_fit = a.statistics_fit;
        },
      )

  -- The client library is taken to accept labels that have exactly the names of a vector and texts
  -- that are valid. Where all texts and the metadata's values are valid, no number is negative,
  -- mqmetric holds for each value what its labels are made of, published values under keys that
  -- their topics are for, and the status of the queue manager, the metadata is usable, and each
  -- metric has its vector, Collect returns without a panic, connected or not and whether the
  -- publications or the poll fail or not, and each metric then still has its vector, with the
  -- same label names.
  pub scrape-Returns :
      (s : Scraper F)
      → Fits trim_space with_labels same add negative w topic_of valid_text takes
      → IsAllocated w.config w.hostname_label w.mq topic_of s.vecs
      → ValidTexts valid_text
          (disconnected_labels trim_space w.mq w.config w.hostname_label s.last_hostname)
      → (s' : Scraper F) × (samples : List (Sample F)) × (scrape trim_space with_labels same add
            negative w s
          ≡ some (s', samples))
        × IsAllocated w.config w.hostname_label w.mq topic_of s'.vecs
  unfolding scrape
  scrape-Returns s fits a texts =
      if_Returns s.flags.connected_q_mgr _ _
        (let (vecs, ran, a') =
            clear-Returns trim_space with_labels same add negative w topic_of valid_text takes
              s.vecs a in
          let (s', samples, ran', a'') =
            after_publications-Returns w.publications_error (record s { vecs = vecs }) fits a' in
          (s', samples, bind-some _ ran ran', a''))
        (let (v, found, n) = status_vector s.vecs.status_maps fits a.status_fits in
          let (s', samples, ran, a') = report_disconnected-Returns s v fits a n texts in
          (s', samples, rw found ran, a'))
