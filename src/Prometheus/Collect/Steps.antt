-- ===== src/Prometheus/Collect/Steps.antt =====
-- cmd/mq_prometheus/exporter.go, Collect: the steps of a scrape do not panic, and keep the vectors.
use mq_metric_samples.Prelude.{
  Bytes, Bool, true, false, not, All, List, [], ◌∷◌, ◌++◌, map, Option, some, In, here, there,
  if◌then◌else◌, ◌≡◌, refl, ◌⨾◌,
}
use mq_metric_samples.Json.Labels.{Tags, add_meta_labels}
use mq_metric_samples.Mqmetric.{
  Attribute, ObjectType, ot_q, ot_channel, ot_topic, ot_sub, ot_cluster, ot_q_mgr, ot_bp, ot_ps,
  ot_channel_amqp, ot_channel_mqtt,
}
use mq_metric_samples.Prometheus.Allocate.Fits.{IsAllocated}
use mq_metric_samples.Prometheus.Allocate.{Vecs, shared_types, platform_types, statistics_types}
use mq_metric_samples.Prometheus.Collect.Filled.{
  FitsAll, names_of, HasElements, HasElements-Keeps, each_type-runs, send_types-runs,
  reset_elements-Runs, send_elements-runs, Labelled, Labelled-AllTaken, KeysFit,
  publish_elements-Runs,
}
use mq_metric_samples.Prometheus.Collect.Loops.{filled_types, cleared_types, each_type}
use mq_metric_samples.Prometheus.Collect.{
  World, Sample, of_vector, exporter_publications, exporter_collection_time, number_for,
  publish_elements, q_mgr_status_name, fill_status, fill_statistics, statistics_labels, clear,
  clear_status, fill, send, use_statistics,
}
use mq_metric_samples.Prometheus.Labels.Accepted.{MetadataFits}
use mq_metric_samples.Prometheus.Labels.Cover.{Covers, ValidTexts}
use mq_metric_samples.Prometheus.Labels.Match.{
  Holds, panics, gives, ExactOf, labels_of, labels_of-Exact, queue-Exact,
}
use mq_metric_samples.Prometheus.Labels.Published.{HasExactly}
use mq_metric_samples.Prometheus.Labels.{Labelling, labelled, left_out}
use mq_metric_samples.Prometheus.Scrape.Named.{Runs, HasAll, reset_all-Runs, add_all-Runs}
use mq_metric_samples.Prometheus.Scrape.{VecMap, reset_all}
use mq_metric_samples.Prometheus.Vectors.{own_names}
use mq_metric_samples.Prometheus.Collect.Orders.{
  filled_listed, cleared_listed, listed_if, if_all-runs,
}

module _ {F : Type 0} (trim_space : Bytes → Bytes) (with_labels : List Bytes → Tags → Bool)
    (same : Tags → Tags → Bool) (add : F → F → F) (negative : F → Bool) (w : World F)
    (topic_of : Bytes → Bytes) (valid_text : Bytes → Bool)
    (takes : (names : List Bytes) (labels : Tags)
      → Covers names labels
      → ValidTexts valid_text labels
      → with_labels names labels ≡ true) where
  abbrev pub Allocated : Vecs F → Type 0
  Allocated = IsAllocated w.config w.hostname_label w.mq topic_of

  -- What mqmetric holds: for each value the attributes that its labels are made of, published values
  -- under keys that their topics are for, and the status of the queue manager; valid texts, and no
  -- negative numbers; and usable metadata.
  pub record Fits : Type 0 where
    pub metadata : MetadataFits w.config
    pub metadata_texts : All (λ v. valid_text v ≡ true) w.config.metadata_values_array
    pub keys :
        KeysFit w with_labels same add negative valid_text takes metadata metadata_texts trim_space
          topic_of w.mq.published
    pub status_labelled :
        (ot : ObjectType)
        → In ot (shared_types ++ platform_types w.mq.is_zos)
        → Labelled w with_labels same add negative valid_text takes metadata metadata_texts
            (labels_of trim_space w.mq w.config w.hostname_label ot)
            (number_for trim_space with_labels same add negative w ot)
            (w.mq.object_status ot)
    pub statistics_labelled :
        (ot : ObjectType)
        → In ot statistics_types
        → Labelled w with_labels same add negative valid_text takes metadata metadata_texts
            (statistics_labels trim_space with_labels same add negative w ot)
            (number_for trim_space with_labels same add negative w ot)
            (w.mq.object_statistics ot)
    pub zero_taken : negative w.zero_value ≡ false
    pub q_mgr_status :
        (a : Bytes × Attribute) × In a (w.mq.object_status ot_q_mgr)
        × (a.1.metric_name ≡ q_mgr_status_name)

  exact_of :
      (ot : ObjectType) (l : Labelling)
      → ExactOf trim_space w.mq w.config w.hostname_label ot l
      → HasExactly (own_names w.config w.hostname_label ot) l
  exact_of ot (labelled labels) h = h
  exact_of ot left_out h = tt

  Holds-map :
      {P Q : Labelling → Type 0} {o : Option Labelling}
      → ((l : Labelling) → P l → Q l)
      → Holds P o
      → Holds Q o
  Holds-map f panics = panics
  Holds-map f (gives {a = l} p) = gives (f l p)

  status-Exact :
      (ot : ObjectType) (key : Bytes)
      → Holds
          (HasExactly (own_names w.config w.hostname_label ot))
          (labels_of trim_space w.mq w.config w.hostname_label ot key)
  status-Exact ot key =
      Holds-map (exact_of ot) (labels_of-Exact trim_space w.mq w.config w.hostname_label ot key)

  statistics-Exact :
      (ot : ObjectType) (key : Bytes)
      → Holds
          (HasExactly (own_names w.config w.hostname_label ot))
          (statistics_labels trim_space with_labels same add negative w ot key)
  unfolding statistics_labels
  statistics-Exact ot_q key =
      Holds-map (exact_of ot_q)
        (queue-Exact trim_space w.mq w.config w.hostname_label (w.mq.object_statistics ot_q) key)
  statistics-Exact ot_channel key = status-Exact ot_channel key
  statistics-Exact ot_topic key = status-Exact ot_topic key
  statistics-Exact ot_sub key = status-Exact ot_sub key
  statistics-Exact ot_cluster key = status-Exact ot_cluster key
  statistics-Exact ot_q_mgr key = status-Exact ot_q_mgr key
  statistics-Exact ot_bp key = status-Exact ot_bp key
  statistics-Exact ot_ps key = status-Exact ot_ps key
  statistics-Exact ot_channel_amqp key = status-Exact ot_channel_amqp key
  statistics-Exact ot_channel_mqtt key = status-Exact ot_channel_mqtt key

  fill_status-Runs :
      Fits
      → (ot : ObjectType) → In ot (shared_types ++ platform_types w.mq.is_zos)
      → (m : VecMap F) → HasAll (names_of w ot) (w.mq.object_status ot) m
      → Runs (names_of w ot) m (fill_status trim_space with_labels same add negative w ot m)
  unfolding fill_status
  fill_status-Runs fits ot i m h =
      add_all-Runs (names_of w ot) with_labels same add negative (add_meta_labels w.config) _ _
        (w.mq.object_status ot) m
        (Labelled-AllTaken w with_labels same add negative valid_text takes fits.metadata
          fits.metadata_texts ot _ (number_for trim_space with_labels same add negative w ot)
          (w.mq.object_status ot) (status-Exact ot) (fits.status_labelled ot i))
        h

  fill_statistics-Runs :
      Fits
      → (ot : ObjectType) → In ot statistics_types
      → (m : VecMap F) → HasAll (names_of w ot) (w.mq.object_statistics ot) m
      → Runs (names_of w ot) m (fill_statistics trim_space with_labels same add negative w ot m)
  unfolding fill_statistics
  fill_statistics-Runs fits ot i m h =
      add_all-Runs (names_of w ot) with_labels same add negative (add_meta_labels w.config) _ _
        (w.mq.object_statistics ot) m
        (Labelled-AllTaken w with_labels same add negative valid_text takes fits.metadata
          fits.metadata_texts ot _ (number_for trim_space with_labels same add negative w ot)
          (w.mq.object_statistics ot) (statistics-Exact ot) (fits.statistics_labelled ot i))
        h

  abbrev Returns : Option (Vecs F) → Type 0
  Returns o = (vecs' : Vecs F) × (o ≡ some vecs') × Allocated vecs'

  pub clear-Returns :
      (vecs : Vecs F)
      → Allocated vecs
      → Returns (clear trim_space with_labels same add negative w vecs)
  unfolding clear
  clear-Returns vecs a =
      let (rua, ran, keeps) = reset_elements-Runs w topic_of w.mq.published vecs.rua a.rua_fits in
      let (maps, ran', fits') =
        if_all-runs (FitsAll w w.mq.object_statistics statistics_types)
          (use_statistics trim_space with_labels same add negative w)
          (each_type (λ ot m. reset_all (w.mq.object_statistics ot) m) (ot_q ∷ ot_q_mgr ∷ []))
          vecs.statistics_maps a.statistics_fit
          (each_type-runs w w.mq.object_statistics statistics_types _ (ot_q ∷ ot_q_mgr ∷ [])
            vecs.statistics_maps
            (λ ot i m h. reset_all-Runs (names_of w ot) (w.mq.object_statistics ot) m h)
            (there here ⨾ here ⨾ tt) a.statistics_fit) in
      (
        record vecs { rua = rua; statistics_maps = maps },
        rw (ran, ran') refl,
        record {
          rua_fits = HasElements-Keeps w topic_of w.mq.published vecs.rua rua keeps a.rua_fits;
          status_fits = a.status_fits;
          statistics_fit = fits';
        },
      )

  pub clear_status-Returns :
      (vecs : Vecs F)
      → Allocated vecs
      → Returns (clear_status trim_space with_labels same add negative w vecs)
  unfolding clear_status
  clear_status-Returns vecs a =
      let (maps, ran, fits') =
        each_type-runs w w.mq.object_status (shared_types ++ platform_types w.mq.is_zos) _
          (cleared_types ++ platform_types w.mq.is_zos) vecs.status_maps
          (λ ot i m h. reset_all-Runs (names_of w ot) (w.mq.object_status ot) m h)
          (cleared_listed w.mq.is_zos) a.status_fits in
      (
        record vecs { status_maps = maps },
        rw ran refl,
        record { rua_fits = a.rua_fits; status_fits = fits'; statistics_fit = a.statistics_fit },
      )

  pub fill-Returns :
      (first poll_status : Bool) (vecs : Vecs F)
      → Fits
      → Allocated vecs
      → Returns (fill trim_space with_labels same add negative w first poll_status vecs)
  unfolding fill
  fill-Returns first poll_status vecs fits a =
      let (published, ran₁, keeps) =
        publish_elements-Runs w with_labels same add negative valid_text takes fits.metadata
          fits.metadata_texts trim_space topic_of w.mq.published vecs.rua fits.keys a.rua_fits in
      let (rua, ran_rua, rua_fits') =
        if_all-runs (HasElements w topic_of w.mq.published) (not first)
          (publish_elements trim_space with_labels same add negative w w.mq.published) vecs.rua
          a.rua_fits
          (
            published,
            ran₁,
            HasElements-Keeps w topic_of w.mq.published vecs.rua published keeps a.rua_fits,
          ) in
      let (statistics, ran_statistics, statistics_fit') =
        if_all-runs (FitsAll w w.mq.object_statistics statistics_types)
          (use_statistics trim_space with_labels same add negative w)
          (each_type (fill_statistics trim_space with_labels same add negative w) statistics_types)
          vecs.statistics_maps a.statistics_fit
          (each_type-runs w w.mq.object_statistics statistics_types _ statistics_types
            vecs.statistics_maps (fill_statistics-Runs fits) (here ⨾ there here ⨾ tt)
            a.statistics_fit) in
      let (status, ran_status, status_fits') =
        if_all-runs (FitsAll w w.mq.object_status (shared_types ++ platform_types w.mq.is_zos))
          poll_status
          (each_type (fill_status trim_space with_labels same add negative w)
            (filled_types ++ platform_types w.mq.is_zos))
          vecs.status_maps a.status_fits
          (each_type-runs w w.mq.object_status (shared_types ++ platform_types w.mq.is_zos) _
            (filled_types ++ platform_types w.mq.is_zos) vecs.status_maps (fill_status-Runs fits)
            (filled_listed w.mq.is_zos) a.status_fits) in
      (
        record vecs { rua = rua; statistics_maps = statistics; status_maps = status },
        rw (ran_rua, ran_statistics, ran_status) refl,
        record {
          rua_fits = rua_fits';
          status_fits = status_fits';
          statistics_fit = statistics_fit';
        },
      )

  pub send-runs :
      (poll_status : Bool) (vecs : Vecs F)
      → Allocated vecs
      → (samples : List (Sample F)) × (send trim_space with_labels same add negative w poll_status
            vecs
          ≡ some samples)
  unfolding send
  send-runs poll_status vecs a =
      let (published, ran) = send_elements-runs w topic_of w.mq.published vecs.rua a.rua_fits in
      let (status, ran') =
        send_types-runs w poll_status w.mq.object_status
          (shared_types ++ platform_types w.mq.is_zos) (filled_types ++ platform_types w.mq.is_zos)
          vecs.status_maps (filled_listed w.mq.is_zos) a.status_fits in
      let used = use_statistics trim_space with_labels same add negative w in
      let (statistics, ran'') =
        send_types-runs w true w.mq.object_statistics statistics_types
          (if used then statistics_types else []) vecs.statistics_maps (listed_if used)
          a.statistics_fit in
      (
        map of_vector published
            ++ exporter_publications w.mq.publication_count
              ∷ (map of_vector (status ++ statistics)
                  ++ exporter_collection_time w.elapsed_secs ∷ []),
        rw (ran, ran', ran'') refl,
      )
