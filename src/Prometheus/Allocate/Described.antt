-- ===== src/Prometheus/Allocate/Described.antt =====
-- cmd/mq_prometheus/exporter.go: what allocateAllGauges leaves, and when Describe panics on it.
use mq_metric_samples.Prelude.{
  Bytes, Bool, true, false, List, [], ◌∷◌, ◌++◌, Option, some, >>=-eq-some, lookup, All, All-In,
  here, there, Bool-cases, inl, inr, ◌⊎◌, ◌↔◌, ◌⨾◌, if◌then◌else◌, ◌≡◌, refl,
}
use mq_metric_samples.Config.Record.{Config}
use mq_metric_samples.Config.Verify.Steps.{bool_of}
use mq_metric_samples.Mqmetric.{Element, Mq, ObjectType, StatusSet, ot_q_mgr, ot_q}
use mq_metric_samples.Prometheus.Allocate.{
  Maps, Vecs, statistics_types, status_types, shared_types, platform_types, allocated_statistics,
  no_maps, allocate_all_gauges, describe_elements, describe_set, describe_types, describe,
}
use mq_metric_samples.Prometheus.Allocate.Fits.{
  type_names, rua_names, MapsFit, IsAllocated, allocate_types-MapsFit, allocate_gauges-Named,
}
use mq_metric_samples.Prometheus.Scrape.Named.{Named, HasAll}
use mq_metric_samples.Prometheus.Scrape.{VecMap}
use mq_metric_samples.Prometheus.Vectors.{MqVec, make_key}

-- Elements that have the same key have the same topic.
abbrev pub TopicsFit : (Bytes → Bytes) → List Element → Type 0
TopicsFit topic_of = All (λ e. topic_of (make_key e) ≡ e.object_topic)

module _ {F : Type 0} (mq : Mq F) (c : Config) (hostname_label : Bool)
    (override_c_type : Bool) where
  abbrev NoStatistics : Type 0
  NoStatistics = All (λ ot. mq.object_statistics ot ≡ []) statistics_types

  -- There are no statistics but on a platform and with a configuration that have them.
  abbrev pub StatisticsFit : Type 0
  StatisticsFit = ((mq.is_zos ≡ false) × (bool_of c "cm.CC.UseStatistics" ≡ true)) ⊎ NoStatistics

  abbrev allocated : Vecs F
  allocated = allocate_all_gauges mq c hostname_label override_c_type

  statistics-MapsFit :
      StatisticsFit
      → MapsFit c hostname_label mq.object_statistics statistics_types allocated.statistics_maps
  unfolding allocate_all_gauges
  statistics-MapsFit (inl (zos, used)) ot i =
      let all : allocated_statistics mq c hostname_label override_c_type ≡ statistics_types =
        simp (zos, used) in
      All-In
        (λ ot.
          HasAll (type_names c hostname_label ot) (mq.object_statistics ot)
            (allocated.statistics_maps ot))
        (rw all i)
        (allocate_types-MapsFit c hostname_label override_c_type mq mq.object_statistics
          (allocated_statistics mq c hostname_label override_c_type)
          (no_maps mq c hostname_label override_c_type))
  statistics-MapsFit (inr empty) ot i = rw (All-In (λ ot. mq.object_statistics ot ≡ []) i empty) tt

  -- After the allocation, each metric has its vector.
  pub allocate_all_gauges-IsAllocated :
      (topic_of : Bytes → Bytes)
      → TopicsFit topic_of mq.published
      → StatisticsFit
      → IsAllocated c hostname_label mq topic_of
          (allocate_all_gauges mq c hostname_label override_c_type)
  unfolding allocate_all_gauges
  allocate_all_gauges-IsAllocated topic_of topics fit = record {
    rua_fits =
        allocate_gauges-Named c hostname_label override_c_type mq topic_of mq.published [] topics;
    status_fits = λ ot i.
        All-In
          (λ ot.
            HasAll (type_names c hostname_label ot) (mq.object_status ot)
              (allocated.status_maps ot))
          i
          (allocate_types-MapsFit c hostname_label override_c_type mq mq.object_status
            (status_types mq c hostname_label override_c_type)
            (no_maps mq c hostname_label override_c_type));
    statistics_fit = statistics-MapsFit fit;
  }

  describe_elements-runs :
      (names_at : Bytes → List Bytes) (elems : List Element) (m : VecMap F)
      → All (λ e. Named names_at m (make_key e)) elems
      → (vs : List (MqVec F)) × (describe_elements mq c hostname_label override_c_type elems m
          ≡ some vs)
  unfolding describe_elements
  describe_elements-runs names_at [] m h = ([], refl)
  describe_elements-runs names_at (e ∷ elems) m ((v, found, n), hs) =
      let (vs, ran) = describe_elements-runs names_at elems m hs in (v ∷ vs, rw (found, ran) refl)

  describe_set-runs :
      (names_at : Bytes → List Bytes) (set : StatusSet) (m : VecMap F)
      → HasAll names_at set m
      → (vs : List (MqVec F)) × (describe_set mq c hostname_label override_c_type set m ≡ some vs)
  unfolding describe_set
  describe_set-runs names_at [] m h = ([], refl)
  describe_set-runs names_at ((k, attr) ∷ set) m ((v, found, n), hs) =
      let (vs, ran) = describe_set-runs names_at set m hs in (v ∷ vs, rw (found, ran) refl)

  describe_types-runs :
      (sets : ObjectType → StatusSet) (ots : List ObjectType) (maps : Maps F)
      → All (λ ot. HasAll (type_names c hostname_label ot) (sets ot) (maps ot)) ots
      → (vs : List (MqVec F)) × (describe_types mq c hostname_label override_c_type sets ots maps
          ≡ some vs)
  unfolding describe_types
  describe_types-runs sets [] maps h = ([], refl)
  describe_types-runs sets (ot ∷ ots) maps h =
      let (vs, ran) = describe_set-runs _ (sets ot) (maps ot) h.0 in
      let (rest, ran') = describe_types-runs sets ots maps h.1 in (vs ++ rest, rw (ran, ran') refl)

  -- In a map without vectors only no attributes can be described.
  describe_set-empty :
      (set : StatusSet) {vs : List (MqVec F)}
      → describe_set mq c hostname_label override_c_type set [] ≡ some vs
      → set ≡ []
  unfolding describe_set lookup
  describe_set-empty [] e = refl
  describe_set-empty ((k, attr) ∷ set) e = cc e

  describe_types-empty :
      (sets : ObjectType → StatusSet) (ots : List ObjectType) {vs : List (MqVec F)}
      → describe_types mq c hostname_label override_c_type sets ots
          (no_maps mq c hostname_label override_c_type)
        ≡ some vs
      → All (λ ot. sets ot ≡ []) ots
  unfolding describe_types
  describe_types-empty sets [] e = tt
  describe_types-empty sets (ot ∷ ots) e =
      let (vs, ran, rest) =
        >>=-eq-some (describe_set mq c hostname_label override_c_type (sets ot) []) _ e in
      let (vs', ran', rest') =
        >>=-eq-some
          (describe_types mq c hostname_label override_c_type sets ots
            (no_maps mq c hostname_label override_c_type))
          _ rest in
      (describe_set-empty (sets ot) ran, describe_types-empty sets ots ran')

  -- Whether Describe panics on the statistics.
  abbrev Describable : Type 0
  Describable = (mq.is_zos ≡ true) ⊎ ((bool_of c "cm.CC.UseStatistics" ≡ true) ⊎ NoStatistics)

  -- Described in the parts that Describe walks through.
  abbrev described_statistics : Option (List (MqVec F))
  described_statistics =
      describe_types mq c hostname_label override_c_type mq.object_statistics
        (if mq.is_zos then [] else statistics_types) allocated.statistics_maps

  described→describable : {vs : List (MqVec F)} → described_statistics ≡ some vs → Describable
  unfolding allocate_all_gauges
  described→describable ran = elim (Bool-cases mq.is_zos) [
    | inl zos ↦ inl zos
    | inr other ↦ elim (Bool-cases (bool_of c "cm.CC.UseStatistics")) [
      | inl used ↦ inr (inl used)
      | inr unused ↦ inr (
          inr (
            describe_types-empty mq.object_statistics statistics_types
              (simp (other, unused) at ran)))
    ]
  ]

  statistics-described :
      (b : Bool) (maps : Maps F)
      → (b ≡ false → MapsFit c hostname_label mq.object_statistics statistics_types maps)
      → (vs : List (MqVec F)) × (describe_types mq c hostname_label override_c_type
            mq.object_statistics
            (if b then [] else statistics_types)
            maps
          ≡ some vs)
  unfolding describe_types
  statistics-described true maps h = ([], refl)
  statistics-described false maps h =
      let has_all = h refl in
      describe_types-runs mq.object_statistics statistics_types maps
        (has_all ot_q_mgr here ⨾ has_all ot_q (there here) ⨾ tt)

  fits_unless_zos : Describable → mq.is_zos ≡ false → StatisticsFit
  fits_unless_zos (inl zos) other = cc (zos, other)
  fits_unless_zos (inr (inl used)) other = inl (other, used)
  fits_unless_zos (inr (inr empty)) other = inr empty

  -- Describe walks through the statistics.
  through_statistics :
      (vecs : Vecs F) {vs : List (MqVec F)}
      → describe mq c hostname_label override_c_type vecs ≡ some vs
      → (vs' : List (MqVec F)) × (describe_types mq c hostname_label override_c_type
            mq.object_statistics
            (if mq.is_zos then [] else statistics_types)
            vecs.statistics_maps
          ≡ some vs')
  unfolding describe
  through_statistics vecs ran =
      let (published, ran₁, rest₁) =
        >>=-eq-some (describe_elements mq c hostname_label override_c_type mq.published vecs.rua) _
          ran in
      let (shared, ran₂, rest₂) =
        >>=-eq-some
          (describe_types mq c hostname_label override_c_type mq.object_status shared_types
            vecs.status_maps)
          _ rest₁ in
      let (statistics, ran₃, rest₃) =
        >>=-eq-some
          (describe_types mq c hostname_label override_c_type mq.object_statistics
            (if mq.is_zos then [] else statistics_types) vecs.statistics_maps)
          _ rest₂ in
      (statistics, ran₃)

  -- Where published metrics of one key have one topic, Describe returns after the allocation
  -- exactly if there are no vectors to miss: on z/OS, with useStatistics, or where mqmetric has
  -- no attributes of statistics.
  pub describe_returns_iff :
      (topic_of : Bytes → Bytes)
      → TopicsFit topic_of mq.published
      → ((vs : List (MqVec F)) × (describe mq c hostname_label override_c_type
              (allocate_all_gauges mq c hostname_label override_c_type)
            ≡ some vs))
        ↔ ((mq.is_zos ≡ true)
            ⊎ ((bool_of c "cm.CC.UseStatistics" ≡ true)
                ⊎ All (λ ot. mq.object_statistics ot ≡ []) statistics_types))
  unfolding describe allocate_all_gauges
  describe_returns_iff topic_of topics =
      let (chl, (q, (topic, (sub, (cluster, (q_mgr, others)))))) =
        allocate_types-MapsFit c hostname_label override_c_type mq mq.object_status
          (status_types mq c hostname_label override_c_type)
          (no_maps mq c hostname_label override_c_type) in
      let (published, ran_published) =
        describe_elements-runs (rua_names c hostname_label topic_of) mq.published allocated.rua (
          allocate_gauges-Named c hostname_label override_c_type mq topic_of mq.published []
            topics) in
      let (shared, ran_shared) =
        describe_types-runs mq.object_status shared_types allocated.status_maps
          (chl ⨾ q ⨾ topic ⨾ sub ⨾ cluster ⨾ q_mgr ⨾ tt) in
      let (platform, ran_platform) =
        describe_types-runs mq.object_status (platform_types mq.is_zos) allocated.status_maps
          others in
      (
        (λ (vs, ran). described→describable (through_statistics allocated ran).1),
        (λ h.
            let (statistics, ran_statistics) =
              statistics-described mq.is_zos allocated.statistics_maps
                (λ other. statistics-MapsFit (fits_unless_zos h other)) in
            (
              published ++ shared ++ statistics ++ platform,
              rw (ran_published, ran_shared, ran_statistics, ran_platform) refl,
            )),
      )
