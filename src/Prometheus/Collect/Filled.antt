-- ===== src/Prometheus/Collect/Filled.antt =====
-- cmd/mq_prometheus/exporter.go, Collect: the loops over the types of objects, and over the published
-- metrics, find each vector and give it labels that it takes.
use mq_metric_samples.Prelude.{
  Bytes, Bool, true, false, List, [], ◌∷◌, ◌++◌, Option, some, All, All-weaken, In, ◌≡◌, refl,
}
use mq_metric_samples.Prelude.Int.{ℤ}
use mq_metric_samples.Json.Labels.{Tags, add_meta_labels}
use mq_metric_samples.Mqmetric.{Attribute, Element, ObjectType, StatusSet, Value}
use mq_metric_samples.Prometheus.Allocate.Fits.{type_names, rua_names, MapsFit, put_map-HasAll}
use mq_metric_samples.Prometheus.Allocate.{Maps, put_map}
use mq_metric_samples.Prometheus.Collect.Loops.{
  each_type, send_types, reset_elements, send_elements,
}
use mq_metric_samples.Prometheus.Collect.{World, publish_labelled, publish_values, publish_elements}
use mq_metric_samples.Prometheus.Labels.Accepted.{
  MetadataFits, exact-Covers, Holds-some, add_meta_labels-ValidTexts,
}
use mq_metric_samples.Prometheus.Labels.Cover.{Covers, ValidTexts}
use mq_metric_samples.Prometheus.Labels.Match.{Holds}
use mq_metric_samples.Prometheus.Labels.Published.{
  HasExactly, names_for, published_labels-HasExactly,
}
use mq_metric_samples.Prometheus.Labels.{Labelling, labelled, left_out, published_labels}
use mq_metric_samples.Prometheus.Scrape.Named.{
  Named, Keeps, Runs, HasAll, insert-Keeps, Runs-none, Runs-then, Runs-bind, Runs-lookup, sent-runs,
  Taken, Runs-add_metric, AllTaken,
}
use mq_metric_samples.Prometheus.Scrape.{VecMap}
use mq_metric_samples.Prometheus.Vectors.{MqVec, make_key, own_names, published_names, reset}

module _ {F : Type 0} (w : World F) where
  abbrev pub FitsAll : (ObjectType → StatusSet) → List ObjectType → Maps F → Type 0
  FitsAll = MapsFit w.config w.hostname_label

  abbrev pub names_of : ObjectType → Bytes → List Bytes
  names_of = type_names w.config w.hostname_label

  -- A change that runs for each listed type keeps the vectors of all types.
  pub each_type-runs :
      (sets : ObjectType → StatusSet) (types : List ObjectType)
      (f : ObjectType → VecMap F → Option (VecMap F)) (ots : List ObjectType) (maps : Maps F)
      → ((ot : ObjectType)
          → In ot types
          → (m : VecMap F) → HasAll (names_of ot) (sets ot) m
          → Runs (names_of ot) m (f ot m))
      → All (λ ot. In ot types) ots
      → FitsAll sets types maps
      → (maps' : Maps F) × (each_type f ots maps ≡ some maps') × FitsAll sets types maps'
  unfolding each_type
  each_type-runs sets types f [] maps runs listed fits = (maps, refl, fits)
  each_type-runs sets types f (ot ∷ ots) maps runs listed fits =
      let (m, ran, keeps) = runs ot listed.0 (maps ot) (fits ot listed.0) in
      let (maps', ran', fits') =
        each_type-runs sets types f ots (put_map ot m maps) runs listed.1 (λ ot' i.
          put_map-HasAll w.config w.hostname_label sets ot ot' m maps
            (All-weaken (λ a n. keeps a.1.metric_name n) (sets ot) (fits ot listed.0))
            (λ other. fits ot' i)) in
      (maps', rw ran ran', fits')

  pub send_types-runs :
      (b : Bool) (sets : ObjectType → StatusSet) (types ots : List ObjectType) (maps : Maps F)
      → All (λ ot. In ot types) ots
      → FitsAll sets types maps
      → (vs : List (MqVec F)) × (send_types b sets ots maps ≡ some vs)
  unfolding send_types
  send_types-runs b sets types [] maps listed fits = ([], refl)
  send_types-runs b sets types (ot ∷ ots) maps listed fits =
      let (vs, ran) = sent-runs (names_of ot) b (sets ot) (maps ot) (fits ot listed.0) in
      let (rest, ran') = send_types-runs b sets types ots maps listed.1 fits in
      (vs ++ rest, rw (ran, ran') refl)

  module _ (topic_of : Bytes → Bytes) where
    abbrev pub rua_names_of : Bytes → List Bytes
    rua_names_of = rua_names w.config w.hostname_label topic_of

    abbrev pub HasElements : List Element → VecMap F → Type 0
    HasElements elems m = All (λ e. Named rua_names_of m (make_key e)) elems

    pub HasElements-Keeps :
        (elems : List Element) (m m' : VecMap F)
        → Keeps rua_names_of m m'
        → HasElements elems m
        → HasElements elems m'
    HasElements-Keeps elems m m' keeps h = All-weaken (λ e n. keeps (make_key e) n) elems h

    pub reset_elements-Runs :
        (elems : List Element) (m : VecMap F)
        → HasElements elems m
        → Runs rua_names_of m (reset_elements elems m)
    unfolding reset_elements
    reset_elements-Runs [] m h = Runs-none rua_names_of m
    reset_elements-Runs (e ∷ elems) m h = Runs-lookup rua_names_of m (make_key e) _ h.0 (λ v n.
        let keeps = insert-Keeps rua_names_of (make_key e) (reset v) m n in
        Runs-then rua_names_of m _ _ keeps
          (reset_elements-Runs elems _ (HasElements-Keeps elems m _ keeps h.1)))

    pub send_elements-runs :
        (elems : List Element) (m : VecMap F)
        → HasElements elems m
        → (vs : List (MqVec F)) × (send_elements elems m ≡ some vs)
    unfolding send_elements
    send_elements-runs [] m h = ([], refl)
    send_elements-runs (e ∷ elems) m ((v, found, n), hs) =
        let (vs, ran) = send_elements-runs elems m hs in (v ∷ vs, rw (found, ran) refl)

  module _ (with_labels : List Bytes → Tags → Bool) (same : Tags → Tags → Bool) (add : F → F → F)
      (negative : F → Bool) (valid_text : Bytes → Bool)
      (takes : (names : List Bytes) (labels : Tags)
        → Covers names labels
        → ValidTexts valid_text labels
        → with_labels names labels ≡ true)
      (metadata : MetadataFits w.config)
      (metadata_texts : All (λ v. valid_text v ≡ true) w.config.metadata_values_array) where
    abbrev TakenBy : (Bytes → List Bytes) → List Bytes → Labelling → Type 0
    TakenBy names_at = Taken names_at with_labels same add negative (add_meta_labels w.config)

    -- The labels, if there are any, have valid texts.
    abbrev pub TextsValid : Labelling → Type 0
    TextsValid left_out = Unit
    TextsValid (labelled base) = ValidTexts valid_text base

    pub exact-Taken :
        (names_at : Bytes → List Bytes) (names : List Bytes) (l : Labelling)
        → HasExactly names l
        → TextsValid l
        → TakenBy names_at (names ++ w.config.metadata_tags_array) l
    exact-Taken names_at names left_out h t = tt
    exact-Taken names_at names (labelled base) h t =
        let (labels, added, covers) = exact-Covers w.config names base metadata h in
        let texts =
          add_meta_labels-ValidTexts valid_text w.config base labels metadata_texts t added in
        (labels, added, takes (names ++ w.config.metadata_tags_array) labels covers texts)

    -- A computation gives labels with valid texts for every value of a set, and no number is
    -- negative.
    abbrev pub Labelled : (Bytes → Option Labelling) → (Attribute → Value → F) → StatusSet → Type 0
    Labelled f number set =
        All
          (λ a.
            All
              (λ kv.
                (l : Labelling) × (f kv.0 ≡ some l)
                × TextsValid l
                × (negative (number a.1 kv.1) ≡ false))
              a.1.values)
          set

    -- Where they have exactly the names of a type, they are taken.
    pub Labelled-AllTaken :
        (ot : ObjectType) (f : Bytes → Option Labelling) (number : Attribute → Value → F)
        (set : StatusSet)
        → ((key : Bytes) → Holds (HasExactly (own_names w.config w.hostname_label ot)) (f key))
        → Labelled f number set
        → AllTaken
            (names_of ot)
            with_labels
            same
            add
            negative
            (add_meta_labels w.config)
            f
            number
            set
    Labelled-AllTaken ot f number set exact h =
        All-weaken
          (λ a vs.
            All-weaken
              (λ kv (l, is, texts, counts).
                (l, is, exact-Taken (names_of ot) _ l (Holds-some (exact kv.0) is) texts, counts))
              a.1.values vs)
          set h

    module _ (trim_space : Bytes → Bytes) (topic_of : Bytes → Bytes) where
      -- A published key has labels with valid texts, for what its topic is for, and its number is
      -- not negative.
      abbrev pub KeyFits : Element → Bytes × ℤ → Type 0
      KeyFits e kv =
          ((l : Labelling) × (published_labels trim_space w.mq w.config w.hostname_label kv.0
              ≡ some l)
            × TextsValid l
            × (negative (w.mq.normalise_element e kv.0 kv.1) ≡ false))
          × ((published_names w.config w.hostname_label (topic_of (make_key e))).0
              ≡ names_for trim_space w.mq w.config w.hostname_label kv.0)

      abbrev pub KeysFit : List Element → Type 0
      KeysFit elems = All (λ e. All (KeyFits e) e.element_values) elems

      publish_labelled-Runs :
          (e : Element) (f : F) (l : Labelling) (m : VecMap F)
          → TakenBy (rua_names_of topic_of) (rua_names_of topic_of (make_key e)) l
          → negative f ≡ false
          → Named (rua_names_of topic_of) m (make_key e)
          → Runs
              (rua_names_of topic_of)
              m
              (publish_labelled trim_space with_labels same add negative w e f l m)
      unfolding publish_labelled
      publish_labelled-Runs e f left_out m t counts h = Runs-none (rua_names_of topic_of) m
      publish_labelled-Runs e f (labelled base) m (labels, added, ok) counts h = rw added (
          Runs-add_metric (rua_names_of topic_of) with_labels same add negative
            (add_meta_labels w.config) m (make_key e) labels f ok counts h)

      key-Taken :
          (e : Element) (key : Bytes) (l : Labelling)
          → published_labels trim_space w.mq w.config w.hostname_label key ≡ some l
          → (published_names w.config w.hostname_label (topic_of (make_key e))).0
            ≡ names_for trim_space w.mq w.config w.hostname_label key
          → TextsValid l
          → TakenBy (rua_names_of topic_of) (rua_names_of topic_of (make_key e)) l
      key-Taken e key l is names texts = rw names (
          exact-Taken (rua_names_of topic_of) _ l
            (Holds-some (published_labels-HasExactly trim_space w.mq w.config w.hostname_label key)
              is)
            texts)

      publish_values-Runs :
          (e : Element) (vs : List (Bytes × ℤ)) (m : VecMap F)
          → All (KeyFits e) vs
          → Named (rua_names_of topic_of) m (make_key e)
          → Runs
              (rua_names_of topic_of)
              m
              (publish_values trim_space with_labels same add negative w e vs m)
      unfolding publish_values
      publish_values-Runs e [] m t h = Runs-none (rua_names_of topic_of) m
      publish_values-Runs e ((key, value) ∷ vs) m (((l, is, texts, counts), names), ts) h = rw is (
          Runs-bind (rua_names_of topic_of) m _ _
            (publish_labelled-Runs e (w.mq.normalise_element e key value) l m
              (key-Taken e key l is names texts) counts h)
            (λ m' keeps. publish_values-Runs e vs m' ts (keeps (make_key e) h)))

      pub publish_elements-Runs :
          (elems : List Element) (m : VecMap F)
          → KeysFit elems
          → HasElements topic_of elems m
          → Runs
              (rua_names_of topic_of)
              m
              (publish_elements trim_space with_labels same add negative w elems m)
      unfolding publish_elements
      publish_elements-Runs [] m t h = Runs-none (rua_names_of topic_of) m
      publish_elements-Runs (e ∷ elems) m t h =
          Runs-bind (rua_names_of topic_of) m _ _ (publish_values-Runs e e.element_values m t.0 h.0)
            (λ m' keeps.
              publish_elements-Runs elems m' t.1 (HasElements-Keeps topic_of elems m m' keeps h.1))
