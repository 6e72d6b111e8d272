-- ===== src/Otel/Gauges/Held.antt =====
-- cmd/mq_otel/reader.go: what the map of gauges holds after calls of addMetric, and after a collection.
use mq_metric_samples.Prelude.{
  Bytes, bytes_eq, bytes_eq_iff, Bool, true, false, not, ◌&&◌, List, [], ◌∷◌, ◌++◌, append_assoc,
  append-nil, lookup, insert, lookup-insert, if◌then◌else◌, ◌≡◌, refl, sym, ◌∙◌, ap, arith,
  Bool-cases, ◌⊎◌, inl, inr,
}
use mq_metric_samples.Otel.Gauges.{
  Report, GaugeStruct, Instruments, key_of_report, held, is_known, is_counter, add_metric,
  add_metrics, clear_gauges, evict_gauges,
}
use mq_metric_samples.Otel.Gauges.Slices.{
  Distinct, kept, insert-Distinct, held-insert, clear-Distinct, clear-held, clear-is_known,
  evict-lookup, evict-Distinct, evict-is_known,
}

refused_key :
    (creates : Bytes → Bool) (k j : Bytes) → creates k ≡ false → (bytes_eq k j && creates j) ≡ false
refused_key creates k j h = elim (Bool-cases (bytes_eq k j)) [
  | inl same ↦ rw same (rw ((bytes_eq_iff k j).0 same) at h)
  | inr other ↦ rw other refl
]

accepted_key :
    (creates : Bytes → Bool) (k j : Bytes)
    → creates k ≡ true
    → (bytes_eq k j && creates j) ≡ bytes_eq k j
accepted_key creates k j h = elim (Bool-cases (bytes_eq k j)) [
  | inl same ↦ rw same (rw ((bytes_eq_iff k j).0 same) at h)
  | inr other ↦ rw other refl
]

module _ {F : Type 0} (creates : Bytes → Bool) (override_c_type : Bool) where
  abbrev Creatable : List (Bytes × List (GaugeStruct F)) → Type 0
  Creatable m = (j : Bytes) → is_known j m ≡ true → creates j ≡ true

  -- No key twice in the map of gauges, and only keys of instruments that the meter accepted.
  abbrev pub Tidy : List (Bytes × List (GaugeStruct F)) → Type 0
  Tidy m = Distinct m × Creatable m

  abbrev gauge_of : Report F → GaugeStruct F
  gauge_of r = record { gauge_value = r.value; gauge_tags = r.tags }

  -- The gauges among the reports that have the key, if its instrument can be made.
  abbrev pub gauges_of : Bytes → List (Report F) → List (GaugeStruct F)
  gauges_of j [] = []
  gauges_of j (r ∷ rs) =
      let rest = gauges_of j rs in
      if not (is_counter creates override_c_type r) && (bytes_eq (key_of_report r) j && creates j)
      then gauge_of r ∷ rest
      else rest

  insert-Creatable :
      (k : Bytes) (v : List (GaugeStruct F)) (m : List (Bytes × List (GaugeStruct F)))
      → creates k ≡ true
      → Creatable m
      → Creatable (insert k v m)
  insert-Creatable k v m ok c j h = elim (Bool-cases (bytes_eq k j)) [
    | inl same ↦ rw (sym ((bytes_eq_iff k j).0 same)) ok
    | inr other ↦ c j (ground (arith, lookup-insert k j v m))
  ]

  stash-held :
      (k j : Bytes) (g : GaugeStruct F) (m : List (Bytes × List (GaugeStruct F)))
      → held j (insert k (held k m ++ g ∷ []) m) ≡ held j m ++ (if bytes_eq k j then g ∷ [] else [])
  stash-held k j g m = elim (Bool-cases (bytes_eq k j)) [
    | inl same ↦ held-insert k j (held k m ++ g ∷ []) m ∙ rw (same, (bytes_eq_iff k j).0 same) refl
    | inr other ↦ held-insert k j (held k m ++ g ∷ []) m ∙ rw other (sym (append-nil (held j m)))
  ]

  stash-Tidy :
      (k : Bytes) (v : List (GaugeStruct F)) (m : List (Bytes × List (GaugeStruct F)))
      → creates k ≡ true
      → Tidy m
      → Tidy (insert k v m)
  stash-Tidy k v m ok t = (insert-Distinct k v m t.0, insert-Creatable k v m ok t.1)

  -- A call of addMetric for a gauge, by whether the instrument is there or can be made.
  data Effect (r : Report F) (m : List (Bytes × List (GaugeStruct F)))
      : List (Bytes × List (GaugeStruct F)) → Type 0 where
    unchanged :
        (is_counter creates override_c_type r ≡ true) ⊎ (creates (key_of_report r) ≡ false)
        → Effect r m m
    stashed :
        is_counter creates override_c_type r ≡ false
        → creates (key_of_report r) ≡ true
        → Effect r m (insert (key_of_report r) (held (key_of_report r) m ++ gauge_of r ∷ []) m)

  add_metric-Effect :
      (r : Report F) (s : Instruments F)
      → Creatable s.gauge_map
      → Effect r s.gauge_map (add_metric creates override_c_type r s).gauge_map
  unfolding add_metric
  add_metric-Effect r s c = elim (Bool-cases (is_counter creates override_c_type r)) [
    | inl counter ↦ elim (Bool-cases (is_known (key_of_report r) s.counter_map)) [
      | inl known ↦ rw counter (rw known (unchanged (inl counter)))
      | inr new ↦ elim (Bool-cases (creates (key_of_report r))) [
        | inl ok ↦ rw counter (rw new (rw ok (unchanged (inl counter))))
        | inr refused ↦ rw counter (rw new (rw refused (unchanged (inl counter))))
      ]
    ]
    | inr gauge ↦ elim (Bool-cases (is_known (key_of_report r) s.gauge_map)) [
      | inl known ↦ rw gauge (rw known (stashed gauge (c (key_of_report r) known)))
      | inr new ↦ elim (Bool-cases (creates (key_of_report r))) [
        | inl ok ↦ rw gauge (rw new (rw ok (stashed gauge ok)))
        | inr refused ↦ rw gauge (rw new (rw refused (unchanged (inr refused))))
      ]
    ]
  ]

  Effect-Tidy :
      (r : Report F) {m n : List (Bytes × List (GaugeStruct F))} → Effect r m n → Tidy m → Tidy n
  Effect-Tidy r (unchanged h) t = t
  Effect-Tidy r (stashed h ok) t = stash-Tidy (key_of_report r) _ _ ok t

  gauges_of-refused :
      (r : Report F) (rs : List (Report F)) (j : Bytes)
      → creates (key_of_report r) ≡ false
      → gauges_of j (r ∷ rs) ≡ gauges_of j rs
  gauges_of-refused r rs j h = elim (Bool-cases (is_counter creates override_c_type r)) [
    | inl counter ↦ rw counter refl
    | inr gauge ↦ rw gauge (rw (refused_key creates (key_of_report r) j h) refl)
  ]

  one_more :
      (b : Bool) (g : GaugeStruct F) (gs rest : List (GaugeStruct F))
      → (gs ++ (if b then g ∷ [] else [])) ++ rest ≡ gs ++ (if b then g ∷ rest else rest)
  one_more true g gs rest = append_assoc gs (g ∷ []) rest
  one_more false g gs rest = ap (λ (s : List (GaugeStruct F)). s ++ rest) (append-nil gs)

  gauges_of-accepted :
      (r : Report F) (rs : List (Report F)) (j : Bytes)
      → is_counter creates override_c_type r ≡ false
      → creates (key_of_report r) ≡ true
      → gauges_of j (r ∷ rs)
        ≡ (if bytes_eq (key_of_report r) j then gauge_of r ∷ gauges_of j rs else gauges_of j rs)
  gauges_of-accepted r rs j gauge h =
      rw gauge (rw (accepted_key creates (key_of_report r) j h) refl)

  Effect-held :
      (r : Report F) (rs : List (Report F)) (j : Bytes) (m : List (Bytes × List (GaugeStruct F)))
      {n : List (Bytes × List (GaugeStruct F))}
      → Effect r m n
      → held j n ++ gauges_of j rs ≡ held j m ++ gauges_of j (r ∷ rs)
  Effect-held r rs j m (unchanged (inl counter)) = rw counter refl
  Effect-held r rs j m (unchanged (inr refused)) =
      ap (λ (s : List (GaugeStruct F)). held j m ++ s) (sym (gauges_of-refused r rs j refused))
  Effect-held r rs j m (stashed gauge ok) =
      ap (λ (s : List (GaugeStruct F)). s ++ gauges_of j rs)
        (stash-held (key_of_report r) j (gauge_of r) m)
      ∙ one_more (bytes_eq (key_of_report r) j) (gauge_of r) (held j m) (gauges_of j rs)
      ∙ ap (λ (s : List (GaugeStruct F)). held j m ++ s) (sym (gauges_of-accepted r rs j gauge ok))

  pub add_metrics-held :
      (rs : List (Report F)) (s : Instruments F)
      → Tidy s.gauge_map
      → Tidy (add_metrics creates override_c_type rs s).gauge_map
        × ((j : Bytes)
            → held j (add_metrics creates override_c_type rs s).gauge_map
              ≡ held j s.gauge_map ++ gauges_of j rs)
  unfolding add_metrics
  add_metrics-held [] s t = (t, λ j. sym (append-nil (held j s.gauge_map)))
  add_metrics-held (r ∷ rs) s t =
      let e = add_metric-Effect r s t.1 in
      let s' = add_metric creates override_c_type r s in
      let (t', h) = add_metrics-held rs s' (Effect-Tidy r e t) in
      (t', λ j. h j ∙ Effect-held r rs j s.gauge_map e)

  -- The map of gauges after a collection that reports rs: emptied, filled and freed of what is nil.
  pub cycle-held :
      (rs : List (Report F)) (s : Instruments F)
      → Tidy s.gauge_map
      → let s' =
          add_metrics creates override_c_type rs
            (record s { gauge_map = clear_gauges s.gauge_map }) in
        Tidy (evict_gauges s'.gauge_map)
        × ((j : Bytes) → lookup j (evict_gauges s'.gauge_map) ≡ kept (gauges_of j rs))
  cycle-held rs s t =
      let s0 = record s { gauge_map = clear_gauges s.gauge_map } in
      let s' = add_metrics creates override_c_type rs s0 in
      let cleared : Tidy s0.gauge_map =
        (clear-Distinct s.gauge_map t.0, λ j h. t.1 j (sym (clear-is_known j s.gauge_map) ∙ h)) in
      let (filled, h) = add_metrics-held rs s0 cleared in
      (
        (
          evict-Distinct s'.gauge_map filled.0,
          λ j k. filled.1 j (evict-is_known j s'.gauge_map filled.0 k),
        ),
        λ j.
            evict-lookup j s'.gauge_map filled.0
            ∙ ap kept (
                h j
                ∙ ap (λ (gs : List (GaugeStruct F)). gs ++ gauges_of j rs)
                    (clear-held j s.gauge_map)),
      )
