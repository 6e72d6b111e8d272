-- ===== src/Otel/Gauges/Slices.antt =====
-- cmd/mq_otel/reader.go: the map of gauges as an association list, with the loops that empty the slices
-- and delete the nil ones.
use mq_metric_samples.Prelude.{
  Bytes, bytes_eq, bytes_eq_iff, true, List, [], ◌∷◌, Option, none, some, lookup, insert,
  lookup-insert, if◌then◌else◌, ◌≡◌, refl, sym, ◌∙◌, ap, arith, Bool-cases, inl, inr,
}
use mq_metric_samples.Otel.Gauges.{
  GaugeStruct, or_nil, is_some, held, is_known, clear_gauges, evict_gauges,
}

-- No key stands twice in the map.
abbrev pub Distinct : {F : Type 0} → List (Bytes × List (GaugeStruct F)) → Type 0
Distinct [] = Unit
Distinct ((k, gs) ∷ m) = (lookup k m ≡ none) × Distinct m

pub insert-Distinct :
    {F : Type 0} (k : Bytes) (v : List (GaugeStruct F)) (m : List (Bytes × List (GaugeStruct F)))
    → Distinct m
    → Distinct (insert k v m)
unfolding insert lookup
insert-Distinct k v [] d = (refl, tt)
insert-Distinct k v ((i, gs) ∷ m) d = elim (Bool-cases (bytes_eq i k)) [
  | inl same ↦ rw same (rw ((bytes_eq_iff i k).0 same) at d)
  | inr other ↦ rw other (
    lookup-insert k i v m ∙ ground (arith, bytes_eq_iff i k, bytes_eq_iff k i),
    insert-Distinct k v m d.1,
  )
]

pub held-insert :
    {F : Type 0} (k j : Bytes) (v : List (GaugeStruct F)) (m : List (Bytes × List (GaugeStruct F)))
    → held j (insert k v m) ≡ (if bytes_eq k j then v else held j m)
held-insert k j v m = ground (arith, lookup-insert k j v m)

pub clear-held :
    {F : Type 0} (j : Bytes) (m : List (Bytes × List (GaugeStruct F)))
    → held j (clear_gauges m) ≡ []
unfolding clear_gauges lookup
clear-held j [] = refl
clear-held j ((k, gs) ∷ m) = ground (arith, clear-held j m)

pub clear-none :
    {F : Type 0} (j : Bytes) (m : List (Bytes × List (GaugeStruct F)))
    → lookup j m ≡ none
    → lookup j (clear_gauges m) ≡ none
unfolding clear_gauges lookup
clear-none j [] h = refl
clear-none j ((k, gs) ∷ m) h = ground (arith, clear-none j m)

pub clear-Distinct :
    {F : Type 0} (m : List (Bytes × List (GaugeStruct F))) → Distinct m → Distinct (clear_gauges m)
unfolding clear_gauges
clear-Distinct [] d = tt
clear-Distinct ((k, gs) ∷ m) d = (clear-none k m d.0, clear-Distinct m d.1)

-- What is left of a slice when nil ones are deleted.
abbrev pub kept {ℓ} : {A : Type ℓ} → List A → Option (List A)
kept [] = none
kept (x ∷ xs) = some (x ∷ xs)

pub evict-lookup :
    {F : Type 0} (j : Bytes) (m : List (Bytes × List (GaugeStruct F)))
    → Distinct m
    → lookup j (evict_gauges m) ≡ kept (held j m)
unfolding evict_gauges lookup
evict-lookup j [] d = refl
evict-lookup j ((k, []) ∷ m) d = elim (Bool-cases (bytes_eq k j)) [
  | inl same ↦
      rw same
        (evict-lookup j m d.1 ∙ ap (λ o. kept (or_nil o)) (rw ((bytes_eq_iff k j).0 same) at d.0))
  | inr other ↦ rw other (evict-lookup j m d.1)
]
evict-lookup j ((k, g ∷ gs) ∷ m) d = ground (arith, evict-lookup j m d.1)

pub clear-is_known :
    {F : Type 0} (j : Bytes) (m : List (Bytes × List (GaugeStruct F)))
    → is_known j (clear_gauges m) ≡ is_known j m
unfolding clear_gauges lookup
clear-is_known j [] = refl
clear-is_known j ((k, gs) ∷ m) = ground (arith, clear-is_known j m)

evict-none :
    {F : Type 0} (j : Bytes) (m : List (Bytes × List (GaugeStruct F)))
    → Distinct m
    → lookup j m ≡ none
    → lookup j (evict_gauges m) ≡ none
evict-none j m d h = evict-lookup j m d ∙ ap (λ o. kept (or_nil o)) h

pub evict-Distinct :
    {F : Type 0} (m : List (Bytes × List (GaugeStruct F))) → Distinct m → Distinct (evict_gauges m)
unfolding evict_gauges
evict-Distinct [] d = tt
evict-Distinct ((k, []) ∷ m) d = evict-Distinct m d.1
evict-Distinct ((k, g ∷ gs) ∷ m) d = (evict-none k m d.1 d.0, evict-Distinct m d.1)

known-kept :
    {A : Type 0} (o : Option (List A)) → is_some (kept (or_nil o)) ≡ true → is_some o ≡ true
known-kept none h = h
known-kept (some xs) h = refl

pub evict-is_known :
    {F : Type 0} (j : Bytes) (m : List (Bytes × List (GaugeStruct F)))
    → Distinct m
    → is_known j (evict_gauges m) ≡ true
    → is_known j m ≡ true
evict-is_known j m d h = known-kept (lookup j m) (ap is_some (sym (evict-lookup j m d)) ∙ h)
