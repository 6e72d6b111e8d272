-- ===== src/Prometheus/Labels/Accepted.antt =====
-- cmd/mq_prometheus/exporter.go: labels with the names of a vector, and the metadata.
use mq_metric_samples.Prelude.{
  ◌≤◌, Bytes, Bool, true, false, List, ◌++◌, Option, some, length, All, ◌≡◌, sym, arith,
}
use mq_metric_samples.Config.Record.{Config}
use mq_metric_samples.Json.Labels.{Tags, add_meta_labels}
use mq_metric_samples.Prometheus.Labels.Cover.{
  Covers, Distinct, ValidTexts, member, exact→Covers, is_exact, meta_labels_from-Covers,
  meta_labels_from-ValidTexts,
}
use mq_metric_samples.Prometheus.Labels.Match.{reserved, Holds, panics, gives}

pub Holds-some : {A : Type 0} {P : A → Type 0} {o : Option A} {a : A} → Holds P o → o ≡ some a → P a
Holds-some panics h = cc h
Holds-some {P = P} {a = a} (gives {a = b} p) h = let e : b ≡ a = cc h in rw (sym e) p

-- Names for the metadata that the collector can use: each once, none of its own, and with values.
abbrev pub MetadataFits : Config → Type 0
MetadataFits c =
    Distinct c.metadata_tags_array
    × All (λ m. member m reserved ≡ false) c.metadata_tags_array
    × (length c.metadata_tags_array ≤ length c.metadata_values_array)

-- Labels with exactly the names of a vector are covered by them, with the metadata, once that is added.
pub exact-Covers :
    (c : Config) (names : List Bytes) (base : Tags)
    → MetadataFits c
    → is_exact reserved names base ≡ true
    → (labels : Tags) × (add_meta_labels c base ≡ some labels)
      × Covers (names ++ c.metadata_tags_array) labels
unfolding add_meta_labels
exact-Covers c names base m exact =
    let (covers, new) = exact→Covers reserved names base c.metadata_tags_array exact m.1 in
    meta_labels_from-Covers c.metadata_tags_array c.metadata_values_array 0 names base
      (omega (arith, m.2)) m.0 new covers

-- The metadata leaves the texts of the labels valid.
pub add_meta_labels-ValidTexts :
    (valid_text : Bytes → Bool) (c : Config) (base labels : Tags)
    → All (λ v. valid_text v ≡ true) c.metadata_values_array
    → ValidTexts valid_text base
    → add_meta_labels c base ≡ some labels
    → ValidTexts valid_text labels
unfolding add_meta_labels
add_meta_labels-ValidTexts valid_text c base labels texts t added =
    meta_labels_from-ValidTexts valid_text c.metadata_tags_array c.metadata_values_array 0 base
      labels texts t added
