-- ===== src/Json/Labels.antt =====
-- cmd/mq_json/exporter.go (and the same text in cmd/mq_otel/reader.go and cmd/mq_prometheus/
-- exporter.go): addMetaLabels, which puts the configured metadata on a metric's tags.
use mq_metric_samples.Prelude.{
  ℕ, zero, suc, Bytes, is_empty, bytes_eq, bytes_eq_iff, lookup, insert, lookup-insert, length,
  get_elem?, false, List, [], ◌∷◌, Option, some, ◌>>=◌, In, here, there, ◌≡◌, refl, ◌∙◌, arith, ◌⊎◌,
  inl, inr, Bool-cases, bytes_eq_self, ◌+◌, ◌≤◌, ◌<◌,
}
use mq_metric_samples.Config.Record.{Config}
use mq_metric_samples.Config.Verify.Steps.{Externals, passed, str_of}
use mq_metric_samples.Config.Verify.Verified.{verify_config-IsVerified}
use mq_metric_samples.Config.Verify.Whole.{verify_config}

abbrev pub Tags : Type 0
Tags = List (Bytes × Bytes)

-- The loop over the configured names from index i; `none` is a panic, where there are fewer values.
unfoldable pub meta_labels_from : List Bytes → List Bytes → ℕ → Tags → Option Tags
meta_labels_from [] values i tags = some tags
meta_labels_from (n ∷ names) values i tags =
    get_elem? values i >>= λ v. meta_labels_from names values (suc i) (insert n v tags)

unfoldable pub add_meta_labels : Config → Tags → Option Tags
unfolding meta_labels_from
add_meta_labels c tags = meta_labels_from c.metadata_tags_array c.metadata_values_array 0 tags

get_elem?-In :
    (vs : List Bytes) (i : ℕ) → i < length vs → (v : Bytes) × (get_elem? vs i ≡ some v) × In v vs
get_elem?-In (v ∷ vs) zero h = (v, refl, here)
get_elem?-In (v ∷ vs) (suc i) h =
    let (w, at, w-In) = get_elem?-In vs i (omega arith) in (w, at, there w-In)
get_elem?-In [] i h = absurd (omega arith)

-- One of the configured values.
abbrev pub IsValue : List Bytes → Option Bytes → Type 0
IsValue values o = (v : Bytes) × In v values × (o ≡ some v)

IsValue-insert :
    (k n v : Bytes) (values : List Bytes) (tags : Tags)
    → In v values
    → IsValue values (lookup k tags)
    → IsValue values (lookup k (insert n v tags))
IsValue-insert k n v values tags i f = elim (Bool-cases (bytes_eq n k)) [
  | inl same ↦ (v, i, lookup-insert n k v tags ∙ rw same refl)
  | inr other ↦ (f.0, f.1, lookup-insert n k v tags ∙ rw other f.2)
]

lookup-insert_self : (k v : Bytes) (tags : Tags) → lookup k (insert k v tags) ≡ some v
lookup-insert_self k v tags = lookup-insert k k v tags ∙ rw bytes_eq_self refl

lookup-insert_other :
    (k n v : Bytes) (tags : Tags) → (n ≡ k → ⊥) → lookup k (insert n v tags) ≡ lookup k tags
lookup-insert_other k n v tags h = ground (arith, lookup-insert n k v tags, bytes_eq_iff n k)

pub record Labelled (names values : List Bytes) (tags tags' : Tags) : Type 0 where
  pub kept : (k : Bytes) → ¬ In k names → lookup k tags' ≡ lookup k tags
  pub given :
      (k : Bytes) → In k names ⊎ IsValue values (lookup k tags) → IsValue values (lookup k tags')

given_after :
    (n v : Bytes) (names values : List Bytes) (tags tags' : Tags)
    → In v values
    → Labelled names values (insert n v tags) tags'
    → (k : Bytes) → In k (n ∷ names) ⊎ IsValue values (lookup k tags)
    → IsValue values (lookup k tags')
given_after n v names values tags tags' i l k (inl here) =
    l.given k (inr (v, i, lookup-insert_self k v tags))
given_after n v names values tags tags' i l k (inl (there j)) = l.given k (inl j)
given_after n v names values tags tags' i l k (inr f) =
    l.given k (inr (IsValue-insert k n v values tags i f))

pub meta_labels_from-Labelled :
    (names values : List Bytes) (i : ℕ) (tags : Tags)
    → i + length names ≤ length values
    → (tags' : Tags) × (meta_labels_from names values i tags ≡ some tags')
      × Labelled names values tags tags'
unfolding meta_labels_from
meta_labels_from-Labelled [] values i tags h = (
  tags,
  refl,
  record { kept = λ k out. refl; given = λ k e. elim e [ inl at ↦ elim at [ ] | inr f ↦ f ] },
)
meta_labels_from-Labelled (n ∷ names) values i tags h =
    let (v, at, v-In) = get_elem?-In values i (omega arith) in
    let (tags', ran, l) =
      meta_labels_from-Labelled names values (suc i) (insert n v tags) (omega arith) in
    (
      tags',
      rw at ran,
      record {
        kept = λ k out.
            l.kept k (λ j. out (there j)) ∙ lookup-insert_other k n v tags (λ e. out (rw e here));
        given = given_after n v names values tags tags' v-In l;
      },
    )

-- After VerifyConfig has let a configuration with metadata tags through, the labels are added
-- without a panic: every configured name then has one of the configured values, and every other
-- label is what it was.
pub add_meta_labels-Labelled :
    (ext : Externals) (c c' : Config) (tags : Tags)
    → verify_config ext c ≡ passed c'
    → is_empty (str_of c' "cm.metadataTags") ≡ false
    → (tags' : Tags) × (add_meta_labels c' tags ≡ some tags')
      × ((k : Bytes)
          → In k c'.metadata_tags_array
          → IsValue c'.metadata_values_array (lookup k tags'))
      × ((k : Bytes) → ¬ In k c'.metadata_tags_array → lookup k tags' ≡ lookup k tags)
unfolding add_meta_labels
add_meta_labels-Labelled ext c c' tags h some_tags =
    let lengths = ((verify_config-IsVerified ext c c' h).last.metadata some_tags).2 in
    let (tags', ran, l) =
      meta_labels_from-Labelled c'.metadata_tags_array c'.metadata_values_array 0 tags
        (omega (arith, lengths)) in
    (tags', ran, (λ k i. l.given k (inl i)), l.kept)
