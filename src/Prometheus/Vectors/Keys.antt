-- ===== src/Prometheus/Vectors/Keys.antt =====
-- cmd/mq_prometheus/exporter.go: the keys that makeKey gives to the published metrics.
use mq_metric_samples.Prelude.{ℕ, Bytes, Free, [], ◌∷◌, ◌++◌, ◌≡◌, refl, sym, ◌∙◌, append_assoc}
use mq_metric_samples.Mqmetric.{Element}
use mq_metric_samples.Prometheus.Vectors.{make_key}

-- A text up to its first separator is unique.
cut_unique :
    (sep : ℕ) (a b x y : Bytes)
    → Free sep a
    → Free sep b
    → a ++ sep ∷ x ≡ b ++ sep ∷ y
    → (a ≡ b) × (x ≡ y)
cut_unique sep [] [] x y f g h = (refl, cc h)
cut_unique sep [] (c ∷ b) x y f g h = absurd (g.0 (cc h))
cut_unique sep (c ∷ a) [] x y f g h = absurd (f.0 (cc h))
cut_unique sep (c ∷ a) (d ∷ b) x y f g h =
    let tails : a ++ sep ∷ x ≡ b ++ sep ∷ y = cc h in
    let heads : c ≡ d = cc h in
    let (same, rest) = cut_unique sep a b x y f.1 g.1 tails in (cc (heads, same), rest)

make_key_lem :
    (e : Element) → make_key e ≡ e.class_name ++ b'/' ∷ (e.type_name ++ b'/' ∷ e.element_name)
unfolding make_key
make_key_lem e = simp append_assoc

-- As long as the names of classes and types have no slash, two published metrics have the same key
-- only if they agree in class, type and name.
pub make_key-injective :
    (e f : Element)
    → Free b'/' e.class_name
    → Free b'/' e.type_name
    → Free b'/' f.class_name
    → Free b'/' f.type_name
    → make_key e ≡ make_key f
    → (e.class_name ≡ f.class_name)
      × (e.type_name ≡ f.type_name)
      × (e.element_name ≡ f.element_name)
make_key-injective e f ce te cf tf h =
    let (class, rest) =
      cut_unique b'/' e.class_name f.class_name (e.type_name ++ b'/' ∷ e.element_name)
        (f.type_name ++ b'/' ∷ f.element_name) ce cf (sym (make_key_lem e) ∙ h ∙ make_key_lem f) in
    let (type, name) =
      cut_unique b'/' e.type_name f.type_name e.element_name f.element_name te tf rest in
    (class, type, name)
