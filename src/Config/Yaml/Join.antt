-- ===== src/Config/Yaml/Join.antt =====
-- A YAML array is joined to one text and split again by VerifyConfig and mqmetric.
use mq_metric_samples.Prelude.{
  ℕ, Bytes, Free, split, List, [], ◌∷◌, ◌++◌, append_assoc, All, ◌≡◌, refl, sym, ◌∙◌, ap, arith,
  append-nil,
}
use mq_metric_samples.Config.Yaml.Copy.{join, join_onto}

split-Free : (sep : ℕ) (w : Bytes) → Free sep w → split sep w ≡ w ∷ []
unfolding split
split-Free sep [] h = refl
split-Free sep (c ∷ w) h = ground (arith, split-Free sep w h.1, h.0)

split-append_sep :
    (sep : ℕ) (w rest : Bytes) → Free sep w → split sep (w ++ (sep ∷ rest)) ≡ w ∷ split sep rest
unfolding split
split-append_sep sep [] rest h = ground arith
split-append_sep sep (c ∷ w) rest h = ground (arith, split-append_sep sep w rest h.1, h.0)

-- What the loop adds behind the first element.
abbrev added : List Bytes → Bytes
added [] = []
added (v ∷ vs) = b',' ∷ (v ++ added vs)

join_onto-added : (s : Bytes) (vs : List Bytes) → join_onto s vs ≡ s ++ added vs
unfolding join_onto
join_onto-added s [] = sym (append-nil s)
join_onto-added s (v ∷ vs) =
    join_onto-added (s ++ (b',' ∷ v)) vs ∙ append_assoc s (b',' ∷ v) (added vs)

split-added :
    (v : Bytes) (vs : List Bytes) → All (Free b',') (v ∷ vs) → split b',' (v ++ added vs) ≡ v ∷ vs
split-added v [] h = rw append-nil (split-Free b',' v h.0)
split-added v (w ∷ vs) h =
    split-append_sep b',' v (w ++ added vs) h.0 ∙ ap (◌∷◌ v) (split-added w vs h.1)

-- An array with at least one element, of which none holds the separator, comes back.
pub split-join :
    (v : Bytes) (vs : List Bytes) → All (Free b',') (v ∷ vs) → split b',' (join (v ∷ vs)) ≡ v ∷ vs
unfolding join
split-join v vs h = rw join_onto-added (split-added v vs h)
