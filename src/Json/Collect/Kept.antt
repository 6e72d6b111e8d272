-- ===== src/Json/Collect/Kept.antt =====
-- cmd/mq_json/exporter.go, Collect: the maps that are filled in a call keep their points in the store.
use mq_metric_samples.Prelude.{
  Bytes, codes, insert, ◌<◌, ◌≤◌, length, lookup, Bool, true, false, List, [], ◌∷◌, Option, none,
  some, ◌>>=◌, >>=-eq-some, ◌≡◌, refl, sym, arith, if◌then◌else◌,
}
use native.Mathlib.Nat.{le_trans}
use mq_metric_samples.Prelude.Int.{ℤ}
use mq_metric_samples.Config.Record.{Config}
use mq_metric_samples.Config.Verify.Steps.{bool_of}
use mq_metric_samples.Json.Collect.Publish.{
  q_mgr_map_key, published_point, add_point_in, publish_value, publish_values, publish,
  statistics_point, WithStats, statistics_value, statistics_values, statistics_set, statistics,
  put_count, count_publications,
}
use mq_metric_samples.Json.Points.Merge.Stored.{
  InStore, IsStored, lookup-InStore, insert-InStore, InStore-mono, Kept, add_point-Keeps,
  put_metric-Kept,
}
use mq_metric_samples.Json.Points.Merge.{add_point}
use mq_metric_samples.Json.Points.{Point, PointMap, Points, Described}
use mq_metric_samples.Mqmetric.{
  Value, Attribute, StatusSet, Element, Mq, ObjectType, ot_q, ot_q_mgr,
}

module _ {F : Type 0} (trim_space : Bytes → Bytes) (topic_key : Bytes → Bytes → Bytes) (mq : Mq F)
    (c : Config) where
  -- A map beside the others.
  abbrev Beside : Points F → PointMap × Points F → Type 0
  Beside p r = InStore (length r.1.store) r.0 × IsStored r.1 × (length p.store ≤ length r.1.store)

  add_point_in-Beside :
      (m : PointMap) (d : Described) (name : Bytes) (f : F) (p : Points F) {r : PointMap × Points F}
      → InStore (length p.store) m
      → IsStored p
      → add_point_in trim_space topic_key mq c m d name f p ≡ some r
      → Beside p r
  unfolding add_point_in
  add_point_in-Beside m d name f p {r} in_m s e =
      let view : Points F = record p { published = m; status = m } in
      let (p', added, is) = >>=-eq-some (add_point trim_space topic_key mq c d name f view) _ e in
      let (s', le) =
        add_point-Keeps trim_space topic_key mq c d name f view p' (in_m, in_m) added in
      let q : (p'.status, record p' { published = p.published; status = p.status }) ≡ r = cc is in
      rw (sym q) (s'.1, (InStore-mono p.published le s.0, InStore-mono p.status le s.1), le)

  publish_value-Kept :
      (elem : Element) (v : Bytes × ℤ) (p : Points F) {p' : Points F}
      → IsStored p
      → publish_value trim_space topic_key mq c elem v p ≡ some p'
      → Kept trim_space topic_key mq c p p'
  unfolding publish_value
  publish_value-Kept elem (key, value) p {p'} s e =
      let (r, added, is) =
        >>=-eq-some
          (add_point_in trim_space topic_key mq c p.published
            (published_point trim_space topic_key mq c key) elem.element_name
            (mq.normalise_element elem key value) p)
          _ e in
      let (in_map, s', le) =
        add_point_in-Beside p.published (published_point trim_space topic_key mq c key)
          elem.element_name (mq.normalise_element elem key value) p s.0 s added in
      let q : record r.1 { published = r.0 } ≡ p' = cc is in rw (sym q) ((in_map, s'.1), le)

  publish_values-Kept :
      (elem : Element) (vs : List (Bytes × ℤ)) (p : Points F) {p' : Points F}
      → IsStored p
      → publish_values trim_space topic_key mq c elem vs p ≡ some p'
      → Kept trim_space topic_key mq c p p'
  unfolding publish_values
  publish_values-Kept elem [] p {p'} s e = let q : p ≡ p' = cc e in rw (sym q) (s, omega arith)
  publish_values-Kept elem (v ∷ vs) p s e =
      let (p₁, first, rest) = >>=-eq-some (publish_value trim_space topic_key mq c elem v p) _ e in
      let (s₁, le₁) = publish_value-Kept elem v p s first in
      let (s', le') = publish_values-Kept elem vs p₁ s₁ rest in (s', le_trans le₁ le')

  pub publish-Kept :
      (elems : List Element) (p : Points F) {p' : Points F}
      → IsStored p
      → publish trim_space topic_key mq c elems p ≡ some p'
      → Kept trim_space topic_key mq c p p'
  unfolding publish
  publish-Kept [] p {p'} s e = let q : p ≡ p' = cc e in rw (sym q) (s, omega arith)
  publish-Kept (elem ∷ elems) p s e =
      let (p₁, first, rest) =
        >>=-eq-some (publish_values trim_space topic_key mq c elem elem.element_values p) _ e in
      let (s₁, le₁) = publish_values-Kept elem elem.element_values p s first in
      let (s', le') = publish-Kept elems p₁ s₁ rest in (s', le_trans le₁ le')

  -- The same for the map of the statistics with the rest.
  abbrev KeepsStats :
      (WithStats trim_space topic_key mq c → Option (WithStats trim_space topic_key mq c)) → Type 0
  KeepsStats g =
      (s s' : WithStats trim_space topic_key mq c)
      → InStore (length s.1.store) s.0
      → IsStored s.1
      → g s ≡ some s'
      → Beside s.1 s'

  unchanged : KeepsStats some
  unchanged s s' in_m st e = let q : s ≡ s' = cc e in rw (sym q) (in_m, st, omega arith)

  then_stats :
      {g h : WithStats trim_space topic_key mq c → Option (WithStats trim_space topic_key mq c)}
      → KeepsStats g
      → KeepsStats h
      → KeepsStats (λ s. g s >>= h)
  then_stats {g} keeps_g keeps_h s s' in_m st e =
      let (s₁, first, rest) = >>=-eq-some (g s) _ e in
      let (in₁, st₁, le₁) = keeps_g s s₁ in_m st first in
      let (in', st', le') = keeps_h s₁ s' in₁ st₁ rest in (in', st', le_trans le₁ le')

  if_stats :
      (b : Bool)
      {g h : WithStats trim_space topic_key mq c → Option (WithStats trim_space topic_key mq c)}
      → KeepsStats g
      → KeepsStats h
      → KeepsStats (λ s. if b then g s else h s)
  if_stats true keeps_g keeps_h = keeps_g
  if_stats false keeps_g keeps_h = keeps_h

  for_point :
      (o : Option Described) (name : Bytes) (f : F)
      → KeepsStats (λ s. o >>= λ d. add_point_in trim_space topic_key mq c s.0 d name f s.1)
  for_point none name f s s' in_m st e = cc e
  for_point (some d) name f s s' in_m st e = add_point_in-Beside s.0 d name f s.1 in_m st e

  statistics_value-Keeps :
      (ot : ObjectType) (attr : Attribute) (v : Bytes × Value)
      → KeepsStats (statistics_value trim_space topic_key mq c ot attr v)
  unfolding statistics_value
  statistics_value-Keeps ot attr (key, value) =
      if_stats value.is_int64
        (for_point (statistics_point trim_space topic_key mq c ot key) attr.metric_name
          (mq.normalise ot attr value.value_int64))
        unchanged

  statistics_values-Keeps :
      (ot : ObjectType) (attr : Attribute) (vs : List (Bytes × Value))
      → KeepsStats (statistics_values trim_space topic_key mq c ot attr vs)
  unfolding statistics_values
  statistics_values-Keeps ot attr [] = unchanged
  statistics_values-Keeps ot attr (v ∷ vs) =
      then_stats (statistics_value-Keeps ot attr v) (statistics_values-Keeps ot attr vs)

  statistics_set-Keeps :
      (ot : ObjectType) (set : StatusSet)
      → KeepsStats (statistics_set trim_space topic_key mq c ot set)
  unfolding statistics_set
  statistics_set-Keeps ot [] = unchanged
  statistics_set-Keeps ot ((k, attr) ∷ set) =
      then_stats (statistics_values-Keeps ot attr attr.values) (statistics_set-Keeps ot set)

  pub statistics-Keeps : KeepsStats (statistics trim_space topic_key mq c)
  unfolding statistics
  statistics-Keeps =
      if_stats (bool_of c "cm.CC.UseStatistics")
        (then_stats (statistics_set-Keeps ot_q_mgr (mq.object_statistics ot_q_mgr))
          (statistics_set-Keeps ot_q (mq.object_statistics ot_q)))
        unchanged

  put_count-Kept :
      (o : Option Point) (p : Points F)
      → IsStored p
      → ((pt : Point) → o ≡ some pt → pt.metric < length p.store)
      → Kept trim_space topic_key mq c p (put_count trim_space topic_key mq c o p)
  unfolding put_count
  put_count-Kept none p s h = (s, omega arith)
  put_count-Kept (some pt) p s h =
      let view : Points F = record p { status = p.published } in
      let (s', le) =
        put_metric-Kept trim_space topic_key mq c q_mgr_map_key (codes "exporter_publications")
          mq.publication_count (record pt { object_type = [] }) view (h pt refl) (s.0, s.0) in
      (
        (
          InStore-mono (insert q_mgr_map_key pt p.published) le
              (insert-InStore q_mgr_map_key pt p.published (h pt refl) s.0),
          InStore-mono p.status le s.1,
        ),
        le,
      )

  pub count_publications-Kept :
      (p : Points F)
      → IsStored p
      → Kept trim_space topic_key mq c p (count_publications trim_space topic_key mq c p)
  unfolding count_publications
  count_publications-Kept p s =
      put_count-Kept (lookup q_mgr_map_key p.published) p s
        (λ pt e. lookup-InStore q_mgr_map_key p.published s.0 e)
