-- ===== src/Config/Verify/Late/Fill.antt =====
-- Filling the metric filters changes the two families of sets and nothing else.
use mq_metric_samples.Prelude.{
  ℕ, Bytes, String, List, [], ◌∷◌, ◌≡◌, refl, ◌∙◌, arith, is_empty, Bool-cases, inl, inr, split,
  remove_byte,
}
use mq_metric_samples.Config.Init.{ot_string}
use mq_metric_samples.Config.NameSets.{Side, including, excluding, filter_var, write_name}
use mq_metric_samples.Config.Record.{Config}
use mq_metric_samples.Config.Verify.Frames.{Keeps, >>=-eq-passed}
use mq_metric_samples.Config.Verify.Late.{write_or_panic, write_names, fill_side, fill_filters}
use mq_metric_samples.Config.Verify.Steps.{str_of}

pub record SameButSets (c c' : Config) : Type 0 where
  pub vars : c'.vars ≡ c.vars
  pub tags : c'.metadata_tags_array ≡ c.metadata_tags_array
  pub values : c'.metadata_values_array ≡ c.metadata_values_array
  pub offset : c'.tz_offset_secs ≡ c.tz_offset_secs
  pub poll : c'.poll_interval_duration ≡ c.poll_interval_duration
  pub rediscover : c'.rediscover_duration ≡ c.rediscover_duration

SameButSets-trans : (a b c : Config) → SameButSets a b → SameButSets b c → SameButSets a c
SameButSets-trans a b c f g = record {
  vars = g.vars ∙ f.vars;
  tags = g.tags ∙ f.tags;
  values = g.values ∙ f.values;
  offset = g.offset ∙ f.offset;
  poll = g.poll ∙ f.poll;
  rediscover = g.rediscover ∙ f.rediscover;
}

SameButSets-eq : (c c' : Config) → c ≡ c' → SameButSets c c'
SameButSets-eq c c' e = rw (← e) (record {
  vars = refl;
  tags = refl;
  values = refl;
  offset = refl;
  poll = refl;
  rediscover = refl;
})

write_name-SameButSets :
    (side : Side) (i : ℕ) (n : Bytes)
    → Keeps SameButSets (λ c. write_or_panic (write_name side i n c))
unfolding write_or_panic write_name
write_name-SameButSets including i n c c' h = ground arith
write_name-SameButSets excluding i n c c' h = ground arith

write_names-SameButSets :
    (side : Side) (i : ℕ) (ns : List Bytes) → Keeps SameButSets (write_names side i ns)
unfolding write_names
write_names-SameButSets side i [] c c' h = SameButSets-eq c c' (cc h)
write_names-SameButSets side i (n ∷ ns) c c' h =
    let (b, first, rest) =
      >>=-eq-passed (write_or_panic (write_name side i n c)) (write_names side i ns) h in
    SameButSets-trans c b c' (write_name-SameButSets side i n c b first)
      (write_names-SameButSets side i ns b c' rest)

fill_side-SameButSets :
    (side : Side) (ots : List (String × ℕ)) → Keeps SameButSets (fill_side side ots)
unfolding fill_side
fill_side-SameButSets side [] c c' h = SameButSets-eq c c' (cc h)
fill_side-SameButSets side ((ot, i) ∷ rest) c c' h =
    let s = remove_byte b' ' (str_of c (filter_var side ot)) in
    elim (Bool-cases (is_empty s)) [
      | inl e ↦ fill_side-SameButSets side rest c c' (rw e at h)
      | inr e ↦
          let h' = rw e at h in
          let (b, first, more) =
            >>=-eq-passed (write_names side i (split b',' s) c) (fill_side side rest) h' in
          SameButSets-trans c b c' (write_names-SameButSets side i (split b',' s) c b first)
            (fill_side-SameButSets side rest b c' more)
    ]

pub fill_filters-SameButSets : Keeps SameButSets fill_filters
unfolding fill_filters
fill_filters-SameButSets c c' h =
    let (b, first, rest) =
      >>=-eq-passed (fill_side including ot_string c) (fill_side excluding ot_string) h in
    SameButSets-trans c b c' (fill_side-SameButSets including ot_string c b first)
      (fill_side-SameButSets excluding ot_string b c' rest)
