-- ===== src/Config/Yaml/Filters.antt =====
-- pkg/config/configyaml.go, CopyYamlConfig: the loops over `metricInclude` and `metricExclude`.
-- The Boolean beside the configuration is that `err` is set.
use mq_metric_samples.Prelude.{
  ℕ, Bytes, is_empty, Bool, true, [], Option, none, some, ◌>>=◌, if◌then◌else◌, String, ◌≡◌, ◌∙◌,
  arith, >>=-eq-some, Bool-cases, inl, inr,
}
use mq_metric_samples.Config.NameSets.{Side, including, excluding, filter_var, write_name, find_ot}
use mq_metric_samples.Config.Record.{Config}
use mq_metric_samples.Config.Yaml.Types.{
  Yaml, null, text, seq, mapping, YamlItems, no_items, item, YamlPairs, no_pairs, pair,
  ConfigYFilters,
}

-- `b.(string)` and the write.
write_item : Side → ℕ → Yaml → Config → Option Config
write_item side i (text n) c = write_name side i n c
write_item side i _ c = none

write_items : Side → ℕ → YamlItems → Config → Option Config
write_items side i no_items c = some c
write_items side i (item b bs) c = do c' ← write_item side i b c; write_items side i bs c'

-- `filters[otIdx]`: an unknown type has index 0, whose text nothing sets.
filter_text : Side → Option (String × ℕ) → Config → Bytes
filter_text side none c = []
filter_text side (some (ot, i)) c = c.vars.str_var (filter_var side ot)

ot_index : Option (String × ℕ) → ℕ
ot_index none = 0
ot_index (some (ot, i)) = i

-- `v` of one pair; a null is passed over, and what is no list is an error.
copy_value : Side → Option (String × ℕ) → Yaml → Config × Bool → Option (Config × Bool)
copy_value side ot null (c, err) = some (c, err)
copy_value side ot (seq bs) (c, err) =
    if is_empty (filter_text side ot c)
    then (do c' ← write_items side (ot_index ot) bs c; some (c', err))
    else some (c, err)
copy_value side ot _ (c, err) = some (c, if is_empty (filter_text side ot c) then true else err)

-- `k.(string)`.
copy_pair : Side → Yaml → Yaml → Config × Bool → Option (Config × Bool)
copy_pair side (text k) v r = copy_value side (find_ot k) v r
copy_pair side _ v r = none

unfoldable pub copy_pairs : Side → YamlPairs → Config × Bool → Option (Config × Bool)
unfolding find_ot write_name write_item write_items filter_text ot_index copy_value copy_pair
copy_pairs side no_pairs r = some r
copy_pairs side (pair k v rest) r = do r' ← copy_pair side k v r; copy_pairs side rest r'

unfoldable pub copy_filter : Side → Yaml → Config × Bool → Option (Config × Bool)
unfolding copy_pairs
copy_filter side null r = some r
copy_filter side (mapping ps) r = copy_pairs side ps r
copy_filter side _ r = none

-- A failed assertion on either map panics, before or after the first loop.
unfoldable pub copy_filters : ConfigYFilters → Config × Bool → Option (Config × Bool)
unfolding copy_filter
copy_filters cyf r = do
  r' ← copy_filter including cyf.metric_include r
  copy_filter excluding cyf.metric_exclude r'

write_name-vars :
    (side : Side) (i : ℕ) (n : Bytes) (c c' : Config)
    → write_name side i n c ≡ some c'
    → c'.vars ≡ c.vars
unfolding write_name
write_name-vars including i n c c' h = ground arith
write_name-vars excluding i n c c' h = ground arith

write_items-vars :
    (side : Side) (i : ℕ) (bs : YamlItems) (c c' : Config)
    → write_items side i bs c ≡ some c'
    → c'.vars ≡ c.vars
unfolding write_items write_item
write_items-vars side i no_items c c' h = cc h
write_items-vars side i (item (text n) bs) c c' h =
    let (b, first, rest) = >>=-eq-some (write_name side i n c) _ h in
    write_items-vars side i bs b c' rest ∙ write_name-vars side i n c b first
write_items-vars side i (item _ bs) c c' h = cc h

-- What a step leaves in the variables, whether it sets the error or not.
abbrev KeepsVars : Config × Bool → Config × Bool → Type 0
KeepsVars r r' = r'.0.vars ≡ r.0.vars

same-KeepsVars : (r r' : Config × Bool) → some r ≡ some r' → KeepsVars r r'
same-KeepsVars r r' h = let e : r ≡ r' = cc h in rw e

copy_value-KeepsVars :
    (side : Side) (ot : Option (String × ℕ)) (v : Yaml) (r r' : Config × Bool)
    → copy_value side ot v r ≡ some r'
    → KeepsVars r r'
unfolding copy_value
copy_value-KeepsVars side ot null (c, err) r' h = same-KeepsVars (c, err) r' h
copy_value-KeepsVars side ot (seq bs) (c, err) r' h =
    elim (Bool-cases (is_empty (filter_text side ot c))) [
      | inl unset ↦
          let h' : (write_items side (ot_index ot) bs c >>= λ c'. some (c', err)) ≡ some r' =
            rw unset at h in
          let (c', ran, is) = >>=-eq-some (write_items side (ot_index ot) bs c) _ h' in
          let e : (c', err) ≡ r' = cc is in
          rw (← e) (write_items-vars side (ot_index ot) bs c c' ran)
      | inr set ↦ let h' : some (c, err) ≡ some r' = rw set at h in same-KeepsVars (c, err) r' h'
    ]
copy_value-KeepsVars side ot _ (c, err) r' h = same-KeepsVars (c, _) r' h

copy_pairs-KeepsVars :
    (side : Side) (ps : YamlPairs) (r r' : Config × Bool)
    → copy_pairs side ps r ≡ some r'
    → KeepsVars r r'
unfolding copy_pairs copy_pair
copy_pairs-KeepsVars side no_pairs r r' h = same-KeepsVars r r' h
copy_pairs-KeepsVars side (pair (text k) v rest) r r' h =
    let (b, first, more) = >>=-eq-some (copy_value side (find_ot k) v r) _ h in
    copy_pairs-KeepsVars side rest b r' more ∙ copy_value-KeepsVars side (find_ot k) v r b first
copy_pairs-KeepsVars side (pair _ v rest) r r' h = cc h

copy_filter-KeepsVars :
    (side : Side) (y : Yaml) (r r' : Config × Bool)
    → copy_filter side y r ≡ some r'
    → KeepsVars r r'
unfolding copy_filter
copy_filter-KeepsVars side null r r' h = same-KeepsVars r r' h
copy_filter-KeepsVars side (mapping ps) r r' h = copy_pairs-KeepsVars side ps r r' h
copy_filter-KeepsVars side _ r r' h = cc h

-- The filters leave the variables alone.
pub copy_filters-KeepsVars :
    (cyf : ConfigYFilters) (r r' : Config × Bool)
    → copy_filters cyf r ≡ some r'
    → r'.0.vars ≡ r.0.vars
unfolding copy_filters
copy_filters-KeepsVars cyf r r' h =
    let (b, first, rest) = >>=-eq-some (copy_filter including cyf.metric_include r) _ h in
    copy_filter-KeepsVars excluding cyf.metric_exclude b r' rest
    ∙ copy_filter-KeepsVars including cyf.metric_include r b first
