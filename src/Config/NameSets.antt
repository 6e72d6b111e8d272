-- ===== src/Config/NameSets.antt =====
-- The maps CC.MetricFilter[i].Include and .Exclude of pkg/config as sets of names, and the variables
-- filters[i].include and .exclude beside them. The two sides are treated alike in the source.
use mq_metric_samples.Prelude.{
  ℕ, Bytes, String, codes, bytes_eq, Bool, false, ◌||◌, List, [], ◌∷◌, Option, none, some, ◌==◌,
  if◌then◌else◌,
}
use mq_metric_samples.Config.Init.{ot_string, include_var, exclude_var}
use mq_metric_samples.Config.Record.{Config, NameSet}

pub data Side : Type 0 where
  including excluding : Side

abbrev pub names : Side → Config → ℕ → NameSet
names including c = c.include
names excluding c = c.exclude

abbrev put : ℕ → NameSet → (ℕ → NameSet) → ℕ → NameSet
put i v f j = if i == j then v else f j

abbrev pub set_names : Side → ℕ → NameSet → Config → Config
set_names including i v c = record c { include = put i v c.include }
set_names excluding i v c = record c { exclude = put i v c.exclude }

abbrev pub filter_var : Side → String → String
filter_var including ot = include_var ot
filter_var excluding ot = exclude_var ot

unfoldable pub has_name : Bytes → List Bytes → Bool
unfolding bytes_eq
has_name n [] = false
has_name n (m ∷ ms) = bytes_eq m n || has_name n ms

-- A key of a Go map once more changes nothing.
unfoldable pub add_name : Bytes → List Bytes → List Bytes
unfolding has_name
add_name n ms = if has_name n ms then ms else n ∷ ms

-- `MetricFilter[i].Include[n] = emptyStruc`: a write to a nil map panics.
unfoldable pub write_name : Side → ℕ → Bytes → Config → Option Config
unfolding add_name
write_name side i n c = elim (names side c i) [
  | none ↦ none
  | some ms ↦ some (set_names side i (some (add_name n ms)) c)
]

find_in : Bytes → List (String × ℕ) → Option (String × ℕ)
find_in k [] = none
find_in k ((ot, i) ∷ rest) = if bytes_eq (codes ot) k then some (ot, i) else find_in k rest

-- `otString[k]`.
unfoldable pub find_ot : Bytes → Option (String × ℕ)
unfolding find_in bytes_eq
find_ot k = find_in k ot_string
