-- ===== src/Config/Parms/Flags.antt =====
-- Go's `flag` package as pkg/config/config.go uses it: a table of flags, each bound to a variable,
-- and the settings of the command line in their order.
pub mod Table
pub mod Settings
use text.Mathlib.Text.{◌==◌ as str_eq}
use mq_metric_samples.Prelude.{
  ℕ, Bytes, String, Bool, true, false, ◌||◌, List, [], ◌∷◌, Option, none, some, if◌then◌else◌, ◌≡◌,
  refl,
}
use mq_metric_samples.Prelude.Int.{ℤ}
use mq_metric_samples.Config.Parms.Convert.{parse_bool}
use mq_metric_samples.Config.Parms.Vars.{
  Loc, str_loc, int_loc, bool_loc, Value, str, int, bool, cp_str, cp_int, cp_bool, ParmType, Vars,
  store,
}

-- How a call ends: it returns, ends the process with a return code, or panics.
pub data Outcome {ℓ} (A : Type ℓ) : Type ℓ where
  returned : A → Outcome A
  exited : ℕ → Outcome A
  panicked : Outcome A

infixl 5 ◌>>=◌
abbrev pub ◌>>=◌ {ℓ κ} : {A : Type ℓ} {B : Type κ} → Outcome A → (A → Outcome B) → Outcome B
returned a >>= f = f a
exited c >>= f = exited c
panicked >>= f = panicked

pub >>=-eq-returned {ℓ κ} :
    {A : Type ℓ} {B : Type κ} (m : Outcome A) (f : A → Outcome B) {b : B}
    → (m >>= f) ≡ returned b
    → (a : A) × (m ≡ returned a) × (f a ≡ returned b)
>>=-eq-returned (returned a) f h = (a, refl, h)
>>=-eq-returned (exited c) f h = cc
>>=-eq-returned panicked f h = cc

-- A command-line setting: the flag's name and its text. How arguments are cut into these is the
-- flag package's own.
abbrev pub Setting : Type 0
Setting = String × Bytes

abbrev pub FlagTable : Type 0
FlagTable = List (String × Loc)

unfoldable pub find_flag : String → FlagTable → Option Loc
find_flag n [] = none
find_flag n ((m, l) ∷ t) = if str_eq m n then some l else find_flag n t

pub record Machine : Type 0 where
  pub vars : Vars
  pub flags : FlagTable

pub or_panic : Option Vars → (Vars → Machine) → Outcome Machine
or_panic none f = panicked
or_panic (some s) f = returned (f s)

-- flag.StringVar, flag.IntVar, flag.BoolVar: the variable gets its default at once.
unfoldable pub define_flag : ParmType → Loc → String → Value → Machine → Outcome Machine
unfolding or_panic find_flag
define_flag t loc name value m = elim (find_flag name m.flags) [
  | some _ ↦ panicked
  | none ↦
      or_panic (store t loc value m.vars) (λ s. record { vars = s; flags = (name, loc) ∷ m.flags })
]

-- The type with which a flag was defined.
abbrev loc_type : Loc → ParmType
loc_type (str_loc x) = cp_str
loc_type (int_loc x) = cp_int
loc_type (bool_loc x) = cp_bool

module _ (flag_int : Bytes → Option ℤ) where
  -- The conversion of a setting; `flag_int` is that of an integer flag.
  unfoldable pub flag_value : Loc → Bytes → Option Value
  unfolding parse_bool
  flag_value (str_loc x) text = some (str text)
  flag_value (int_loc x) text = elim (flag_int text) [ none ↦ none | some i ↦ some (int i) ]
  flag_value (bool_loc x) text =
      if (parse_bool text).1 then some (bool (parse_bool text).0) else none

  set_flag : Option Value → Loc → Machine → Outcome Machine
  set_flag none loc m = exited 2
  set_flag (some v) loc m =
      or_panic (store (loc_type loc) loc v m.vars) (λ s. record m { vars = s })

  -- An unknown flag ends the process: with 0 where it asks for help.
  apply_setting : Option Loc → Setting → Machine → Outcome Machine
  apply_setting none (name, text) m =
      exited (if str_eq name "help" || str_eq name "h" then 0 else 2)
  apply_setting (some loc) (name, text) m = set_flag (flag_value loc text) loc m

  -- flag.Parse.
  unfoldable pub flag_parse : List Setting → Machine → Outcome Machine
  unfolding find_flag set_flag apply_setting flag_value or_panic
  flag_parse [] m = returned m
  flag_parse (s ∷ ss) m = do m' ← apply_setting (find_flag s.0 m.flags) s m; flag_parse ss m'
