-- ===== src/Config/Parms/Vars.antt =====
-- pkg/config/config.go: the variables behind the pointers of `ConfigParm.loc`, by type and name.
use text.Mathlib.Text.{◌==◌ as str_eq}
use text.Mathlib.TextEquality.{eq_iff}
use mq_metric_samples.Prelude.{
  Bytes, String, Bool, true, false, Option, none, some, ◌≡◌, refl, arith, if◌then◌else◌,
}
use mq_metric_samples.Prelude.Int.{ℤ}

pub data Loc : Type 0 where
  str_loc : String → Loc
  int_loc : String → Loc
  bool_loc : String → Loc

-- The dynamic values of `interface{}` that occur.
pub data Value : Type 0 where
  str : Bytes → Value
  int : ℤ → Value
  bool : Bool → Value

pub data ParmType : Type 0 where
  cp_str cp_int cp_bool : ParmType

pub record Vars : Type 0 where
  pub str_var : String → Bytes
  pub int_var : String → ℤ
  pub bool_var : String → Bool

abbrev pub update {ℓ} : {A : Type ℓ} → String → A → (String → A) → String → A
update x v f y = if str_eq x y then v else f y

abbrev pub set_str : String → Bytes → Vars → Vars
set_str x v s = record s { str_var = update x v s.str_var }

abbrev pub set_int : String → ℤ → Vars → Vars
set_int x v s = record s { int_var = update x v s.int_var }

abbrev pub set_bool : String → Bool → Vars → Vars
set_bool x v s = record s { bool_var = update x v s.bool_var }

-- `*loc`.
unfoldable pub load : Loc → Vars → Value
load (str_loc x) s = str (s.str_var x)
load (int_loc x) s = int (s.int_var x)
load (bool_loc x) s = bool (s.bool_var x)

-- `*(loc.(*T)) = value.(T)`, with T from the parameter's type; `none` is a failed assertion.
unfoldable pub store : ParmType → Loc → Value → Vars → Option Vars
store cp_str (str_loc x) (str v) s = some (set_str x v s)
store cp_int (int_loc x) (int v) s = some (set_int x v s)
store cp_bool (bool_loc x) (bool v) s = some (set_bool x v s)
store _ _ _ s = none

unfoldable pub same_loc : Loc → Loc → Bool
same_loc (str_loc x) (str_loc y) = str_eq x y
same_loc (int_loc x) (int_loc y) = str_eq x y
same_loc (bool_loc x) (bool_loc y) = str_eq x y
same_loc _ _ = false

pub same_loc_self : (l : Loc) → same_loc l l ≡ true
unfolding same_loc
same_loc_self (str_loc x) = (eq_iff x x).1 refl
same_loc_self (int_loc x) = (eq_iff x x).1 refl
same_loc_self (bool_loc x) = (eq_iff x x).1 refl

-- A successful store is seen at its own variable and nowhere else.
pub load-store :
    (t : ParmType) (l : Loc) (v : Value) (m : Loc) (s : Vars) {s' : Vars}
    → store t l v s ≡ some s'
    → load m s' ≡ (if same_loc l m then v else load m s)
unfolding load store same_loc
load-store cp_str (str_loc x) (str v) m s e = ground arith
load-store cp_int (int_loc x) (int v) m s e = ground arith
load-store cp_bool (bool_loc x) (bool v) m s e = ground arith
load-store _ _ _ m s e = absurd (cc e)
