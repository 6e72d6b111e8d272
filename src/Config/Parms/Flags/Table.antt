-- ===== src/Config/Parms/Flags/Table.antt =====
-- Defining flags: what one definition does to the table and to the variables.
use text.Mathlib.TextEquality.{eq_iff}
use mq_metric_samples.Prelude.{
  String, Option, none, some, if◌then◌else◌, ◌≡◌, refl, ◌∷◌, arith, inl, inr, Option-cases, true,
}
use mq_metric_samples.Config.Parms.Vars.{
  Loc, Value, ParmType, Vars, load, store, same_loc, load-store,
}
use mq_metric_samples.Config.Parms.Flags.{
  returned, Machine, or_panic, find_flag, define_flag, FlagTable,
}

pub or_panic-eq-returned :
    (o : Option Vars) (f : Vars → Machine) {m : Machine}
    → or_panic o f ≡ returned m
    → (s : Vars) × (o ≡ some s) × (m ≡ f s)
unfolding or_panic
or_panic-eq-returned none f h = cc
or_panic-eq-returned (some s) f h = (s, refl, cc)

-- A flag that is defined was new, heads the table, and has its default in its variable alone.
pub record Defines (loc : Loc) (name : String) (v : Value) (m m' : Machine) : Type 0 where
  pub fresh : find_flag name m.flags ≡ none
  pub table : m'.flags ≡ (name, loc) ∷ m.flags
  pub values : (l : Loc) → load l m'.vars ≡ (if same_loc loc l then v else load l m.vars)

pub define_flag-Defines :
    (t : ParmType) (loc : Loc) (name : String) (v : Value) (m : Machine) {m' : Machine}
    → define_flag t loc name v m ≡ returned m'
    → Defines loc name v m m'
unfolding define_flag
define_flag-Defines t loc name v m {m'} h = elim (Option-cases (find_flag name m.flags)) [
  | inr (l, e) ↦ absurd (ground arith)
  | inl e ↦
      let (s, stored, is) =
        or_panic-eq-returned (store t loc v m.vars)
          (λ s. record { vars = s; flags = (name, loc) ∷ m.flags }) {m = m'} (ground arith) in
      record { fresh = e; table = rw is; values = λ l. rw is (load-store t loc v l m.vars stored) }
]

-- A flag keeps its variable while others are defined.
pub find_flag_kept :
    {loc : Loc} {name : String} {v : Value} {m m' : Machine} (n : String) {l : Loc}
    → Defines loc name v m m'
    → find_flag n m.flags ≡ some l
    → find_flag n m'.flags ≡ some l
unfolding find_flag
find_flag_kept {name} {m} n d h = rw d.table (ground (arith, eq_iff name n, d.fresh))

pub find_flag_new :
    {loc : Loc} {name : String} {v : Value} {m m' : Machine}
    → Defines loc name v m m'
    → find_flag name m'.flags ≡ some loc
unfolding find_flag
find_flag_new {name} d = rw d.table (ground (arith, eq_iff name name))

-- Only the flag `name` is bound to the variable `loc`.
abbrev pub OnlyFlag : String → Loc → FlagTable → Type 0
OnlyFlag name loc t =
    (n : String) (l : Loc) → find_flag n t ≡ some l → same_loc l loc ≡ true → n ≡ name

pub OnlyFlag-cons :
    (name : String) (loc : Loc) (m' : String) (l' : Loc) (t : FlagTable)
    → (same_loc l' loc ≡ true → m' ≡ name)
    → OnlyFlag name loc t
    → OnlyFlag name loc ((m', l') ∷ t)
unfolding find_flag
OnlyFlag-cons name loc m' l' t new old n l found same = ground (arith, eq_iff m' n, old n l, new)
