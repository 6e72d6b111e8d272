-- ===== src/Config/Yaml/Precedence.antt =====
-- Whether the user's settings or the YAML file decide a variable.
use mq_metric_samples.Prelude.{
  Bytes, String, Bool, false, List, [], ◌∷◌, Option, none, some, ◌⊎◌, inl, inr, ◌≡◌, refl, ◌∙◌,
  arith, if◌then◌else◌, >>=-eq-some, All, All-weaken, All-In, In, here, there,
}
use mq_metric_samples.Prelude.Int.{ℤ}
use mq_metric_samples.Config.Parms.Entry.{ConfigParms}
use mq_metric_samples.Config.Parms.Vars.{
  Loc, str_loc, int_loc, bool_loc, Value, str, int, bool, Vars, load, same_loc, same_loc_self,
  set_str, set_int, set_bool,
}
use mq_metric_samples.Config.Yaml.Copy.{
  deref_bool, deref_str, deref_int, copy_parm_if_not_set, copy_parm_if_not_set_bool,
  copy_parm_if_not_set_str, copy_parm_if_not_set_int,
}
use mq_metric_samples.Config.Yaml.Rows.{Row, bool_row, str_row, int_row, copy_row, copy_rows}

abbrev pub row_loc : Row → Loc
row_loc (bool_row var section name val) = bool_loc var
row_loc (str_row var section name val) = str_loc var
row_loc (int_row var section name val) = int_loc var

-- The YAML file's value.
abbrev pub row_value : Row → Value
row_value (bool_row var section name val) = bool val
row_value (str_row var section name val) = str val
row_value (int_row var section name val) = int val

-- The parameter's variable, where the user has set it.
abbrev pub row_user : ConfigParms → Row → Option Loc
row_user parms (bool_row var section name val) = copy_parm_if_not_set parms section name
row_user parms (str_row var section name val) = copy_parm_if_not_set parms section name
row_user parms (int_row var section name val) = copy_parm_if_not_set parms section name

abbrev pub chosen : Vars → Value → Option Loc → Value
chosen s v none = v
chosen s v (some l) = load l s

pub set_bool-load :
    (x : String) (b : Bool) (l : Loc) (s : Vars)
    → load l (set_bool x b s) ≡ (if same_loc (bool_loc x) l then bool b else load l s)
unfolding load same_loc
set_bool-load x b (str_loc y) s = refl
set_bool-load x b (int_loc y) s = refl
set_bool-load x b (bool_loc y) s = ground arith

pub set_str-load :
    (x : String) (b : Bytes) (l : Loc) (s : Vars)
    → load l (set_str x b s) ≡ (if same_loc (str_loc x) l then str b else load l s)
unfolding load same_loc
set_str-load x b (str_loc y) s = ground arith
set_str-load x b (int_loc y) s = refl
set_str-load x b (bool_loc y) s = refl

pub set_int-load :
    (x : String) (b : ℤ) (l : Loc) (s : Vars)
    → load l (set_int x b s) ≡ (if same_loc (int_loc x) l then int b else load l s)
unfolding load same_loc
set_int-load x b (str_loc y) s = refl
set_int-load x b (int_loc y) s = ground arith
set_int-load x b (bool_loc y) s = refl

pub set_str-kept :
    (x : String) (b : Bytes) (l : Loc) (s : Vars)
    → same_loc (str_loc x) l ≡ false
    → load l (set_str x b s) ≡ load l s
set_str-kept x b l s h = set_str-load x b l s ∙ rw h

pub set_int-kept :
    (x : String) (b : ℤ) (l : Loc) (s : Vars)
    → same_loc (int_loc x) l ≡ false
    → load l (set_int x b s) ≡ load l s
set_int-kept x b l s h = set_int-load x b l s ∙ rw h

deref_bool-chosen :
    (s : Vars) (val : Bool) (o : Option Loc) {v : Bool}
    → deref_bool s val o ≡ some v
    → bool v ≡ chosen s (bool val) o
unfolding deref_bool load
deref_bool-chosen s val none h = ground arith
deref_bool-chosen s val (some (bool_loc x)) h = ground arith
deref_bool-chosen s val (some _) h = cc h

deref_str-chosen :
    (s : Vars) (val : Bytes) (o : Option Loc) {v : Bytes}
    → deref_str s val o ≡ some v
    → str v ≡ chosen s (str val) o
unfolding deref_str load
deref_str-chosen s val none h = ground arith
deref_str-chosen s val (some (str_loc x)) h = ground arith
deref_str-chosen s val (some _) h = cc h

deref_int-chosen :
    (s : Vars) (val : ℤ) (o : Option Loc) {v : ℤ}
    → deref_int s val o ≡ some v
    → int v ≡ chosen s (int val) o
unfolding deref_int load
deref_int-chosen s val none h = ground arith
deref_int-chosen s val (some (int_loc x)) h = ground arith
deref_int-chosen s val (some _) h = cc h

copy_bool-chosen :
    (parms : ConfigParms) (s : Vars) (section name : String) (val : Bool) {v : Bool}
    → copy_parm_if_not_set_bool parms s section name val ≡ some v
    → bool v ≡ chosen s (bool val) (copy_parm_if_not_set parms section name)
unfolding copy_parm_if_not_set_bool
copy_bool-chosen parms s section name val h =
    deref_bool-chosen s val (copy_parm_if_not_set parms section name) h

copy_str-chosen :
    (parms : ConfigParms) (s : Vars) (section name : String) (val : Bytes) {v : Bytes}
    → copy_parm_if_not_set_str parms s section name val ≡ some v
    → str v ≡ chosen s (str val) (copy_parm_if_not_set parms section name)
unfolding copy_parm_if_not_set_str
copy_str-chosen parms s section name val h =
    deref_str-chosen s val (copy_parm_if_not_set parms section name) h

copy_int-chosen :
    (parms : ConfigParms) (s : Vars) (section name : String) (val : ℤ) {v : ℤ}
    → copy_parm_if_not_set_int parms s section name val ≡ some v
    → int v ≡ chosen s (int val) (copy_parm_if_not_set parms section name)
unfolding copy_parm_if_not_set_int
copy_int-chosen parms s section name val h =
    deref_int-chosen s val (copy_parm_if_not_set parms section name) h

set_bool-chosen :
    (x : String) (b : Bool) (l : Loc) (s s' : Vars) {v : Value}
    → bool b ≡ v
    → set_bool x b s ≡ s'
    → load l s' ≡ (if same_loc (bool_loc x) l then v else load l s)
set_bool-chosen x b l s s' e is = rw (← e, ← is) (set_bool-load x b l s)

set_str-chosen :
    (x : String) (b : Bytes) (l : Loc) (s s' : Vars) {v : Value}
    → str b ≡ v
    → set_str x b s ≡ s'
    → load l s' ≡ (if same_loc (str_loc x) l then v else load l s)
set_str-chosen x b l s s' e is = rw (← e, ← is) (set_str-load x b l s)

set_int-chosen :
    (x : String) (b : ℤ) (l : Loc) (s s' : Vars) {v : Value}
    → int b ≡ v
    → set_int x b s ≡ s'
    → load l s' ≡ (if same_loc (int_loc x) l then v else load l s)
set_int-chosen x b l s s' e is = rw (← e, ← is) (set_int-load x b l s)

copy_row-load :
    (parms : ConfigParms) (r : Row) (s s' : Vars) (l : Loc)
    → copy_row parms r s ≡ some s'
    → load l s'
      ≡ (if same_loc (row_loc r) l then chosen s (row_value r) (row_user parms r) else load l s)
unfolding copy_row
copy_row-load parms (bool_row var section name val) s s' l h =
    let (v, copied, is) = >>=-eq-some (copy_parm_if_not_set_bool parms s section name val) _ h in
    set_bool-chosen var v l s s' (copy_bool-chosen parms s section name val copied) (cc is)
copy_row-load parms (str_row var section name val) s s' l h =
    let (v, copied, is) = >>=-eq-some (copy_parm_if_not_set_str parms s section name val) _ h in
    set_str-chosen var v l s s' (copy_str-chosen parms s section name val copied) (cc is)
copy_row-load parms (int_row var section name val) s s' l h =
    let (v, copied, is) = >>=-eq-some (copy_parm_if_not_set_int parms s section name val) _ h in
    set_int-chosen var v l s s' (copy_int-chosen parms s section name val copied) (cc is)

abbrev pub DistinctRows : List Row → Type 0
DistinctRows [] = Unit
DistinctRows (r ∷ rs) =
    All
      (λ q. (same_loc (row_loc r) (row_loc q) ≡ false) × (same_loc (row_loc q) (row_loc r) ≡ false))
      rs
    × DistinctRows rs

module _ (parms : ConfigParms) where
  pub copy_rows_other :
      (rs : List Row) (s s' : Vars) (l : Loc)
      → All (λ q. same_loc (row_loc q) l ≡ false) rs
      → copy_rows parms rs s ≡ some s'
      → load l s' ≡ load l s
  unfolding copy_rows
  copy_rows_other [] s s' l a h = let e : s ≡ s' = cc h in rw e
  copy_rows_other (r ∷ rs) s s' l a h =
      let (s₁, first, rest) = >>=-eq-some (copy_row parms r s) _ h in
      copy_rows_other rs s₁ s' l a.1 rest ∙ copy_row-load parms r s s₁ l first ∙ rw a.0

  -- A row's variable keeps its value if the user has set the row's parameter, which is bound to
  -- that variable, and otherwise takes the value of the YAML file, also an absent one.
  pub copy_rows_precedence :
      {r : Row} {rs : List Row} (s s' : Vars)
      → In r rs
      → DistinctRows rs
      → (row_user parms r ≡ none) ⊎ (row_user parms r ≡ some (row_loc r))
      → copy_rows parms rs s ≡ some s'
      → ((row_user parms r ≡ none) × (load (row_loc r) s' ≡ row_value r))
        ⊎ ((row_user parms r ≡ some (row_loc r)) × (load (row_loc r) s' ≡ load (row_loc r) s))
  unfolding copy_rows
  copy_rows_precedence {r} s s' (here {xs}) d u h =
      let (s₁, first, rest) = >>=-eq-some (copy_row parms r s) _ h in
      let e : load (row_loc r) s' ≡ chosen s (row_value r) (row_user parms r) =
        copy_rows_other xs s₁ s' (row_loc r) (All-weaken (λ q p. p.1) xs d.0) rest
        ∙ copy_row-load parms r s s₁ (row_loc r) first
        ∙ rw same_loc_self in
      elim u [ inl unset ↦ inl (unset, e ∙ rw unset) | inr user ↦ inr (user, e ∙ rw user) ]
  copy_rows_precedence {r} s s' (there {y} {xs} i) d u h =
      let (s₁, first, rest) = >>=-eq-some (copy_row parms y s) _ h in
      let e : load (row_loc r) s₁ ≡ load (row_loc r) s =
        copy_row-load parms y s s₁ (row_loc r) first ∙ rw (All-In _ i d.0).0 in
      elim (copy_rows_precedence s₁ s' i d.1 u rest) [
        | inl (unset, v) ↦ inl (unset, v)
        | inr (user, v) ↦ inr (user, v ∙ e)
      ]
