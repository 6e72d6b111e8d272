-- ===== src/Config/Parms/Flags/Settings.antt =====
-- flag.Parse: the last setting of a flag decides its variable.
use text.Mathlib.Text.{◌==◌ as str_eq}
use text.Mathlib.TextEquality.{eq_iff}
use mq_metric_samples.Prelude.{
  Bytes, String, Option, none, some, if◌then◌else◌, ◌≡◌, refl, ◌∷◌, [], List, arith, inl, inr,
  Option-cases, Bool-cases,
}
use mq_metric_samples.Prelude.Int.{ℤ}
use mq_metric_samples.Config.Parms.Vars.{
  Loc, Value, load, store, same_loc, same_loc_self, load-store,
}
use mq_metric_samples.Config.Parms.Flags.Table.{OnlyFlag, or_panic-eq-returned}
use mq_metric_samples.Config.Parms.Flags.{
  returned, >>=-eq-returned, Machine, Setting, find_flag, flag_value, set_flag, apply_setting,
  flag_parse, loc_type,
}

-- The text of the last setting of a flag.
unfoldable pub last_setting : String → List Setting → Option Bytes
last_setting n [] = none
last_setting n ((name, text) ∷ ss) = elim (last_setting n ss) [
  | some later ↦ some later
  | none ↦ if str_eq name n then some text else none
]

module _ (flag_int : Bytes → Option ℤ) where
  -- The value of a flag bound to `loc`: that of its last setting, or else `before`.
  abbrev pub Takes : Loc → Option Bytes → Value → Value → Type 0
  Takes loc none before after = after ≡ before
  Takes loc (some text) before after = flag_value flag_int loc text ≡ some after

  -- One setting changes the variable of its flag alone.
  record Sets (found : Option Loc) (text : Bytes) (m m' : Machine) : Type 0 where
    loc : Loc
    value : Value
    flag : found ≡ some loc
    converted : flag_value flag_int loc text ≡ some value
    table : m'.flags ≡ m.flags
    values : (k : Loc) → load k m'.vars ≡ (if same_loc loc k then value else load k m.vars)

  set_flag-Sets :
      (l : Loc) (text : Bytes) (v : Option Value) (m : Machine) {m' : Machine}
      → flag_value flag_int l text ≡ v
      → set_flag flag_int v l m ≡ returned m'
      → Sets (some l) text m m'
  unfolding set_flag
  set_flag-Sets l text none m c h = cc h
  set_flag-Sets l text (some v) m c h =
      let (s, stored, is) =
        or_panic-eq-returned (store (loc_type l) l v m.vars) (λ s. record m { vars = s }) h in
      record {
        loc = l;
        value = v;
        flag = refl;
        converted = c;
        table = rw is;
        values = λ k. rw is (load-store (loc_type l) l v k m.vars stored);
      }

  apply_setting-Sets :
      (found : Option Loc) (s : Setting) (m : Machine) {m' : Machine}
      → apply_setting flag_int found s m ≡ returned m'
      → Sets found s.1 m m'
  unfolding apply_setting
  apply_setting-Sets none s m h = cc h
  apply_setting-Sets (some l) s m h = set_flag-Sets l s.1 (flag_value flag_int l s.1) m refl h

  module _ (name : String) (loc : Loc) where
    Takes-cons :
        (s : Setting) (ss : List Setting) (m m' : Machine) (after : Value)
        → find_flag name m.flags ≡ some loc
        → OnlyFlag name loc m.flags
        → Sets (find_flag s.0 m.flags) s.1 m m'
        → Takes loc (last_setting name ss) (load loc m'.vars) after
        → Takes loc (last_setting name (s ∷ ss)) (load loc m.vars) after
    unfolding last_setting
    Takes-cons s ss m m' after found only r ih = elim (Option-cases (last_setting name ss)) [
      | inr (t, e) ↦ rw e (rw e at ih)
      | inl e ↦
          let ih' : after ≡ load loc m'.vars = rw e at ih in
          elim (Bool-cases (str_eq s.0 name)) [
            | inl same ↦
                let name_is : s.0 ≡ name = (eq_iff s.0 name).0 same in
                let loc_is : r.loc ≡ loc = ground (arith, name_is) in
                rw (e, same)
                  (ground (arith, r.values loc, same_loc_self loc, loc_is, ih', r.converted))
            | inr other ↦
                rw (e, other)
                  (ground (arith, r.values loc, only s.0 r.loc, eq_iff s.0 name, ih', r.flag))
          ]
    ]

    -- The table stays, and the last setting of the flag decides its variable.
    pub flag_parse-Takes :
        (ss : List Setting) (m : Machine) {m' : Machine}
        → find_flag name m.flags ≡ some loc
        → OnlyFlag name loc m.flags
        → flag_parse flag_int ss m ≡ returned m'
        → Takes loc (last_setting name ss) (load loc m.vars) (load loc m'.vars)
    unfolding flag_parse last_setting
    flag_parse-Takes [] m found only h = ground arith
    flag_parse-Takes (s ∷ ss) m {m'} found only h =
        let (m₁, applied, rest) =
          >>=-eq-returned (apply_setting flag_int (find_flag s.0 m.flags) s m)
            (flag_parse flag_int ss) h in
        let r = apply_setting-Sets (find_flag s.0 m.flags) s m applied in
        Takes-cons s ss m m₁ (load loc m'.vars) found only r
          (flag_parse-Takes ss m₁ (rw r.table found) (rw r.table only) rest)
