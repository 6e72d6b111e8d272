-- ===== src/Config/Parms/Parse/Setup.antt =====
-- The first loop of ParseParms: every parameter becomes a flag whose variable holds the parameter's
-- default, or the environment's value where there is one.
use mq_metric_samples.Prelude.{
  Bytes, String, true, false, List, [], ◌∷◌, map, some, ◌≡◌, refl, ◌∙◌, arith, All, All-weaken,
  All-In, In, here, there,
}
use mq_metric_samples.Config.Parms.Entry.{Entry, AllPairs}
use mq_metric_samples.Config.Parms.Flags.Table.{
  Defines, define_flag-Defines, find_flag_kept, find_flag_new, OnlyFlag, OnlyFlag-cons,
}
use mq_metric_samples.Config.Parms.Flags.{
  returned, >>=-eq-returned, Machine, define_flag, find_flag,
}
use mq_metric_samples.Config.Parms.Parse.{apply_env, setup_flags}
use mq_metric_samples.Config.Parms.Vars.{Loc, load, same_loc, same_loc_self}

abbrev pub Apart : Entry → Entry → Type 0
Apart e f = (same_loc e.1.loc f.1.loc ≡ false) × (same_loc f.1.loc e.1.loc ≡ false)

-- No two parameters share a variable.
abbrev pub DistinctLocs : List Entry → Type 0
DistinctLocs = AllPairs Apart

no_flag : (n : String) (l : Loc) → find_flag n [] ≡ some l → ⊥
unfolding find_flag
no_flag n l h = cc h

module _ (getenv : Bytes → Bytes) where
  pub apply_env-loc : (e : Entry) → (apply_env getenv e).1.loc ≡ e.1.loc
  unfolding apply_env
  apply_env-loc (key, p) = ground arith

  pub apply_env-cli_name : (e : Entry) → (apply_env getenv e).1.cli_name ≡ e.1.cli_name
  unfolding apply_env
  apply_env-cli_name (key, p) = ground arith

  -- The flag defined for an entry.
  abbrev pub DefinesEntry : Entry → Machine → Machine → Type 0
  DefinesEntry e = Defines e.1.loc e.1.cli_name (apply_env getenv e).1.default_value

  -- The rounds of the loop.
  pub data Setup (m' : Machine) : List Entry → Machine → Type 0 where
    done : {m : Machine} → m' ≡ m → Setup m' [] m
    round :
        {e : Entry} {es : List Entry} {m m₁ : Machine}
        → DefinesEntry e m m₁
        → Setup m' es m₁
        → Setup m' (e ∷ es) m

  pub setup_flags-Setup :
      (es : List Entry) (m : Machine) {es' : List Entry} {m' : Machine}
      → setup_flags getenv es m ≡ returned (es', m')
      → (es' ≡ map (apply_env getenv) es) × Setup m' es m
  unfolding setup_flags
  setup_flags-Setup [] m h = (ground arith, done (ground arith))
  setup_flags-Setup (e ∷ es) m {es'} {m'} h =
      let e' = apply_env getenv e in
      let (m₁, defined, rest) =
        >>=-eq-returned (define_flag e'.1.parm_type e'.1.loc e'.1.cli_name e'.1.default_value m) _
          h in
      let (r, others, end') = >>=-eq-returned (setup_flags getenv es m₁) _ rest in
      let ih = setup_flags-Setup es m₁ {es' = r.0} {m' = r.1} others in
      (
        ground (arith, ih.0),
        round
            (rw (apply_env-loc e, apply_env-cli_name e) at
              (define_flag-Defines e'.1.parm_type e'.1.loc e'.1.cli_name e'.1.default_value m
                defined))
            (let last : m' ≡ r.1 = cc end' in rw last ih.1),
      )

  pub load-Setup_other :
      {m' : Machine} {es : List Entry} {m : Machine} (l : Loc)
      → Setup m' es m
      → All (λ e. same_loc e.1.loc l ≡ false) es
      → load l m'.vars ≡ load l m.vars
  load-Setup_other l (done is) h = rw is
  load-Setup_other l (round {e} d s) h = load-Setup_other l s h.1 ∙ rw (d.values l, h.0)

  pub find_flag-Setup_kept :
      {m' : Machine} {es : List Entry} {m : Machine} (n : String) {l : Loc}
      → Setup m' es m
      → find_flag n m.flags ≡ some l
      → find_flag n m'.flags ≡ some l
  find_flag-Setup_kept n (done is) h = rw is h
  find_flag-Setup_kept n (round d s) h = find_flag-Setup_kept n s (find_flag_kept n d h)

  -- Behind the loop an entry's variable holds its default, and its flag is bound to that variable.
  pub load-Setup :
      {e : Entry} {m' : Machine} {es : List Entry} {m : Machine}
      → In e es
      → DistinctLocs es
      → Setup m' es m
      → load e.1.loc m'.vars ≡ (apply_env getenv e).1.default_value
  load-Setup here h (round d s) =
      load-Setup_other _ s (All-weaken (λ f p. p.1) _ h.0) ∙ rw (d.values _, same_loc_self _)
  load-Setup (there i) h (round d s) = load-Setup i h.1 s

  pub find_flag-Setup :
      {e : Entry} {m' : Machine} {es : List Entry} {m : Machine}
      → In e es
      → Setup m' es m
      → find_flag e.1.cli_name m'.flags ≡ some e.1.loc
  find_flag-Setup here (round d s) = find_flag-Setup_kept _ s (find_flag_new d)
  find_flag-Setup (there i) (round d s) = find_flag-Setup i s

  -- Nothing else is bound to the variable of an entry.
  OnlyFlag-Setup_step :
      {m' : Machine} {es : List Entry} {m : Machine} (name : String) (loc : Loc)
      → Setup m' es m
      → All (λ e. same_loc e.1.loc loc ≡ true → e.1.cli_name ≡ name) es
      → OnlyFlag name loc m.flags
      → OnlyFlag name loc m'.flags
  OnlyFlag-Setup_step name loc (done is) h only = rw is only
  OnlyFlag-Setup_step name loc (round {e} d s) h only =
      OnlyFlag-Setup_step name loc s h.1
        (rw d.table (OnlyFlag-cons name loc e.1.cli_name e.1.loc _ h.0 only))

  names_at_loc :
      {e : Entry} {es : List Entry}
      → In e es
      → DistinctLocs es
      → All (λ f. same_loc f.1.loc e.1.loc ≡ true → f.1.cli_name ≡ e.1.cli_name) es
  names_at_loc here h = (λ _. refl, All-weaken (λ f p same. absurd (ground arith)) _ h.0)
  names_at_loc (there i) h =
      (λ same. absurd (ground (arith, (All-In (Apart _) i h.0).0)), names_at_loc i h.1)

  pub OnlyFlag-Setup :
      {e : Entry} {m' : Machine} {es : List Entry} {m : Machine}
      → In e es
      → DistinctLocs es
      → Setup m' es m
      → m.flags ≡ []
      → OnlyFlag e.1.cli_name e.1.loc m'.flags
  OnlyFlag-Setup {e} i h s empty =
      OnlyFlag-Setup_step e.1.cli_name e.1.loc s (names_at_loc i h)
        (rw empty (λ n l found same. absurd (no_flag n l found)))
