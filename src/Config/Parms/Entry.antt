-- ===== src/Config/Parms/Entry.antt =====
-- pkg/config/config.go: ConfigParm, envVarKey, AddParm, and the order of `keys`.
use mq_metric_samples.Prelude.{
  Bytes, String, codes, to_upper, to_upper_byte, Bool, true, false, List, [], ◌∷◌, ◌++◌, insert,
  ltb, ◌==◌, if◌then◌else◌, In, here, there, All, Bool-cases, inl, inr,
}
use mq_metric_samples.Config.Parms.Vars.{Loc, Value, ParmType}

pub record ConfigParm : Type 0 where
  pub loc : Loc
  pub default_value : Value
  pub parm_type : ParmType
  pub user_set : Bool
  pub cli_name : String
  pub env_section : String
  pub env_name : String
  pub usage : String

-- An entry of `configParms`.
abbrev pub Entry : Type 0
Entry = Bytes × ConfigParm

abbrev pub ConfigParms : Type 0
ConfigParms = List Entry

unfoldable pub env_var_key : String → String → Bytes
unfolding to_upper_byte
env_var_key section name = to_upper (codes "IBMMQ_" ++ codes section ++ codes "_" ++ codes name)

unfoldable pub add_parm :
    Loc → Value → ParmType → String → String → String → String → ConfigParms → ConfigParms
unfolding insert env_var_key
add_parm loc default_value parm_type cli_name env_section env_name usage parms =
    insert (env_var_key env_section env_name)
      (record {
        loc = loc;
        default_value = default_value;
        parm_type = parm_type;
        user_set = false;
        cli_name = cli_name;
        env_section = env_section;
        env_name = env_name;
        usage = usage;
      })
      parms

-- Go's order of strings.
bytes_lt : Bytes → Bytes → Bool
bytes_lt [] [] = false
bytes_lt [] (y ∷ ys) = true
bytes_lt (x ∷ xs) [] = false
bytes_lt (x ∷ xs) (y ∷ ys) =
    let rest = bytes_lt xs ys in if ltb x y then true else if x == y then rest else false

place : Entry → List Entry → List Entry
place e [] = e ∷ []
place e (f ∷ es) = let rest = f ∷ place e es in if bytes_lt f.0 e.0 then rest else e ∷ f ∷ es

-- The entries in the order of `sort.Strings(keys)`.
unfoldable pub sort_entries : List Entry → List Entry
unfolding bytes_lt place
sort_entries [] = []
sort_entries (e ∷ es) = place e (sort_entries es)

In-place_self : (e : Entry) (es : List Entry) → In e (place e es)
unfolding place
In-place_self e [] = here
In-place_self e (f ∷ es) = elim (Bool-cases (bytes_lt f.0 e.0)) [
  | inl after ↦ rw after (there (In-place_self e es))
  | inr before ↦ rw before here
]

In-place : {x : Entry} (e : Entry) {es : List Entry} → In x es → In x (place e es)
unfolding place
In-place {x} e (here {xs}) = elim (Bool-cases (bytes_lt x.0 e.0)) [
  | inl after ↦ rw after here
  | inr before ↦ rw before (there here)
]
In-place e (there {y} {xs} i) = elim (Bool-cases (bytes_lt y.0 e.0)) [
  | inl after ↦ rw after (there (In-place e i))
  | inr before ↦ rw before (there (there i))
]

pub In-sort_entries : {x : Entry} {es : List Entry} → In x es → In x (sort_entries es)
unfolding sort_entries
In-sort_entries here = In-place_self _ _
In-sort_entries (there i) = In-place _ (In-sort_entries i)

All-place {ℓ} :
    (P : Entry → Type ℓ) (e : Entry) (es : List Entry) → P e → All P es → All P (place e es)
unfolding place
All-place P e [] h hs = (h, hs)
All-place P e (f ∷ es) h hs = elim (Bool-cases (bytes_lt f.0 e.0)) [
  | inl after ↦ rw after (hs.0, All-place P e es h hs.1)
  | inr before ↦ rw before (h, hs)
]

pub All-sort_entries {ℓ} :
    (P : Entry → Type ℓ) (es : List Entry) → All P es → All P (sort_entries es)
unfolding sort_entries
All-sort_entries P [] h = h
All-sort_entries P (e ∷ es) h = All-place P e (sort_entries es) h.0 (All-sort_entries P es h.1)

-- Each entry is related to all behind it.
abbrev pub AllPairs {ℓ} : (Entry → Entry → Type ℓ) → List Entry → Type ℓ
AllPairs R [] = Unit
AllPairs R (e ∷ es) = All (R e) es × AllPairs R es

module _ {ℓ} (R : Entry → Entry → Type ℓ) (R_symm : (e f : Entry) → R e f → R f e) where
  AllPairs-place :
      (e : Entry) (es : List Entry) → All (R e) es → AllPairs R es → AllPairs R (place e es)
  unfolding place
  AllPairs-place e [] h hs = (h, hs)
  AllPairs-place e (f ∷ es) h hs = elim (Bool-cases (bytes_lt f.0 e.0)) [
    | inl after ↦
        rw after (All-place (R f) e es (R_symm e f h.0) hs.0, AllPairs-place e es h.1 hs.1)
    | inr before ↦ rw before (h, hs)
  ]

  pub AllPairs-sort_entries : (es : List Entry) → AllPairs R es → AllPairs R (sort_entries es)
  unfolding sort_entries
  AllPairs-sort_entries [] h = h
  AllPairs-sort_entries (e ∷ es) h =
      AllPairs-place e (sort_entries es) (All-sort_entries (R e) es h.0)
        (AllPairs-sort_entries es h.1)
