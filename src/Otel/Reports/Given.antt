-- ===== src/Otel/Reports/Given.antt =====
-- Computations that may panic and do not, and what mqmetric is to have for the keys of a set.
use mq_metric_samples.Prelude.{
  Bytes, Bool, true, false, List, [], ◌∷◌, ◌++◌, Option, some, ◌>>=◌, All, All-weaken,
  if◌then◌else◌,
}
use mq_metric_samples.Mqmetric.{Value, StatusSet, required, values_of, text_of, text_or, each}

pub data IsSome {ℓ} {A : Type ℓ} : Option A → Type ℓ where
  is : (a : A) → IsSome (some a)

pub bind-IsSome {ℓ κ} :
    {A : Type ℓ} {B : Type κ} (f : A → Option B) (m : Option A)
    → IsSome m
    → ((a : A) → IsSome (f a))
    → IsSome (m >>= f)
bind-IsSome f m (is a) h = h a

pub if-IsSome {ℓ} :
    {A : Type ℓ} (b : Bool) (x y : Option A) → IsSome x → IsSome y → IsSome (if b then x else y)
if-IsSome true x y h k = h
if-IsSome false x y h k = k

pub each-IsSome :
    {A : Type 0} {B : Type 0} (f : A → Option (List B)) (xs : List A)
    → All (λ x. IsSome (f x)) xs
    → IsSome (each f xs)
each-IsSome f [] h = is []
each-IsSome f (x ∷ xs) h =
    bind-IsSome _ (f x) h.0
      (λ r. bind-IsSome _ (each f xs) (each-IsSome f xs h.1) (λ rs. is (r ++ rs)))

-- Every key under which an attribute of the set has a value.
abbrev pub EachKey : (Bytes → Type 0) → StatusSet → Type 0
EachKey P = All (λ a. All (λ v. P v.0) a.1.values)

-- The set has values of the attributes for the key.
abbrev pub Has : StatusSet → List Bytes → Bytes → Type 0
Has set names key = All (λ n. IsSome (required n key set)) names

pub text-IsSome :
    (set : StatusSet) (a key : Bytes) → IsSome (required a key set) → IsSome (text_of set a key)
text-IsSome set a key h = bind-IsSome _ (required a key set) h (λ v. is v.value_string)

pub text_or-IsSome :
    (other : Bytes) (set : StatusSet) (a key : Bytes)
    → IsSome (values_of a set)
    → IsSome (text_or other set a key)
text_or-IsSome other set a key h = bind-IsSome _ (values_of a set) h (λ vs. is _)

every_value :
    {P : Bytes → Type 0} (vs : List (Bytes × Value)) → ((key : Bytes) → P key) → All (λ v. P v.0) vs
every_value [] f = tt
every_value (v ∷ vs) f = (f v.0, every_value vs f)

-- A property of the keys that follows from another.
pub EachKey-weaken :
    {P Q : Bytes → Type 0} (set : StatusSet)
    → ((key : Bytes) → P key → Q key)
    → EachKey P set
    → EachKey Q set
EachKey-weaken set f h = All-weaken (λ a ha. All-weaken (λ v hv. f v.0 hv) a.1.values ha) set h

pub every_key : {P : Bytes → Type 0} (set : StatusSet) → ((key : Bytes) → P key) → EachKey P set
every_key [] f = tt
every_key (a ∷ set) f = (every_value a.1.values f, every_key set f)
