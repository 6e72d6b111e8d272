-- ===== src/Amqsevtg/Values/Clean.antt =====
-- Underscores in what prettyValString gives.
use mq_metric_samples.Prelude.{
  ℕ, zero, suc, ◌-◌, ◌/◌, ◌%◌, ◌≤◌, ◌<◌, Bytes, codes, has_prefix, to_upper, to_upper_byte,
  to_lower_byte, length, Bool, true, false, not, ◌&&◌, List, [], ◌∷◌, Free, All, All-append, ◌==◌,
  ◌≡◌, ◌≢◌, refl, arith, Bool-cases, inl, inr,
}
use mq_metric_samples.Prelude.Int.{ℤ, pos, negsuc}
use mq_metric_samples.Prelude.Decimal.{itoa, digits, digits_from, digit}
use mq_metric_samples.Amqsevtg.Values.{
  replace_from, replace_all, contains, replace_end, title_from, force_upper, force_all, titled,
  special, special_dash, pretty_text, queue_name, Raw, pretty_val_string,
}

abbrev Clean : Bytes → Type 0
Clean = Free b'_'

replace_from-Free :
    (old new : Bytes) (skip : ℕ) (s : Bytes)
    → Clean new
    → Clean s
    → Clean (replace_from old new skip s)
unfolding replace_from
replace_from-Free old new skip [] n h = tt
replace_from-Free old new (suc skip) (c ∷ cs) n h = replace_from-Free old new skip cs n h.1
replace_from-Free old new zero (c ∷ cs) n h = elim (Bool-cases (has_prefix (c ∷ cs) old)) [
  | inl match ↦
      rw match
        (All-append (λ c. c ≢ b'_') new _ n (replace_from-Free old new (length old - 1) cs n h.1))
  | inr other ↦ rw other (h.0, replace_from-Free old new 0 cs n h.1)
]

-- A text whose first byte does not occur is not found.
replace_absent : (x : ℕ) (old new s : Bytes) → Free x s → replace_all (x ∷ old) new s ≡ s
unfolding replace_from has_prefix
replace_absent x old new [] h = refl
replace_absent x old new (c ∷ cs) h = ground (arith, replace_absent x old new cs h.1)

title_from-Free : (next : Bool) (s : Bytes) → Clean (title_from true next s)
unfolding title_from to_upper_byte to_lower_byte
title_from-Free next [] = tt
title_from-Free next (c ∷ cs) = elim (Bool-cases (c == b'_')) [
  | inl dash ↦ rw dash ((ground arith), title_from-Free true cs)
  | inr letter ↦ elim (Bool-cases (next && not (c == b' '))) [
    | inl up ↦ rw (letter, up) (ground arith, title_from-Free false cs)
    | inr low ↦ rw (letter, low) (ground arith, title_from-Free next cs)
  ]
]

title_from_start-Free : (next : Bool) (s : Bytes) → Clean (title_from false next s)
unfolding title_from
title_from_start-Free next [] = tt
title_from_start-Free next (c ∷ cs) = elim (Bool-cases (c == b'_')) [
  | inl dash ↦ rw dash (title_from-Free next cs)
  | inr other ↦ rw other (title_from_start-Free next cs)
]

force_all-Free :
    (ws : List Bytes) (s : Bytes)
    → All (λ w. Clean (to_upper w)) ws
    → Clean s
    → Clean (force_all ws s)
unfolding force_all
force_all-Free [] s w h = h
force_all-Free (w ∷ ws) s c h = force_all-Free ws _ c.1 (replace_from-Free w (to_upper w) 0 s c.0 h)

force_upper-Free : All (λ w. Clean (to_upper w)) force_upper
unfolding to_upper_byte
force_upper-Free = ground arith

titled-Free : (s : Bytes) → Clean (titled s)
unfolding titled
titled-Free s =
    let q =
      replace_end (codes "_Q") (codes "_QUEUE") (replace_all (codes "_Q_") (codes "_QUEUE_") s) in
    force_all-Free force_upper (title_from false true q) force_upper-Free
      (title_from_start-Free true q)

special-Free : (s : Bytes) → Clean s → Clean (special s)
unfolding special
special-Free s h =
    replace_from-Free (codes " Os") (codes " OS") 0 (replace_all (codes "Zos") (codes "zOS") s)
      (ground arith) (replace_from-Free (codes "Zos") (codes "zOS") 0 s (ground arith) h)

contains-Free : (x : ℕ) (s : Bytes) → contains x s ≡ false → Free x s
unfolding contains
contains-Free x [] h = tt
contains-Free x (c ∷ cs) h = (ground arith, contains-Free x cs (ground arith))

special_dash_lem : (s : Bytes) → Clean s → special_dash s ≡ s
unfolding special_dash
special_dash_lem s h = replace_absent b'_' (codes "Os") (codes "_OS") s h

pretty_text-Free : (s : Bytes) → Clean (pretty_text s)
unfolding pretty_text
pretty_text-Free s = elim (Bool-cases (contains b'_' s)) [
  | inl some_dash ↦
      let clean = special-Free (titled s) (titled-Free s) in
      rw (some_dash, special_dash_lem (special (titled s)) clean) clean
  | inr none ↦ rw none (contains-Free b'_' s none)
]

digits_from-Free :
    (fuel base n : ℕ) (out : Bytes)
    → base ≤ 16
    → 0 < base
    → Clean out
    → Clean (digits_from fuel base n out)
unfolding digits_from
digits_from-Free zero base n out b p h = h
digits_from-Free (suc fuel) base n out b p h =
    let d : digit (n % base) ≢ b'_' = ground arith in
    elim (Bool-cases (n == 0)) [
      | inl end ↦ rw end h
      | inr more ↦ rw more (digits_from-Free fuel base (n / base) _ b p (d, h))
    ]

digits-Free : (n : ℕ) → Clean (digits 10 n)
unfolding digits
digits-Free n = elim (Bool-cases (n == 0)) [
  | inl none ↦ rw none (ground arith)
  | inr some_digits ↦
      let clean = digits_from-Free (suc n) 10 n [] (ground arith) (ground arith) tt in
      rw some_digits (rw some_digits at clean)
]

itoa-Free : (v : ℤ) → Clean (itoa v)
unfolding itoa
itoa-Free (pos n) = digits-Free n
itoa-Free (negsuc n) = (ground arith, digits-Free (suc n))

-- Without the option `rawString`, what is shown for a value has no underscore, whatever the name;
-- and the last of the replacements, which looks for one, changes nothing.
pub pretty_val_string-Free :
    (raw : Raw) (s : Bytes) (v : ℤ) (raw_num : Bool)
    → raw.raw_string ≡ false
    → Free b'_' (pretty_val_string raw s v raw_num)
      × (special_dash (special (titled s)) ≡ special (titled s))
unfolding pretty_val_string
pretty_val_string-Free raw s v raw_num h = (
  rw h (elim (Bool-cases (raw.raw_number && raw_num)) [
    | inl number ↦ rw number (itoa-Free v)
    | inr name ↦ rw name (pretty_text-Free (queue_name s))
  ]),
  special_dash_lem (special (titled s)) (special-Free (titled s) (titled-Free s)),
)
