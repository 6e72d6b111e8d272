-- ===== src/Amqsevtg/Names.antt =====
-- amqsevtg/format.go: prettyName. Names of constants are ASCII.
use mq_metric_samples.Prelude.{
  ℕ, Bytes, to_upper_byte, to_lower_byte, Bool, true, false, [], ◌∷◌, ◌++◌, Free, ◌==◌,
  if◌then◌else◌, ◌≡◌, ◌≢◌, refl, arith, Bool-cases, inl, inr, ◌∙◌, ap,
}
use mq_metric_samples.Json.Fixup.{camel, camel_from}

-- The loop with its two flags.
unfoldable pub pretty_name_from : Bool → Bool → Bytes → Bytes
unfolding to_upper_byte to_lower_byte
pretty_name_from found after [] = []
pretty_name_from false after (c ∷ cs) =
    let rest = pretty_name_from false after cs in
    let rest' = pretty_name_from true after cs in if c == b'_' then rest' else rest
pretty_name_from true after (c ∷ cs) =
    let rest = pretty_name_from true true cs in
    let rest' = pretty_name_from true false cs in
    let d = if after then to_upper_byte c else to_lower_byte c in
    if c == b'_' then rest else if d == b'_' then rest' else d ∷ rest'

-- The option `rawString` leaves the name as it is.
unfoldable pub pretty_name : Bool → Bytes → Bytes
unfolding pretty_name_from
pretty_name raw_string s = if raw_string then s else pretty_name_from false false s

-- A letter's other case is no underscore.
converted_letter :
    (up : Bool) (c : ℕ)
    → c ≢ b'_'
    → ((if up then to_upper_byte c else to_lower_byte c) == b'_') ≡ false
unfolding to_upper_byte to_lower_byte
converted_letter true c h = ground arith
converted_letter false c h = ground arith

pretty_name_from-camel : (up : Bool) (s : Bytes) → pretty_name_from true up s ≡ camel_from up s
unfolding pretty_name_from camel_from
pretty_name_from-camel up [] = refl
pretty_name_from-camel up (c ∷ cs) = elim (Bool-cases (c == b'_')) [
  | inl dash ↦ rw dash (pretty_name_from-camel true cs)
  | inr letter ↦
      let d = if up then to_upper_byte c else to_lower_byte c in
      rw (letter, converted_letter up c (ground arith))
        (ap (λ (r : Bytes). d ∷ r) (pretty_name_from-camel false cs))
]

prefix_skipped :
    (p s : Bytes)
    → Free b'_' p
    → pretty_name_from false false (p ++ b'_' ∷ s) ≡ pretty_name_from true false s
unfolding pretty_name_from
prefix_skipped [] s h = refl
prefix_skipped (c ∷ p) s h = ground (arith, prefix_skipped p s h.1)

-- The name of a constant, without its prefix up to the first underscore, takes the same form as a
-- metric's name in the JSON collector.
pub pretty_name-camel : (p s : Bytes) → Free b'_' p → pretty_name false (p ++ b'_' ∷ s) ≡ camel s
unfolding pretty_name
pretty_name-camel p s h = prefix_skipped p s h ∙ pretty_name_from-camel false s
