-- ===== src/Config/Parms/Convert.antt =====
-- The parts of Go's `strconv` that the configuration code calls: ParseBool, and ParseInt at base 10
-- and 64 bits. The flag is false where Go returns an error.
use mq_metric_samples.Prelude.{
  ℕ, ◌+◌, ◌-◌, ◌*◌, ◌^◌, Bytes, codes, bytes_eq, Bool, true, false, not, ◌&&◌, ◌||◌, List, [], ◌∷◌,
  leb, ltb, ◌==◌, if◌then◌else◌,
}
use mq_metric_samples.Prelude.Int.{ℤ, pos, negsuc}

unfoldable pub one_of : Bytes → List Bytes → Bool
unfolding bytes_eq
one_of s [] = false
one_of s (w ∷ ws) = bytes_eq s w || one_of s ws

abbrev true_words : List Bytes
true_words = codes "1" ∷ codes "t" ∷ codes "T" ∷ codes "TRUE" ∷ codes "true" ∷ codes "True" ∷ []

abbrev false_words : List Bytes
false_words = codes "0" ∷ codes "f" ∷ codes "F" ∷ codes "FALSE" ∷ codes "false" ∷ codes "False" ∷ []

-- The value, false if it is none, and whether it is one.
unfoldable pub parse_bool : Bytes → Bool × Bool
unfolding one_of
parse_bool s =
    if one_of s true_words
    then (true, true)
    else if one_of s false_words
    then (false, true)
    else (false, false)

pub data Scan : Type 0 where
  syntax_error : Scan
  range_error : Scan
  digits : ℕ → Scan

abbrev u64_mod : ℕ
u64_mod = 2 ^ 64

abbrev i64_half : ℕ
i64_half = 2 ^ 63

-- The loop of ParseUint: it stops at the first bad digit or the first overflow.
scan : ℕ → Bytes → Scan
scan n [] = digits n
scan n (c ∷ cs) =
    let n' = n * 10 + (c - b'0') in
    let rest = scan n' cs in
    if not (leb b'0' c && leb c b'9')
    then syntax_error
    else if ltb n' u64_mod
    then rest
    else range_error

abbrev parse_uint : Bytes → Scan
parse_uint [] = syntax_error
parse_uint (c ∷ cs) = scan 0 (c ∷ cs)

-- -n.
abbrev negated : ℕ → ℤ
negated n = if n == 0 then pos 0 else negsuc (n - 1)

-- A value out of range is cut to the nearest one.
signed : Bool → Scan → ℤ × Bool
signed neg syntax_error = (pos 0, false)
signed true range_error = (negated i64_half, false)
signed false range_error = (pos (i64_half - 1), false)
signed true (digits n) = if leb n i64_half then (negated n, true) else (negated i64_half, false)
signed false (digits n) = if ltb n i64_half then (pos n, true) else (pos (i64_half - 1), false)

unfoldable pub parse_int : Bytes → ℤ × Bool
unfolding scan signed
parse_int [] = (pos 0, false)
parse_int (c ∷ cs) =
    if c == b'-'
    then signed true (parse_uint cs)
    else if c == b'+'
    then signed false (parse_uint cs)
    else signed false (parse_uint (c ∷ cs))
