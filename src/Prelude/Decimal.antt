-- ===== src/Prelude/Decimal.antt =====
-- Numbers in text, as Go's `strconv` and `fmt` write them.
use Prim.Native.Nat.{ℕ, zero, suc, ◌+◌, ◌-◌, ◌/◌, ◌%◌}
use mathlib.Core.List.{[], ◌∷◌}
use mq_metric_samples.Prelude.Tests.{ltb, ◌==◌, if◌then◌else◌}
use mq_metric_samples.Prelude.Lists.{length}
use mq_metric_samples.Prelude.Text.{Bytes}
use mq_metric_samples.Prelude.Int.{ℤ, pos, negsuc}

-- The digit of a value below 16, in upper case.
abbrev pub digit : ℕ → ℕ
digit d = if ltb d 10 then b'0' + d else b'A' + (d - 10)

-- The digits in front of those that are there; n + 1 rounds are enough, as each divides.
unfoldable pub digits_from : ℕ → ℕ → ℕ → Bytes → Bytes
digits_from zero base n out = out
digits_from (suc fuel) base n out =
    let rest = digits_from fuel base (n / base) (digit (n % base) ∷ out) in
    if n == 0 then out else rest

unfoldable pub digits : ℕ → ℕ → Bytes
unfolding digits_from
digits base n = if n == 0 then b'0' ∷ [] else digits_from (suc n) base n []

-- `strconv.Itoa`.
unfoldable pub itoa : ℤ → Bytes
unfolding digits
itoa (pos n) = digits 10 n
itoa (negsuc n) = b'-' ∷ digits 10 (suc n)

abbrev pub zeros : ℕ → Bytes → Bytes
zeros zero s = s
zeros (suc n) s = b'0' ∷ zeros n s

-- `%08X`, where a sign counts among the eight places.
unfoldable pub hex8 : ℤ → Bytes
unfolding digits
hex8 (pos n) = let d = digits 16 n in zeros (8 - length d) d
hex8 (negsuc n) = let d = digits 16 (suc n) in b'-' ∷ zeros (7 - length d) d
