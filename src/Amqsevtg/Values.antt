-- ===== src/Amqsevtg/Values.antt =====
-- amqsevtg/format.go: prettyValString and the replacements of Go's `strings` and `regexp` packages
-- that it uses. Names of constants are ASCII.
pub mod Clean
use mq_metric_samples.Prelude.{
  ℕ, zero, suc, ◌-◌, Bytes, codes, bytes_eq, has_prefix, to_upper, to_upper_byte, to_lower_byte,
  length, take, drop, Bool, true, false, not, ◌&&◌, List, [], ◌∷◌, ◌++◌, ltb, ◌==◌, if◌then◌else◌,
}
use mq_metric_samples.Prelude.Int.{ℤ}
use mq_metric_samples.Prelude.Decimal.{itoa}

-- `strings.ReplaceAll` of a text that is not empty; `skip` counts the bytes of a match still to be
-- passed over.
unfoldable pub replace_from : Bytes → Bytes → ℕ → Bytes → Bytes
unfolding has_prefix
replace_from old new skip [] = []
replace_from old new (suc skip) (c ∷ cs) = replace_from old new skip cs
replace_from old new zero (c ∷ cs) =
    let matched = replace_from old new (length old - 1) cs in
    let kept = replace_from old new 0 cs in
    if has_prefix (c ∷ cs) old then new ++ matched else c ∷ kept

abbrev pub replace_all : Bytes → Bytes → Bytes → Bytes
replace_all old new s = replace_from old new 0 s

-- `strings.Contains` for one byte.
unfoldable pub contains : ℕ → Bytes → Bool
contains x [] = false
contains x (c ∷ cs) = let rest = contains x cs in if c == x then true else rest

-- The expression `_Q$`, at the end of the text only.
unfoldable pub replace_end : Bytes → Bytes → Bytes → Bytes
unfolding bytes_eq
replace_end old new s =
    let n = length s - length old in
    if not (ltb (length s) (length old)) && bytes_eq (drop n s) old then take n s ++ new else s

-- The loop: MQXXX_AAA_BBB becomes "Aaa Bbb".
unfoldable pub title_from : Bool → Bool → Bytes → Bytes
unfolding to_upper_byte to_lower_byte
title_from found next_upper [] = []
title_from false next_upper (c ∷ cs) =
    let rest = title_from false next_upper cs in
    let rest' = title_from true next_upper cs in if c == b'_' then rest' else rest
title_from true next_upper (c ∷ cs) =
    let space = b' ' ∷ title_from true true cs in
    let up = to_upper_byte c ∷ title_from true false cs in
    let low = to_lower_byte c ∷ title_from true next_upper cs in
    if c == b'_' then space else if next_upper && not (c == b' ') then up else low

abbrev pub force_upper : List Bytes
force_upper =
    codes "Amqp"
    ∷ codes "Clwl"
    ∷ codes "Cpi"
    ∷ codes "Crl"
    ∷ codes "Csp"
    ∷ codes "Dns"
    ∷ codes "Dn"
    ∷ codes "Idpw"
    ∷ codes "Igq"
    ∷ codes "Ip "
    ∷ codes "Ipv"
    ∷ codes "Ldap"
    ∷ codes "Lu62"
    ∷ codes "Mca "
    ∷ codes "Mqi"
    ∷ codes "Mqsc"
    ∷ codes "Mr "
    ∷ codes "Mru"
    ∷ codes "Pcf"
    ∷ codes "Sctq"
    ∷ codes "Ssl"
    ∷ codes "Tcp"
    ∷ []

unfoldable pub force_all : List Bytes → Bytes → Bytes
unfolding replace_from
force_all [] s = s
force_all (w ∷ ws) s = force_all ws (replace_all w (to_upper w) s)

-- The text with its words capitalised, in front of the last three replacements.
unfoldable pub titled : Bytes → Bytes
unfolding replace_from replace_end title_from force_all
titled s = force_all force_upper (
    title_from false true
      (replace_end (codes "_Q") (codes "_QUEUE") (replace_all (codes "_Q_") (codes "_QUEUE_") s)))

-- The first two of the replacements at the end, and the third.
unfoldable pub special : Bytes → Bytes
unfolding replace_from
special s = replace_all (codes " Os") (codes " OS") (replace_all (codes "Zos") (codes "zOS") s)

unfoldable pub special_dash : Bytes → Bytes
unfolding replace_from
special_dash s = replace_all (codes "_Os") (codes "_OS") s

unfoldable pub pretty_text : Bytes → Bytes
unfolding contains titled special special_dash
pretty_text s = if contains b'_' s then special_dash (special (titled s)) else s

unfoldable pub queue_name : Bytes → Bytes
unfolding bytes_eq
queue_name s = if bytes_eq s (codes "MQOT_Q") then codes "Queue" else s

pub record Raw : Type 0 where
  pub raw_string : Bool
  pub raw_number : Bool

unfoldable pub pretty_val_string : Raw → Bytes → ℤ → Bool → Bytes
unfolding itoa queue_name pretty_text
pretty_val_string raw s v raw_num =
    if raw.raw_string
    then s
    else if raw.raw_number && raw_num
    then itoa v
    else pretty_text (queue_name s)

unfoldable pub pretty_val : Raw → Bytes → ℤ → Bytes
unfolding pretty_val_string
pretty_val raw s v = pretty_val_string raw s v true
