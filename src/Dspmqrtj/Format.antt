-- ===== src/Dspmqrtj/Format.antt =====
-- dspmqrtj/format.go. Texts that MQ returns are ASCII.
use mq_metric_samples.Prelude.{
  ℕ, ◌+◌, ◌-◌, Bytes, codes, split, to_upper, to_lower, length, take, drop, Bool, false, List, [],
  ◌∷◌, ◌++◌, Option, none, some, ◌>>=◌, ltb, ◌==◌, if◌then◌else◌, ◌≡◌, refl,
}
use mq_metric_samples.Prelude.Int.{bit, ℤ, pos, eqb_ℤ, pos_part, neg_part}

abbrev pub ot_topic : ℤ
ot_topic = pos 8

unfoldable pub obj_type_string : ℤ → Bytes
obj_type_string v = if eqb_ℤ v ot_topic then codes "topic" else codes "queue"

-- One token: a text of one letter, or none, stays as it is.
unfoldable pub capital : Bytes → Bytes
capital (c ∷ d ∷ tok) = to_upper (c ∷ []) ++ to_lower (d ∷ tok)
capital tok = tok

unfoldable pub capitals : List Bytes → Bytes
unfolding capital
capitals [] = []
capitals (tok ∷ toks) = capital tok ++ capitals toks

-- `strings.ToLower(s[0:1]) + s[1:]`, which panics on the empty text.
unfoldable pub lower_first : Bytes → Option Bytes
lower_first [] = none
lower_first (c ∷ cs) = some (to_lower (c ∷ []) ++ cs)

-- By the tokens; `split` gives at least one.
prettify_tokens : List Bytes → Bytes → Bool → Option Bytes
prettify_tokens (first ∷ tok ∷ toks) s json =
    let t = capitals (tok ∷ toks) in if json then lower_first t else some t
prettify_tokens toks s json = some (if json then to_lower s else s)

unfoldable pub prettify_json : Bytes → Bool → Option Bytes
unfolding split capitals lower_first prettify_tokens
prettify_json s json = prettify_tokens (split b'_' s) s json

plain_tokens : List Bytes → Bytes → Bytes
plain_tokens (first ∷ tok ∷ toks) s = capitals (tok ∷ toks)
plain_tokens toks s = s

-- `prettify` asks for no lower case, and so never panics.
unfoldable pub prettify : Bytes → Bytes
unfolding split capitals plain_tokens
prettify s = plain_tokens (split b'_' s) s

plain_tokens_lem :
    (toks : List Bytes) (s : Bytes) → prettify_tokens toks s false ≡ some (plain_tokens toks s)
unfolding prettify_tokens plain_tokens
plain_tokens_lem [] s = refl
plain_tokens_lem (first ∷ []) s = refl
plain_tokens_lem (first ∷ tok ∷ toks) s = refl

pub prettify-prettify_json : (s : Bytes) → prettify_json s false ≡ some (prettify s)
unfolding prettify prettify_json
prettify-prettify_json s = plain_tokens_lem (split b'_' s) s

-- The constants of the PCF parameters and of their values, in MQ's documentation.
abbrev pub iacf_route_accumulation : ℕ
iacf_route_accumulation = 1238

abbrev pub iacf_route_delivery : ℕ
iacf_route_delivery = 1239

abbrev pub iacf_route_forwarding : ℕ
iacf_route_forwarding = 1259

abbrev pub iacf_route_detail : ℕ
iacf_route_detail = 1234

accumulation : ℤ → Bytes
accumulation v =
    if eqb_ℤ v (pos 65539)
    then codes "None"
    else if eqb_ℤ v (pos 65540)
    then codes "InMessage"
    else if eqb_ℤ v (pos 65541)
    then codes "Reply"
    else codes "Unknown"

-- MQROUTE_DELIVER_YES is bit 12, MQROUTE_DELIVER_NO bit 13.
delivery : ℤ → Bytes
unfolding bit
delivery v = if bit 12 v then codes "Yes" else if bit 13 v then codes "No" else codes "Unknown"

-- MQROUTE_FORWARD_ALL is bit 8, MQROUTE_FORWARD_IF_SUPPORTED bit 9.
forwarding : ℤ → Bytes
unfolding bit
forwarding v =
    if bit 8 v then codes "All" else if bit 9 v then codes "IfSupported" else codes "Unknown"

detail : ℤ → Bytes
detail v =
    if eqb_ℤ v (pos 2)
    then codes "Low"
    else if eqb_ℤ v (pos 8)
    then codes "Medium"
    else if eqb_ℤ v (pos 32)
    then codes "High"
    else codes "Unknown"

unfoldable pub decode_route_options : ℕ → ℤ → Bytes × Bytes
unfolding accumulation delivery forwarding detail
decode_route_options attr v =
    if attr == iacf_route_accumulation
    then (codes "routeAccumulation", accumulation v)
    else if attr == iacf_route_delivery
    then (codes "routeDelivery", delivery v)
    else if attr == iacf_route_forwarding
    then (codes "routeForwarding", forwarding v)
    else if attr == iacf_route_detail
    then (codes "routeDetail", detail v)
    else (codes "unknown", codes "Unknown")

-- `s[i:j]`, which panics past the end.
unfoldable pub sub_text : ℕ → ℕ → Bytes → Option Bytes
sub_text i j s = if ltb (length s) j then none else some (take (j - i) (drop i s))

epoch_of : Option ℤ → ℤ
epoch_of (some ms) = ms
epoch_of none = pos 0

-- MQ's date YYYYMMDD and time HHMMSShh, made readable, and the epoch in milliseconds as
-- `time.Parse` gives it: 0 where it does not read the text.
unfoldable pub time_stamp : (Bytes → Option ℤ) → Bytes → Bytes → Option (Bytes × Bytes × ℤ)
unfolding sub_text epoch_of
time_stamp parse_time d t = sub_text 0 6 t >>= λ hms. sub_text 6 8 t >>= λ hh.
    sub_text 0 4 d >>= λ year. sub_text 4 6 d >>= λ month. sub_text 6 8 d >>= λ day.
    sub_text 0 2 t >>= λ hour. sub_text 2 4 t >>= λ minute. sub_text 4 6 t >>= λ second. some (
      year ++ codes "-" ++ month ++ codes "-" ++ day,
      hour ++ codes ":" ++ minute ++ codes ":" ++ second ++ codes "." ++ hh,
      epoch_of (parse_time (d ++ hms ++ codes "." ++ hh)),
    )

-- The distance of two epochs. They are far below 2^53, where a float64 is exact.
unfoldable pub time_diff : ℤ → ℤ → ℤ
time_diff a b =
    let l = pos_part a + neg_part b in let r = pos_part b + neg_part a in pos ((l - r) + (r - l))
