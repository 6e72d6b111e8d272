-- ===== src/Dspmqrtj/Route.antt =====
-- The numbers of the stored activities through the messages of a trace, and the summary of them.
use mq_metric_samples.Prelude.{
  ℕ, ◌≤◌, Bytes, not, ◌&&◌, false, List, [], ◌∷◌, Option, some, ◌>>=◌, >>=-eq-some, Bool-cases, ◌≡◌,
  arith, inl, inr, All, All-weaken, In, there,
}
use mq_metric_samples.Prelude.Int.{ℤ, pos, pos_part, ◌≤ℤ◌, ltb_ℤ, eqb_ℤ}
use mq_metric_samples.Dspmqrtj.Activities.{
  ActivityMap, Trace, minus_one, add_activity, init_activity, map_insert, map_lookup, max_ℤ,
}
use mq_metric_samples.Dspmqrtj.Parse.{Pcf, parse_parm, settle, parse_parms_of}
use mq_metric_samples.Dspmqrtj.Parse.Stored.{parse_parm-Keeps}
use mq_metric_samples.Dspmqrtj.Summary.{Output, print_summary}
use mq_metric_samples.Dspmqrtj.Summary.Listed.{print_summary-Adds, stored-In}

abbrev AllUpTo : ℤ → ActivityMap → Type 0
AllUpTo h = All (λ e. e.0 ≤ℤ h)

abbrev pub IsStored : Trace → Type 0
IsStored t = AllUpTo t.highest_activity t.activity_map

map_insert-AllUpTo :
    (h k : ℤ) (a : Option ℕ) (m : ActivityMap) → k ≤ℤ h → AllUpTo h m → AllUpTo h (map_insert k a m)
unfolding map_insert
map_insert-AllUpTo h k a [] le all = (le, tt)
map_insert-AllUpTo h k a ((j, b) ∷ m) le all = elim (Bool-cases (eqb_ℤ j k)) [
  | inl same ↦ rw same (le, all.1)
  | inr other ↦ rw other (all.0, map_insert-AllUpTo h k a m le all.1)
]

map_lookup-bound :
    (h k : ℤ) (a : Option ℕ) (m : ActivityMap) → AllUpTo h m → map_lookup k m ≡ some a → k ≤ℤ h
unfolding map_lookup
map_lookup-bound h k a [] all found = cc found
map_lookup-bound h k a ((j, b) ∷ m) all found = elim (Bool-cases (eqb_ℤ j k)) [
  | inl same ↦ ground (arith, all.0)
  | inr other ↦ map_lookup-bound h k a m all.1 (rw other at found)
]

max_ℤ-bounds : (a b : ℤ) → (a ≤ℤ max_ℤ a b) × (b ≤ℤ max_ℤ a b)
unfolding max_ℤ
max_ℤ-bounds a b = elim (Bool-cases (ltb_ℤ a b)) [
  | inl less ↦ rw less (ground arith, ground arith)
  | inr other ↦ rw other (ground arith, ground arith)
]

add_activity-IsStored :
    (a : Option ℕ) (i : ℤ) (t : Trace) → IsStored t → IsStored (add_activity a i t)
unfolding add_activity
add_activity-IsStored a i t s =
    let (old, new) = max_ℤ-bounds t.highest_activity i in
    let wider = All-weaken (λ e le. omega (arith, le, old)) t.activity_map s in
    elim (Bool-cases (eqb_ℤ i (pos 0))) [
      | inl first ↦ rw first wider
      | inr later ↦
          rw later (map_insert-AllUpTo (max_ℤ t.highest_activity i) i a t.activity_map new wider)
    ]

module _ (mqi_to_string : Bytes → ℤ → Bytes) (parse_time : Bytes → Option ℤ) where
  settle-IsStored : (t : Trace) → IsStored t → IsStored (settle mqi_to_string parse_time t)
  unfolding settle
  settle-IsStored t s =
      elim (Bool-cases (not (eqb_ℤ t.recorded minus_one) && not (eqb_ℤ t.unrecorded minus_one))) [
        | inl both ↦ rw both (add_activity-IsStored t.act t.recorded t s)
        | inr waiting ↦ rw waiting s
      ]

  pub parse_parms_of-IsStored :
      (ps : List Pcf) (t t' : Trace)
      → parse_parms_of mqi_to_string parse_time ps t ≡ some t'
      → IsStored t
      → IsStored t'
  unfolding parse_parms_of
  parse_parms_of-IsStored [] t t' h s = let e : t ≡ t' = cc h in rw (← e) s
  parse_parms_of-IsStored (p ∷ ps) t t' h s =
      let t₀ = record t { operation_date = []; operation_time = [] } in
      let (t₁, parsed, rest) = >>=-eq-some (parse_parm mqi_to_string parse_time p t₀) _ h in
      let (map_same, highest_same, seen) =
        parse_parm-Keeps mqi_to_string parse_time p t₀ t₁ parsed in
      parse_parms_of-IsStored ps (settle mqi_to_string parse_time t₁) t' rest
        (settle-IsStored t₁ (rw (map_same, highest_same) s))

  -- The messages of one trace, each given by its parameters.
  unfoldable pub parse_all : List (List Pcf) → Trace → Option Trace
  unfolding parse_parms_of
  parse_all [] t = some t
  parse_all (ps ∷ msgs) t = parse_parms_of mqi_to_string parse_time ps t >>= λ t'. parse_all msgs t'

  parse_all-IsStored :
      (msgs : List (List Pcf)) (t t' : Trace)
      → parse_all msgs t ≡ some t'
      → IsStored t
      → IsStored t'
  unfolding parse_all
  parse_all-IsStored [] t t' h s = let e : t ≡ t' = cc h in rw (← e) s
  parse_all-IsStored (ps ∷ msgs) t t' h s =
      let (t₁, first, rest) = >>=-eq-some (parse_parms_of mqi_to_string parse_time ps t) _ h in
      parse_all-IsStored msgs t₁ t' rest (parse_parms_of-IsStored ps t t₁ first s)

  -- In whatever order the reports of a trace come, the summary, where it completes, lists every
  -- activity that is stored under a positive number.
  pub print_summary-all :
      (msgs : List (List Pcf)) (t t' : Trace) (o o' : Output) (k : ℕ) (a : Option ℕ)
      → parse_all msgs (init_activity t) ≡ some t'
      → o.immediate_failure ≡ false
      → print_summary t' o ≡ some o'
      → 1 ≤ k
      → map_lookup (pos k) t'.activity_map ≡ some a
      → In a o'.activities
  unfolding init_activity
  print_summary-all msgs t t' o o' k a parsed going printed positive found =
      let s = parse_all-IsStored msgs (init_activity t) t' parsed tt in
      let bound = map_lookup-bound t'.highest_activity (pos k) a t'.activity_map s found in
      let (f, first, listed, counted) = print_summary-Adds t' o o' going printed in
      rw listed (
        there (
          stored-In (pos_part t'.highest_activity) 1 k t'.activity_map a positive
            (omega (arith, bound)) found))
