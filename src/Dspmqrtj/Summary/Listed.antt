-- ===== src/Dspmqrtj/Summary/Listed.antt =====
-- What the summary lists, and what it counts.
use mq_metric_samples.Prelude.{
  ℕ, zero, suc, ◌+◌, ◌≤◌, ◌<◌, Bytes, codes, is_empty, lookup, get_elem?, Bool, false, not, ◌&&◌,
  List, [], ◌∷◌, ◌++◌, Option, none, some, >>=-eq-some, ◌==◌, if◌then◌else◌, ◌≡◌, refl, sym, ◌∙◌,
  ap, arith, In, here, there, Bool-cases, inl, inr, append_assoc, append-nil,
}
use mq_metric_samples.Prelude.Int.{pos, eqb_ℤ, pos_part}
use mq_metric_samples.Dspmqrtj.Activities.{Operation, Activity, Trace, map_lookup, ActivityMap}
use mq_metric_samples.Dspmqrtj.Parse.{oper_discard}
use mq_metric_samples.Dspmqrtj.Summary.{
  Info, Output, Walk, oper_send, reached, note_operation, note_operations, last_of, note_activity,
  noted, note_found, walk, judge, print_summary, finish,
}

-- How many channels an activity, and a list of them, traverses.
abbrev pub sends_in : List Operation → ℕ
sends_in [] = 0
sends_in (op ∷ ops) = (if eqb_ℤ op.operation_val oper_send then 1 else 0) + sends_in ops

abbrev pub operations_of : Option Activity → List Operation
operations_of none = []
operations_of (some x) = x.operations

abbrev pub at : List Activity → Option ℕ → List Operation
at heap none = []
at heap (some i) = operations_of (get_elem? heap i)

abbrev pub sends : List Activity → List (Option ℕ) → ℕ
sends heap [] = 0
sends heap (a ∷ rest) = sends_in (at heap a) + sends heap rest

reached-count : (o : Option Bytes) (i : Info) → (reached o i).channel_count ≡ i.channel_count
unfolding reached
reached-count none i = refl
reached-count (some s) i = refl

note_operation-count :
    (op : Operation) (i : Info)
    → (note_operation op i).channel_count
      ≡ (if eqb_ℤ op.operation_val oper_send then 1 else 0) + i.channel_count
unfolding note_operation
note_operation-count op i = elim (Bool-cases (eqb_ℤ op.operation_val oper_send)) [
  | inl send ↦ rw send (omega arith)
  | inr no_send ↦ elim (Bool-cases (eqb_ℤ op.operation_val oper_discard)) [
    | inl discard ↦
        rw (no_send, discard)
          (omega (arith, reached-count (lookup (codes "queueManager") op.details) i))
    | inr neither ↦ rw (no_send, neither) (omega arith)
  ]
]

note_operations-count :
    (ops : List Operation) (i : Info)
    → (note_operations ops i).channel_count ≡ sends_in ops + i.channel_count
unfolding note_operations
note_operations-count [] i = omega arith
note_operations-count (op ∷ ops) i =
    omega (arith, note_operations-count ops (note_operation op i), note_operation-count op i)

noted_count :
    (a : Option ℕ) (x : Activity) (last_op : Operation) (w : Walk)
    → (noted a x last_op w).walk_info.channel_count
      ≡ sends_in x.operations + 0 + w.walk_info.channel_count
unfolding noted
noted_count a x last_op w = omega (
  arith,
  note_operations-count x.operations (record w.walk_info {
    last_time = last_op.time;
    last_date = last_op.date;
    last_time_stamp_epoch = last_op.time_stamp_epoch;
  }),
)

-- What a part of the walk adds: its activities, each with its channels.
record Adds (heap : List Activity) (w w' : Walk) (added : List (Option ℕ)) : Type 0 where
  joined : w'.listed ≡ w.listed ++ added
  counted : w'.walk_info.channel_count ≡ sends heap added + w.walk_info.channel_count

noted-Adds :
    (heap : List Activity) (a : Option ℕ) (i : ℕ) (x : Activity) (last_op : Operation) (w : Walk)
    → a ≡ some i
    → get_elem? heap i ≡ some x
    → Adds heap w (noted a x last_op w) (a ∷ [])
unfolding noted
noted-Adds heap a i x last_op w a_set found = record {
  joined = refl;
  counted = rw (a_set, found) (noted_count (some i) x last_op w);
}

note_activity-Adds :
    (heap : List Activity) (a : Option ℕ) (w w' : Walk)
    → note_activity heap a w ≡ some w'
    → Adds heap w w' (a ∷ [])
unfolding note_activity
note_activity-Adds heap a w w' h =
    let (i, a_set, h₁) = >>=-eq-some a _ h in
    let (x, found, h₂) = >>=-eq-some (get_elem? heap i) _ h₁ in
    let (last_op, has, h₃) = >>=-eq-some (last_of x.operations) _ h₂ in
    let e : noted a x last_op w ≡ w' = cc h₃ in
    rw (← e) (noted-Adds heap a i x last_op w a_set found)

-- What the map holds under the numbers from i on, n of them, in their order.
abbrev pub found_in : Option (Option ℕ) → List (Option ℕ)
found_in none = []
found_in (some a) = a ∷ []

abbrev pub stored : ℕ → ℕ → ActivityMap → List (Option ℕ)
stored zero i m = []
stored (suc n) i m = found_in (map_lookup (pos i) m) ++ stored n (suc i) m

note_found-Adds :
    (heap : List Activity) (o : Option (Option ℕ)) (w w' : Walk)
    → note_found heap o w ≡ some w'
    → Adds heap w w' (found_in o)
unfolding note_found
note_found-Adds heap none w w' h =
    let e : w ≡ w' = cc h in
    rw (← e) (record { joined = sym (append-nil w.listed); counted = omega arith })
note_found-Adds heap (some b) w w' h = note_activity-Adds heap b w w' h

sends-append :
    (heap : List Activity) (as1 as2 : List (Option ℕ))
    → sends heap (as1 ++ as2) ≡ sends heap as1 + sends heap as2
sends-append heap [] as2 = omega arith
sends-append heap (a ∷ as1) as2 = omega (arith, sends-append heap as1 as2)

Adds-append :
    (heap : List Activity) (w w' w'' : Walk) (as1 as2 : List (Option ℕ))
    → Adds heap w w' as1
    → Adds heap w' w'' as2
    → Adds heap w w'' (as1 ++ as2)
Adds-append heap w w' w'' as1 as2 x y = record {
  joined =
      y.joined ∙ ap (λ (l : List (Option ℕ)). l ++ as2) x.joined ∙ append_assoc w.listed as1 as2;
  counted = omega (arith, x.counted, y.counted, sends-append heap as1 as2);
}

In-left : {a : Option ℕ} (as1 as2 : List (Option ℕ)) → In a as1 → In a (as1 ++ as2)
In-left [] as2 i = elim i [ ]
In-left (b ∷ as1) as2 here = here
In-left (b ∷ as1) as2 (there i) = there (In-left as1 as2 i)

In-right : {a : Option ℕ} (as1 as2 : List (Option ℕ)) → In a as2 → In a (as1 ++ as2)
In-right [] as2 i = i
In-right (b ∷ as1) as2 i = there (In-right as1 as2 i)

pub stored-In :
    (n i k : ℕ) (m : ActivityMap) (a : Option ℕ)
    → i ≤ k
    → k < i + n
    → map_lookup (pos k) m ≡ some a
    → In a (stored n i m)
stored-In zero i k m a from to found = absurd (omega arith)
stored-In (suc n) i k m a from to found = elim (Bool-cases (k == i)) [
  | inl same ↦
      let e : k ≡ i = ground arith in
      let at_i : map_lookup (pos i) m ≡ some a =
        ap (λ (j : ℕ). map_lookup (pos j) m) (sym e) ∙ found in
      In-left (found_in (map_lookup (pos i) m)) (stored n (suc i) m) (rw at_i here)
  | inr other ↦
      In-right (found_in (map_lookup (pos i) m)) (stored n (suc i) m)
        (stored-In n (suc i) k m a (ground arith) (omega arith) found)
]

walk-Adds :
    (n i : ℕ) (heap : List Activity) (m : ActivityMap) (w w' : Walk)
    → walk n i heap m w ≡ some w'
    → Adds heap w w' (stored n i m)
unfolding walk
walk-Adds zero i heap m w w' h =
    let e : w ≡ w' = cc h in
    rw (← e) (record { joined = sym (append-nil w.listed); counted = omega arith })
walk-Adds (suc n) i heap m w w' h =
    let (w₁, first, rest) = >>=-eq-some (note_found heap (map_lookup (pos i) m) w) _ h in
    Adds-append heap w w₁ w' (found_in (map_lookup (pos i) m)) (stored n (suc i) m)
      (note_found-Adds heap (map_lookup (pos i) m) w w₁ first)
      (walk-Adds n (suc i) heap m w₁ w' rest)

judge-count : (has_error : Bool) (i : Info) → (judge has_error i).channel_count ≡ i.channel_count
unfolding judge
judge-count has_error i = elim (Bool-cases (is_empty i.success && not has_error)) [
  | inl failed ↦ rw failed refl
  | inr other ↦ rw other refl
]

finish-Adds :
    (t : Trace) (o o' : Output) (ops : List Operation) (f : ℕ) (w : Walk) (added : List (Option ℕ))
    → Adds t.heap (record { walk_info = o.info; listed = some f ∷ []; last_epoch = pos 0 }) w added
    → finish t.has_error ops w o ≡ o'
    → (o'.activities ≡ some f ∷ added)
      × (o'.info.channel_count ≡ sends t.heap added + o.info.channel_count)
unfolding finish
finish-Adds t o o' ops f w added a e =
    rw (← e) (a.joined, judge-count t.has_error w.walk_info ∙ a.counted)

pub print_summary-Adds :
    (t : Trace) (o o' : Output)
    → o.immediate_failure ≡ false
    → print_summary t o ≡ some o'
    → (f : ℕ) × (t.first_activity ≡ some f)
      × (o'.activities ≡ some f ∷ stored (pos_part t.highest_activity) 1 t.activity_map)
      × (o'.info.channel_count
          ≡ sends t.heap (stored (pos_part t.highest_activity) 1 t.activity_map)
            + o.info.channel_count)
unfolding print_summary
print_summary-Adds t o o' going h =
    let h₀ = rw going at h in
    let (f, first, h₁) = >>=-eq-some t.first_activity _ h₀ in
    let (x, found, h₂) = >>=-eq-some (get_elem? t.heap f) _ h₁ in
    let (w, walked, h₃) =
      >>=-eq-some (walk (pos_part t.highest_activity) 1 t.heap t.activity_map _) _ h₂ in
    let a = walk-Adds (pos_part t.highest_activity) 1 t.heap t.activity_map _ w walked in
    let e : finish t.has_error x.operations w o ≡ o' = cc h₃ in
    let (listed, counted) = finish-Adds t o o' x.operations f w _ a e in (f, first, listed, counted)
