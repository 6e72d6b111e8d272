-- ===== src/Dspmqrtj/Parse/Stored.antt =====
-- The numbers under which the parser stores activities.
use mq_metric_samples.Prelude.{
  ℕ, zero, suc, Bytes, get_elem?, Bool, true, false, [], Option, none, some, ◌>>=◌, >>=-eq-some,
  if◌then◌else◌, ◌==◌, Bool-cases, ◌≡◌, refl, ◌∙◌, inl, inr,
}
use mq_metric_samples.Prelude.Int.{ℤ, eqb_ℤ}
use mq_metric_samples.Dspmqrtj.Format.{time_stamp}
use mq_metric_samples.Dspmqrtj.Activities.{
  Operation, Activity, Trace, new_activity, new_operation, with_act, with_op,
}
use mq_metric_samples.Dspmqrtj.Parse.{
  Pcf, integer, string, group, other, PcfList, nil, cons, oper_discard, enter, note_discard,
  operation_type, parse_integer, keep_string, stamp, parse_string, parse_parm, parse_group,
}

-- No store, and a discard that was seen stays seen.
abbrev pub Same : Trace → Trace → Type 0
Same t t' =
    (t'.activity_map ≡ t.activity_map)
    × (t'.highest_activity ≡ t.highest_activity)
    × (t.seen_discard ≡ true → t'.seen_discard ≡ true)

abbrev pub Keeps : Trace → Option Trace → Type 0
Keeps t p = (t' : Trace) → p ≡ some t' → Same t t'

some-Keeps : (t t₁ : Trace) → Same t t₁ → Keeps t (some t₁)
some-Keeps t t₁ s t' h = let e : t₁ ≡ t' = cc h in rw (← e) s

if-Keeps :
    (t : Trace) (b : Bool) (p q : Option Trace)
    → Keeps t p
    → Keeps t q
    → Keeps t (if b then p else q)
if-Keeps t true p q hp hq = hp
if-Keeps t false p q hp hq = hq

>>=-Keeps :
    (t : Trace) (p : Option Trace) (f : Trace → Option Trace)
    → Keeps t p
    → ((t₁ : Trace) → Keeps t₁ (f t₁))
    → Keeps t (p >>= f)
>>=-Keeps t p f hp hf t' h =
    let (t₁, first, rest) = >>=-eq-some p f h in
    let a = hp t₁ first in let b = hf t₁ t' rest in (b.0 ∙ a.0, b.1 ∙ a.1, λ s. b.2 (a.2 s))

value-Keeps {ℓ} :
    {A : Type ℓ} (t : Trace) (o : Option A) (f : A → Option Trace)
    → ((v : A) → Keeps t (f v))
    → Keeps t (o >>= f)
value-Keeps t none f hf = λ t' h. cc h
value-Keeps t (some v) f hf = hf v

with_act-Keeps : (f : Activity → Activity) (t : Trace) → Keeps t (with_act f t)
unfolding with_act
with_act-Keeps f t =
    value-Keeps t t.act _
      (λ a. value-Keeps t (get_elem? t.heap a) _ (λ x. some-Keeps t _ (refl, refl, λ s. s)))

with_op-Keeps : (f : Operation → Operation) (t : Trace) → Keeps t (with_op f t)
unfolding with_op
with_op-Keeps f t = value-Keeps t t.act _ (λ a. value-Keeps t t.op _ (λ o.
    value-Keeps t (get_elem? t.heap a) _
      (λ x. value-Keeps t (get_elem? x.operations o) _ (λ y. some-Keeps t _ (refl, refl, λ s. s)))))

new_operation-Keeps : (t : Trace) → Keeps t (new_operation t)
unfolding new_operation
new_operation-Keeps t =
    value-Keeps t t.act _
      (λ a. value-Keeps t (get_elem? t.heap a) _ (λ x. some-Keeps t _ (refl, refl, λ s. s)))

unchanged-Keeps : (t : Trace) → Keeps t (some t)
unchanged-Keeps t = some-Keeps t t (refl, refl, λ s. s)

note_discard-Same :
    (mqi_to_string : Bytes → ℤ → Bytes) (parse_time : Bytes → Option ℤ) (v : ℤ) (t : Trace)
    → Same t (note_discard mqi_to_string parse_time v t)
unfolding note_discard
note_discard-Same mqi_to_string parse_time v t = elim (Bool-cases (eqb_ℤ v oper_discard)) [
  | inl discard ↦ rw discard (refl, refl, λ s. refl)
  | inr other_type ↦ rw other_type (refl, refl, λ s. s)
]

module _ (mqi_to_string : Bytes → ℤ → Bytes) (parse_time : Bytes → Option ℤ) where
  enter-Keeps : (p : ℕ) (t : Trace) → Keeps t (enter mqi_to_string parse_time p t)
  unfolding enter new_activity
  enter-Keeps p t =
      if-Keeps t (p == 8005) _ _ (some-Keeps t _ (refl, refl, λ s. s))
        (if-Keeps t (p == 8004) _ _ (new_operation-Keeps t) (unchanged-Keeps t))

  operation_type-Keeps : (v : ℤ) (t : Trace) → Keeps t (operation_type mqi_to_string parse_time v t)
  unfolding operation_type
  operation_type-Keeps v t =
      >>=-Keeps t _ _ (with_op-Keeps _ t)
        (λ t₁. some-Keeps t₁ _ (note_discard-Same mqi_to_string parse_time v t₁))

  parse_integer-Keeps :
      (p : ℕ) (v : ℤ) (t : Trace) → Keeps t (parse_integer mqi_to_string parse_time p v t)
  unfolding parse_integer
  parse_integer-Keeps p v t = if-Keeps t (p == 1245) _ _ (with_op-Keeps _ t) (
      if-Keeps t (p == 1) _ _ (with_act-Keeps _ t) (
        if-Keeps t (p == 1235) _ _ (with_act-Keeps _ (record t { recorded = v })) (
          if-Keeps t (p == 1257) _ _ (with_act-Keeps _ (record t { unrecorded = v })) (
            if-Keeps t (p == 1237) _ _ (with_act-Keeps _ (record t { discon = v })) (
              if-Keeps t (p == 1240) _ _ (operation_type-Keeps v t) (
                if-Keeps t (p == 1511) _ _ (with_op-Keeps _ t) (
                  if-Keeps t _ _ _ (with_act-Keeps _ t)
                    (if-Keeps t (p == 1236) _ _ (with_act-Keeps _ t) (unchanged-Keeps t)))))))))

  keep_string-Keeps :
      (p : ℕ) (s : Bytes) (t : Trace) → Keeps t (keep_string mqi_to_string parse_time p s t)
  unfolding keep_string
  keep_string-Keeps p s t = if-Keeps t (p == 3133) _ _ (some-Keeps t _ (refl, refl, λ e. e)) (
      if-Keeps t (p == 3132) _ _ (some-Keeps t _ (refl, refl, λ e. e)) (
        if-Keeps t (p == 3024) _ _ (with_act-Keeps _ t)
          (if-Keeps t (p == 3134) _ _ (with_act-Keeps _ t) (unchanged-Keeps t))))

  stamp-Keeps : (t : Trace) → Keeps t (stamp mqi_to_string parse_time t)
  unfolding stamp
  stamp-Keeps t =
      if-Keeps t _ _ _
        (value-Keeps t (time_stamp parse_time t.operation_date t.operation_time) _
          (λ r. with_op-Keeps _ (record t { operation_date = []; operation_time = [] })))
        (unchanged-Keeps t)

  parse_string-Keeps :
      (p : ℕ) (s : Bytes) (t : Trace) → Keeps t (parse_string mqi_to_string parse_time p s t)
  unfolding parse_string
  parse_string-Keeps p s t = >>=-Keeps t _ _ (keep_string-Keeps p s t) (λ t₁.
      if-Keeps t₁ _ _ _ (if-Keeps t₁ _ _ _ (stamp-Keeps t₁) (with_op-Keeps _ t₁))
        (unchanged-Keeps t₁))

  mutual
    unfolding parse_parm

    pub parse_parm-Keeps : (p : Pcf) (t : Trace) → Keeps t (parse_parm mqi_to_string parse_time p t)
    parse_parm-Keeps (integer p vs) t =
        >>=-Keeps t _ _ (enter-Keeps p t)
          (λ t₁. value-Keeps t₁ (get_elem? vs 0) _ (λ v. parse_integer-Keeps p _ t₁))
    parse_parm-Keeps (string p ss) t =
        >>=-Keeps t _ _ (enter-Keeps p t)
          (λ t₁. value-Keeps t₁ (get_elem? ss 0) _ (λ s. parse_string-Keeps p s t₁))
    parse_parm-Keeps (group p n ps) t =
        >>=-Keeps t _ _ (enter-Keeps p t)
          (λ t₁. if-Keeps t₁ _ _ _ (unchanged-Keeps t₁) (parse_group-Keeps n ps t₁))
    parse_parm-Keeps (other p) t = enter-Keeps p t

    parse_group-Keeps :
        (n : ℕ) (ps : PcfList) (t : Trace) → Keeps t (parse_group mqi_to_string parse_time n ps t)
    parse_group-Keeps zero ps t = unchanged-Keeps t
    parse_group-Keeps (suc n) nil t = λ t' h. cc h
    parse_group-Keeps (suc n) (cons p ps) t =
        >>=-Keeps t _ _ (parse_parm-Keeps p t) (λ t₁. parse_group-Keeps n ps t₁)
