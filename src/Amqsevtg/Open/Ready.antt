-- ===== src/Amqsevtg/Open/Ready.antt =====
-- amqsevtg/amqsevtg.go: when the opening of the objects ends without an error.
use mq_metric_samples.Prelude.{
  ℕ, Bytes, Bool, true, ◌&&◌, List, [], ◌∷◌, Option, none, some, All, ◌==◌, if◌then◌else◌, ◌≡◌, ◌↔◌,
  ◌⊎◌, inl, inr, refl, arith,
}
use mq_metric_samples.Amqsevtg.Callback.{OpenObject}
use mq_metric_samples.Amqsevtg.Open.{
  MqReturn, Answer, opened, refused, mqot_q, mqrc_unknown_object_name, open_object, go_on, open_all,
}

module _ (defaults : Bool) (answer : ℕ → Bytes → Answer) where
  -- The object can be opened, or is a default queue that does not exist.
  abbrev pub Acceptable : OpenObject → Type 0
  Acceptable o =
      (answer o.object_type o.object_name ≡ opened)
      ⊎ ((defaults ≡ true)
          × (o.object_type ≡ mqot_q)
          × ((r : MqReturn) × (answer o.object_type o.object_name ≡ refused r)
              × (r.mqrc ≡ mqrc_unknown_object_name)))

  passed_over :
      (type mqrc : ℕ) (r : MqReturn)
      → ((if type == mqot_q && (mqrc == mqrc_unknown_object_name && defaults) then none else some r)
          ≡ none)
        ↔ ((defaults ≡ true) × (type ≡ mqot_q) × (mqrc ≡ mqrc_unknown_object_name))
  passed_over type mqrc r = ground arith

  refused_same :
      (r s : MqReturn) (o : OpenObject)
      → answer o.object_type o.object_name ≡ refused r
      → answer o.object_type o.object_name ≡ refused s
      → s.mqrc ≡ mqrc_unknown_object_name
      → r.mqrc ≡ mqrc_unknown_object_name
  refused_same r s o e f u = let same : r ≡ s = cc (e, f) in rw same u

  open_object-Acceptable :
      (a : Answer) (o : OpenObject)
      → answer o.object_type o.object_name ≡ a
      → ((open_object defaults a o).1 ≡ none) ↔ Acceptable o
  unfolding open_object
  open_object-Acceptable opened o e = ((λ h. inl e), λ h. refl)
  open_object-Acceptable (refused r) o e =
      let over = passed_over o.object_type r.mqrc r in
      (
        (λ h. let (d, q, u) = over.0 h in inr (d, q, (r, e, u))),
        λ a. elim a [
          | inl ok ↦ absurd (cc (e, ok))
          | inr (d, q, (s, f, u)) ↦ over.1 (d, q, refused_same r s o e f u)
        ],
      )

  go_on-none :
      (first : OpenObject × Option MqReturn) (os : List OpenObject)
      (rest : List OpenObject × Option MqReturn)
      → ((go_on defaults answer first os rest).1 ≡ none) ↔ ((first.1 ≡ none) × (rest.1 ≡ none))
  unfolding go_on
  go_on-none (o, some r) os rest = ground arith
  go_on-none (o, none) os rest = ground arith

  -- The opening of the objects ends without an error, and so the program goes on, exactly if each can
  -- be opened, or is a queue of the default list that does not exist.
  pub open_all_succeeds_iff :
      (os : List OpenObject) → ((open_all defaults answer os).1 ≡ none) ↔ All Acceptable os
  unfolding open_all
  open_all_succeeds_iff [] = ((λ h. tt), λ h. refl)
  open_all_succeeds_iff (o ∷ os) =
      let first = open_object defaults (answer o.object_type o.object_name) o in
      let both = go_on-none first os (open_all defaults answer os) in
      let one = open_object-Acceptable (answer o.object_type o.object_name) o refl in
      let more = open_all_succeeds_iff os in
      ((λ h. let (x, y) = both.0 h in (one.0 x, more.0 y)), λ a. both.1 (one.1 a.0, more.1 a.1))
