-- ===== src/Amqsevtg/Callback/Quiet.antt =====
-- When the program ends for want of messages.
use mq_metric_samples.Prelude.{
  ℕ, true, false, List, [], ◌∷◌, All, In, here, there, map, ◌==◌, ◌≡◌, refl, ◌⊎◌, inl, inr,
  Bool-cases, arith, ◌↔◌,
}
use mq_metric_samples.Amqsevtg.Callback.{
  OpenObject, Session, mark_inactive, some_active, is_ending, event_call, no_more, Call, msg, event,
  unexpected, callback, callbacks, mqrc_no_msg_available,
}

-- All active objects are among those of the handles.
abbrev pub ActiveAmong : List ℕ → List OpenObject → Type 0
ActiveAmong hs = All (λ o. o.active ≡ true → In o.handle hs)

-- One event for each handle: it has no more messages.
abbrev pub no_messages : List ℕ → List Call
no_messages = map (λ h. event h mqrc_no_msg_available)

In-tail : (h k : ℕ) (hs : List ℕ) → In k (h ∷ hs) → (k == h) ≡ false → In k hs
In-tail h k hs here d = absurd (ground arith)
In-tail h k hs (there i) d = i

mark_inactive-ActiveAmong :
    (h : ℕ) (hs : List ℕ) (os : List OpenObject)
    → ActiveAmong (h ∷ hs) os
    → ActiveAmong hs (mark_inactive h os)
unfolding mark_inactive
mark_inactive-ActiveAmong h hs [] a = tt
mark_inactive-ActiveAmong h hs (o ∷ os) a = (
  elim (Bool-cases (o.handle == h)) [
    | inl same ↦ rw same (λ (on : false ≡ true). cc on)
    | inr other ↦ rw other (λ on. In-tail h o.handle hs (a.0 on) other)
  ],
  mark_inactive-ActiveAmong h hs os a.1,
)

-- With no other handle left, no other object is active.
none_active : (h : ℕ) (os : List OpenObject) → ActiveAmong (h ∷ []) os → some_active h os ≡ false
unfolding some_active
none_active h [] a = refl
none_active h (o ∷ os) a = elim (Bool-cases (o.handle == h)) [
  | inl same ↦ rw same (none_active h os a.1)
  | inr other ↦ elim (Bool-cases o.active) [
    | inl on ↦ elim (In-tail h o.handle [] (a.0 on) other) [ ]
    | inr off ↦ rw (other, off) (none_active h os a.1)
  ]
]

event_call-ending :
    (h rc : ℕ) (s : Session) → s.end_program ≡ true → (event_call h rc s).end_program ≡ true
unfolding event_call no_more
event_call-ending h rc s e = ground arith

-- Once set, the flag stays.
callback-ending :
    (c : Call) (s : Session) → s.end_program ≡ true → (callback c s).end_program ≡ true
unfolding callback
callback-ending (msg h) s e = e
callback-ending (event h rc) s e = event_call-ending h rc s e
callback-ending unexpected s e = e

callbacks-ending :
    (cs : List Call) (s : Session) → s.end_program ≡ true → (callbacks cs s).end_program ≡ true
unfolding callbacks
callbacks-ending [] s e = e
callbacks-ending (c ∷ cs) s e = callbacks-ending cs (callback c s) (callback-ending c s e)

no_message_objects :
    (h : ℕ) (s : Session)
    → (event_call h mqrc_no_msg_available s).open_objects ≡ mark_inactive h s.open_objects
unfolding event_call no_more
no_message_objects h s = ground arith

-- An event ends the program, if it had not ended, exactly where its reason is one of those that end
-- the connection, or where there are no more messages and no other object is active.
callback_ends_iff :
    (h rc : ℕ) (s : Session)
    → ((callback (event h rc) s).end_program ≡ true) ↔ (
        (s.end_program ≡ true)
        ⊎ (is_ending rc ≡ true)
        ⊎ ((rc ≡ mqrc_no_msg_available) × (some_active h s.open_objects ≡ false)))
unfolding callback event_call no_more is_ending
callback_ends_iff h rc s = ground arith

last_quiet :
    (h : ℕ) (s : Session)
    → ActiveAmong (h ∷ []) s.open_objects
    → (callback (event h mqrc_no_msg_available) s).end_program ≡ true
last_quiet h s a =
    (callback_ends_iff h mqrc_no_msg_available s).1
      (inr (inr (refl, none_active h s.open_objects a)))

-- When each of the handles that active objects have reports that it has no more messages, in any
-- order and with no message between, the program has been told to end.
pub callbacks-all_quiet :
    (h : ℕ) (hs : List ℕ) (s : Session)
    → ActiveAmong (h ∷ hs) s.open_objects
    → (callbacks (no_messages (h ∷ hs)) s).end_program ≡ true
unfolding callbacks callback
callbacks-all_quiet h [] s a = last_quiet h s a
callbacks-all_quiet h (k ∷ hs) s a =
    let s' = event_call h mqrc_no_msg_available s in
    let among = mark_inactive-ActiveAmong h (k ∷ hs) s.open_objects a in
    callbacks-all_quiet k hs s' (rw no_message_objects among)
