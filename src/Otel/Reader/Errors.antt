-- ===== src/Otel/Reader/Errors.antt =====
-- cmd/mq_otel/reader.go: the poll of GetMetrics and that of the JSON collector.
use mq_metric_samples.Prelude.{
  Bool, true, false, not, ◌&&◌, [], ◌∷◌, ◌≡◌, refl, ap, ◌∙◌, Bool-cases, inl, inr,
}
use mq_metric_samples.Json.Poll.{
  queue_status, q_mgr_status, collect, collect_others, collect_platform, nothing, Poll, poll,
}
use mq_metric_samples.Otel.Gauges.{is_some}
use mq_metric_samples.Otel.Poll.{call, call_clients, call_others}
use mq_metric_samples.Otel.Reader.{when_poll, World, poll_all, polling}

module _ {F : Type 0} (w : World F) where
  abbrev base : Poll
  base = call (polling w) q_mgr_status (call (polling w) queue_status nothing)

  abbrev gated : Bool → Poll
  gated failed = when_poll ((polling w).use_status && not failed) (call_others (polling w)) base

  base-failed : w.fails queue_status ≡ false → is_some base.poll_error ≡ base.err
  unfolding call
  base-failed h = elim (Bool-cases (w.fails q_mgr_status)) [
    | inl bad ↦ rw bad refl
    | inr good ↦ rw good (rw h refl)
  ]

  base-failing : w.fails queue_status ≡ true → is_some base.poll_error ≡ true
  unfolding call
  base-failing h = elim (Bool-cases (w.fails q_mgr_status)) [
    | inl bad ↦ rw bad refl
    | inr good ↦ rw good (rw h refl)
  ]

  closed : gated true ≡ base
  closed = elim (Bool-cases (polling w).use_status) [ inl on ↦ rw on refl | inr off ↦ rw off refl ]

  gated-poll_all : poll_all w ≡ gated (is_some base.poll_error)
  unfolding poll_all
  gated-poll_all = refl

  -- The calls behind those for the queues and the queue manager are the same in both collectors.
  others-agree : (p : Poll) → call_others (polling w) p ≡ collect_others (polling w) p
  unfolding call_others call_clients call collect_others collect_platform collect
  others-agree p = refl

  gated-poll : gated base.err ≡ poll (polling w)
  unfolding poll call collect
  gated-poll =
      ap (λ (q : Poll). when_poll ((polling w).use_status && not base.err) (λ (p : Poll). q) base)
        (others-agree base)

  base-calls : base.calls ≡ queue_status ∷ q_mgr_status ∷ []
  unfolding call
  base-calls = refl

  same_polls : w.fails queue_status ≡ false → poll_all w ≡ poll (polling w)
  same_polls h = gated-poll_all ∙ ap gated (base-failed h) ∙ gated-poll

  only_two : w.fails queue_status ≡ true → (poll_all w).calls ≡ queue_status ∷ q_mgr_status ∷ []
  only_two h =
      ap (λ (p : Poll). p.calls) (gated-poll_all ∙ ap gated (base-failing h) ∙ closed) ∙ base-calls

  -- Where the status of the queues can be read, a poll is the one of the JSON collector, with its
  -- calls and its error; where it cannot, the poll ends with the queue manager's, unlike that one.
  pub poll_all-poll :
      (w.fails queue_status ≡ false → poll_all w ≡ poll (polling w))
      × (w.fails queue_status ≡ true → (poll_all w).calls ≡ queue_status ∷ q_mgr_status ∷ [])
  poll_all-poll = (same_polls, only_two)
