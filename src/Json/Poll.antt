-- ===== src/Json/Poll.antt =====
-- cmd/mq_json/exporter.go, Collect: when the status is polled, and the polling itself. The calls of
-- mqmetric are named; which of them fail is an argument.
use mq_metric_samples.Prelude.{
  Bool, true, false, not, ◌&&◌, List, [], ◌∷◌, ◌++◌, Option, none, some, ◌≡◌, refl, sym, ◌∙◌, arith,
  if◌then◌else◌, All,
}

pub data Collector : Type 0 where
  queue_status q_mgr_status channel_status topic_status sub_status cluster_status : Collector
  usage_status amqp_channel_status mqtt_channel_status : Collector

-- The configuration and platform that decide on the calls, and the calls that fail.
pub record Polling : Type 0 where
  pub use_status : Bool
  pub is_zos : Bool
  pub amqp_monitored : Bool
  pub mqtt_monitored : Bool
  pub fails : Collector → Bool

-- The calls so far, `err` of the last one, and `pollError`.
pub record Poll : Type 0 where
  pub calls : List Collector
  pub err : Bool
  pub poll_error : Option Collector

abbrev pub nothing : Poll
nothing = record { calls = []; err = false; poll_error = none }

module _ (w : Polling) where
  -- `err = mqmetric.Collect…(…); if err != nil { pollError = err }`
  unfoldable pub collect : Collector → Poll → Poll
  collect k p = record {
    calls = p.calls ++ k ∷ [];
    err = w.fails k;
    poll_error = if w.fails k then some k else p.poll_error;
  }

  abbrev when : Bool → (Poll → Poll) → Poll → Poll
  when b f p = if b then f p else p

  unfoldable pub collect_platform : Poll → Poll
  collect_platform p =
      if w.is_zos
      then collect usage_status p
      else when w.mqtt_monitored (collect mqtt_channel_status)
          (when w.amqp_monitored (collect amqp_channel_status) p)

  unfoldable pub collect_others : Poll → Poll
  collect_others p = collect_platform (
      collect cluster_status (collect sub_status (collect topic_status (collect channel_status p))))

  -- The rest is polled if the call for the queue manager, the last before it, succeeds.
  unfoldable pub poll : Poll
  unfolding collect
  poll =
      let base = collect q_mgr_status (collect queue_status nothing) in
      when (w.use_status && not base.err) collect_others base

  -- The last call of a list that fails.
  abbrev pub last_failing : List Collector → Option Collector
  last_failing [] = none
  last_failing (k ∷ ks) = elim (last_failing ks) [
    | some j ↦ some j
    | none ↦ if w.fails k then some k else none
  ]

  last_failing-append :
      (ks : List Collector) (k : Collector)
      → last_failing (ks ++ k ∷ []) ≡ (if w.fails k then some k else last_failing ks)
  last_failing-append [] k = ground arith
  last_failing-append (j ∷ ks) k = ground (arith, last_failing-append ks k)

  abbrev Tracks : Poll → Type 0
  Tracks p = p.poll_error ≡ last_failing p.calls

  collect-Tracks : (k : Collector) (p : Poll) → Tracks p → Tracks (collect k p)
  unfolding collect
  collect-Tracks k p t = ground (arith, last_failing-append p.calls k)

  when-Tracks :
      (b : Bool) (f : Poll → Poll) (p : Poll)
      → ((q : Poll) → Tracks q → Tracks (f q))
      → Tracks p
      → Tracks (when b f p)
  when-Tracks true f p h t = h p t
  when-Tracks false f p h t = t

  if-Tracks : (b : Bool) (p q : Poll) → Tracks p → Tracks q → Tracks (if b then p else q)
  if-Tracks true p q s t = s
  if-Tracks false p q s t = t

  collect_platform-Tracks : (p : Poll) → Tracks p → Tracks (collect_platform p)
  unfolding collect_platform
  collect_platform-Tracks p t = if-Tracks w.is_zos _ _ (collect-Tracks usage_status p t) (
      when-Tracks w.mqtt_monitored (collect mqtt_channel_status) _
        (collect-Tracks mqtt_channel_status)
        (when-Tracks w.amqp_monitored (collect amqp_channel_status) p
          (collect-Tracks amqp_channel_status) t))

  collect_others-Tracks : (p : Poll) → Tracks p → Tracks (collect_others p)
  unfolding collect_others
  collect_others-Tracks p t = collect_platform-Tracks _ (
      collect-Tracks cluster_status _ (
        collect-Tracks sub_status _
          (collect-Tracks topic_status _ (collect-Tracks channel_status p t))))

  base-Tracks : Tracks (collect q_mgr_status (collect queue_status nothing))
  base-Tracks = collect-Tracks q_mgr_status _ (collect-Tracks queue_status nothing refl)

  poll-Tracks : Tracks poll
  unfolding poll
  poll-Tracks =
      when-Tracks (w.use_status && not (w.fails q_mgr_status)) collect_others
        (collect q_mgr_status (collect queue_status nothing)) collect_others-Tracks base-Tracks

  last_failing-eq-none :
      (ks : List Collector) → last_failing ks ≡ none → All (λ k. w.fails k ≡ false) ks
  last_failing-eq-none [] h = tt
  last_failing-eq-none (k ∷ ks) h = (ground arith, last_failing-eq-none ks (ground arith))

  -- The calls of a poll, in their order.
  abbrev pub expected_calls : List Collector
  expected_calls =
      queue_status
      ∷ q_mgr_status
      ∷ (if w.use_status && not (w.fails q_mgr_status)
          then channel_status
            ∷ topic_status
            ∷ sub_status
            ∷ cluster_status
            ∷ (if w.is_zos
                then usage_status ∷ []
                else (if w.amqp_monitored then amqp_channel_status ∷ [] else [])
                  ++ (if w.mqtt_monitored then mqtt_channel_status ∷ [] else []))
          else [])

  poll-calls : poll.calls ≡ expected_calls
  unfolding poll collect_others collect_platform collect
  poll-calls = ground arith

  -- A poll makes the calls listed, asks for the queues even if nothing else is wanted, and returns
  -- the error of the last call that failed; it returns none only if every call succeeded.
  pub poll_lem :
      (poll.calls ≡ expected_calls)
      × (poll.poll_error ≡ last_failing poll.calls)
      × (poll.poll_error ≡ none → All (λ k. w.fails k ≡ false) poll.calls)
  poll_lem = (poll-calls, poll-Tracks, λ h. last_failing-eq-none poll.calls (sym poll-Tracks ∙ h))
