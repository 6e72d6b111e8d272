-- ===== src/Tests/Collectors.antt =====
-- The collectors' theorems at concrete inputs.
use mq_metric_samples.Prelude.{
  ℕ, codes, true, false, List, [], ◌∷◌, Option, none, some, All, Free, ◌≡◌, ◌↔◌, ◌<◌, ◌≤◌, refl,
  length, lookup, to_lower_byte, to_upper_byte,
}
use mq_metric_samples.Prelude.Int.{pos}
use mq_metric_samples.Status.{run_collections, FailsInARow, run_collections_fatal_iff}
use mq_metric_samples.Json.Chunk.{chunk, flat, chunk-Chunks}
use mq_metric_samples.Json.Fixup.{fixup, IsCamel, fixup-camel}
use mq_metric_samples.Json.Poll.{
  Polling, channel_status, poll, expected_calls, last_failing, poll_lem,
}
use mq_metric_samples.Prometheus.Reconnect.{
  Attempt, Status, initial, other_error, connected, attempt, scrape_fails, happen, joined_reasons,
  Runs, start, next, Runs-alive, Runs-IsConsistent, IsConsistent,
}

run_collections_fatal_iff_example :
    (run_collections (false ∷ true ∷ true ∷ true ∷ true ∷ []) 0 ≡ none)
    ↔ FailsInARow 4 (false ∷ true ∷ true ∷ true ∷ true ∷ [])
run_collections_fatal_iff_example =
    run_collections_fatal_iff (false ∷ true ∷ true ∷ true ∷ true ∷ [])

abbrev five_points : List ℕ
five_points = 1 ∷ 2 ∷ 3 ∷ 4 ∷ 5 ∷ []

chunk-Chunks_example :
    (cs : List (List ℕ)) × (chunk five_points (pos 2) ≡ some cs)
    × (flat cs ≡ five_points)
    × All (λ c. (0 < length c) × (length c ≤ 2)) cs
chunk-Chunks_example = chunk-Chunks five_points (pos 2)

empty-IsCamel : IsCamel []
unfolding lookup
empty-IsCamel k v found = cc found

fixup-camel_example :
    ((fixup (codes "queue_queue_depth") (codes "queue") []).0 ≡ codes "queueDepth")
    × Free b'_' (fixup (codes "queue_queue_depth") (codes "queue") []).0
    × IsCamel (fixup (codes "queue_queue_depth") (codes "queue") []).1
unfolding fixup to_lower_byte to_upper_byte
fixup-camel_example = fixup-camel (codes "queue_queue_depth") (codes "queue") [] empty-IsCamel

-- On a distributed platform, with a failing call for the channels.
abbrev polling : Polling
polling = record {
  use_status = true;
  is_zos = false;
  amqp_monitored = false;
  mqtt_monitored = true;
  fails = λ k. elim k [ channel_status ↦ true | _ ↦ false ];
}

poll_lem_example :
    ((poll polling).calls ≡ expected_calls polling)
    × ((poll polling).poll_error ≡ last_failing polling (poll polling).calls)
    × ((poll polling).poll_error ≡ none → All (λ k. polling.fails k ≡ false) (poll polling).calls)
poll_lem_example = poll_lem polling

abbrev good_round : Attempt
good_round = record {
  init = connected;
  discover_fails = false;
  verify_fails = false;
  verify_warning = false;
}

abbrev bad_round : Attempt
bad_round = record {
  init = other_error;
  discover_fails = false;
  verify_fails = false;
  verify_warning = false;
}

abbrev status_or : Status → Option Status → Status
status_or d none = d
status_or d (some s) = s

abbrev running : Status
running = status_or initial (happen true (attempt good_round) initial)

abbrev broken : Status
broken = status_or initial (happen true (scrape_fails 2009) running)

abbrev retried : Status
retried = status_or initial (happen true (attempt bad_round) broken)

retried-Runs : Runs true running (attempt bad_round ∷ scrape_fails 2009 ∷ []) retried
unfolding happen joined_reasons
retried-Runs =
    next {t = broken} (attempt bad_round) (next {t = running} (scrape_fails 2009) start refl) refl

Runs-alive_example : (retried.connected_once ≡ true) × (retried.collector_end ≡ false)
unfolding happen joined_reasons
Runs-alive_example = Runs-alive {s = running} {u = retried} refl refl refl retried-Runs

initial-Runs : Runs true initial (attempt good_round ∷ []) running
unfolding happen
initial-Runs = next {t = initial} (attempt good_round) start refl

Runs-IsConsistent_example : IsConsistent true (attempt good_round ∷ []) running
Runs-IsConsistent_example = Runs-IsConsistent {k = true} {u = running} initial-Runs
