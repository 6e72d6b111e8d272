-- ===== src/Prometheus/Reconnect.antt =====
-- cmd/mq_prometheus/main.go: the loop of main that keeps the collector connected, with the flags of
-- status.go. What mqmetric answers in a round is an argument; a round ends with its sleep. Between
-- rounds, the scrapes of exporter.go and the web server change the flags.
use mq_metric_samples.Prelude.{
  ℕ, zero, suc, ◌+◌, ◌*◌, ◌/◌, ◌%◌, List, [], ◌∷◌, Bool, true, false, not, ◌&&◌, ◌||◌, Option, none,
  some, ◌⊎◌, ◌≡◌, refl, arith, if◌then◌else◌, ◌==◌,
}

-- Go's `|` on numbers of w bits.
unfoldable pub bit_or : ℕ → ℕ → ℕ → ℕ
bit_or zero a b = 0
bit_or (suc w) a b = (if a % 2 == 0 && b % 2 == 0 then 0 else 1) + 2 * bit_or w (a / 2) (b / 2)

-- The error of mqmetric.InitConnection: its reason and completion codes, if it has them.
pub data InitResult : Type 0 where
  connected : InitResult
  mq_error : ℕ → ℕ → InitResult
  other_error : InitResult

abbrev pub mqrc_standby_q_mgr : ℕ
mqrc_standby_q_mgr = 2543

abbrev pub mqrc_unexpected_error : ℕ
mqrc_unexpected_error = 2195

abbrev pub mqrc_reconnect_failed : ℕ
mqrc_reconnect_failed = 2548

-- The second case of Collect on the reason of an error joins its three reasons by a bitwise or.
unfoldable pub joined_reasons : ℕ
unfolding bit_or
joined_reasons =
    bit_or 32 (bit_or 32 mqrc_unexpected_error mqrc_standby_q_mgr) mqrc_reconnect_failed

abbrev pub mqcc_warning : ℕ
mqcc_warning = 1

-- What a round of connecting meets. `verify_warning` is the completion code of
-- mqmetric.VerifyConfig.
pub record Attempt : Type 0 where
  pub init : InitResult
  pub discover_fails : Bool
  pub verify_fails : Bool
  pub verify_warning : Bool

pub record Status : Type 0 where
  pub connected_q_mgr : Bool
  pub connected_once : Bool
  pub collector_end : Bool
  pub first_collection : Bool
  pub retry_count : ℕ

abbrev pub initial : Status
initial = record {
  connected_q_mgr = false;
  connected_once = false;
  collector_end = false;
  first_collection = false;
  retry_count = 0;
}

pub data Connection : Type 0 where
  usable failing standby : Connection

-- The branches on the error of InitConnection; a warning is reported and forgotten.
unfoldable pub connection : InitResult → Connection
connection connected = usable
connection (mq_error mqrc mqcc) =
    if mqrc == mqrc_standby_q_mgr then standby else if mqcc == mqcc_warning then usable else failing
connection other_error = failing

-- DiscoverAndSubscribe and mqmetric.VerifyConfig, behind a usable connection.
unfoldable pub discovered : Attempt → Bool
discovered a = not a.discover_fails && (not a.verify_fails || a.verify_warning)

-- The last `if err == nil … else`.
unfoldable pub settle : Bool → Bool → Status → Status
settle keep_running true s = record s {
  first_collection = true;
  connected_q_mgr = true;
  connected_once = true;
}
settle keep_running false s =
    if not s.connected_once || not keep_running
    then record s { collector_end = true }
    else record s { retry_count = s.retry_count + 1 }

connect : Bool → Attempt → Connection → Status → Option Status
connect keep_running a standby s = none
connect keep_running a failing s = some (settle keep_running false s)
connect keep_running a usable s =
    some (settle keep_running (discovered a) (record s { retry_count = 0 }))

-- One round of the loop; `none` is the exit with return code 30.
unfoldable pub round : Bool → Attempt → Status → Option Status
unfolding connect settle discovered connection
round keep_running a s =
    if s.connected_q_mgr then some s else connect keep_running a (connection a.init) s

-- An error in a scrape, by its reason.
unfoldable pub scrape_error : ℕ → Status → Status
unfolding joined_reasons
scrape_error mqrc s =
    if mqrc == 0
    then record s { connected_q_mgr = true }
    else if mqrc == joined_reasons
    then record s { collector_end = true; connected_q_mgr = false }
    else record s { connected_q_mgr = false }

-- What happens between and in rounds: a round, a scrape that fails with a reason, one that gets to the
-- flag of the first collection, and the end of the web server, in stopServer.
pub data Event : Type 0 where
  attempt : Attempt → Event
  scrape_fails : ℕ → Event
  scrape_delivers : Event
  server_stops : Event

-- A scrape without a connection changes no flag.
unfoldable pub happen : Bool → Event → Status → Option Status
unfolding round scrape_error
happen keep_running (attempt a) s = if s.collector_end then some s else round keep_running a s
happen keep_running (scrape_fails mqrc) s =
    some (if s.connected_q_mgr then scrape_error mqrc s else s)
happen keep_running scrape_delivers s =
    some (if s.connected_q_mgr then record s { first_collection = false } else s)
happen keep_running server_stops s = some (record s { collector_end = true })

-- The collector's runs, as far as the process lives, with what has happened, the last first.
pub data Runs (keep_running : Bool) (s : Status) : List Event → Status → Type 0 where
  start : Runs keep_running s [] s
  next :
      {es : List Event} {t u : Status} (e : Event)
      → Runs keep_running s es t
      → happen keep_running e t ≡ some u
      → Runs keep_running s (e ∷ es) u

-- The events beside the rounds that end the loop: of all reasons of an error, 2559 alone, which is none
-- of the three that are joined.
abbrev pub is_ending : Event → Bool
is_ending (attempt a) = false
is_ending (scrape_fails mqrc) = mqrc == 2559
is_ending scrape_delivers = false
is_ending server_stops = true

abbrev pub some_ending : List Event → Bool
some_ending [] = false
some_ending (e ∷ es) = is_ending e || some_ending es

joined_reasons_lem : joined_reasons ≡ 2559
unfolding joined_reasons
joined_reasons_lem = refl

happen-alive :
    (e : Event) (s u : Status)
    → happen true e s ≡ some u
    → is_ending e ≡ false
    → s.connected_once ≡ true
    → s.collector_end ≡ false
    → (u.connected_once ≡ true) × (u.collector_end ≡ false)
unfolding happen
happen-alive (attempt a) s u h quiet once alive = ground arith
happen-alive (scrape_fails mqrc) s u h quiet once alive = ground (arith, joined_reasons_lem)
happen-alive scrape_delivers s u h quiet once alive = ground arith
happen-alive server_stops s u h quiet once alive = cc quiet

-- As long as its process lives, a collector that is to keep running and has connected once does not
-- set the flag that ends its loop in any rounds and scrapes, unless the web server stops or a scrape
-- fails with the one reason 2559, which the three joined ones make up.
pub Runs-alive :
    {s u : Status} {es : List Event}
    → s.connected_once ≡ true
    → s.collector_end ≡ false
    → some_ending es ≡ false
    → Runs true s es u
    → (u.connected_once ≡ true) × (u.collector_end ≡ false)
Runs-alive once alive quiet start = (once, alive)
Runs-alive {u = u} once alive quiet (next {es = es} {t = t} e r h) =
    let (o, a) = Runs-alive once alive (ground arith) r in happen-alive e t u h (ground arith) o a

-- What holds of the flags from the start on: the end is reached only before the first success, or
-- when not kept running, or by such an event; a connection is reported only once there has been one,
-- and so is a first collection; failures are counted only after a success.
pub record IsConsistent (keep_running : Bool) (es : List Event) (s : Status) : Type 0 where
  pub ends :
      s.collector_end ≡ true
      → (s.connected_once ≡ false) ⊎ ((keep_running ≡ false) ⊎ (some_ending es ≡ true))
  pub connects : s.connected_q_mgr ≡ true → s.connected_once ≡ true
  pub collects : s.first_collection ≡ true → s.connected_once ≡ true
  pub retries : s.connected_once ≡ false → s.retry_count ≡ 0

happen-IsConsistent :
    (k : Bool) (e : Event) (es : List Event) (s u : Status)
    → happen k e s ≡ some u
    → IsConsistent k es s
    → IsConsistent k (e ∷ es) u
unfolding happen
happen-IsConsistent k (attempt a) es s u h i = ground arith
happen-IsConsistent k (scrape_fails mqrc) es s u h i = ground (arith, joined_reasons_lem)
happen-IsConsistent k scrape_delivers es s u h i = ground arith
happen-IsConsistent k server_stops es s u h i = ground arith

-- Every status that is reached from the start is consistent: the end only before the first success,
-- or when not kept running, or after the web server has stopped or a scrape has failed with the
-- reason 2559 that the three joined ones make up; a connection and a first collection only after a success; no failures counted
-- before one.
pub Runs-IsConsistent :
    {k : Bool} {es : List Event} {u : Status} → Runs k initial es u → IsConsistent k es u
Runs-IsConsistent start = record {
  ends = λ h. cc h;
  connects = λ h. cc h;
  collects = λ h. cc h;
  retries = λ h. refl;
}
Runs-IsConsistent {k = k} {u = u} (next {es = es} {t = t} e r h) =
    happen-IsConsistent k e es t u h (Runs-IsConsistent r)
