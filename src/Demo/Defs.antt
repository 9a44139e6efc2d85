-- ===== src/Demo/Defs.antt =====
-- The simulator's commands, the tick callback and the verdict.
use vigil_low_latency_tcp_he.Prelude.{
  ℕ, Bool, true, false, ◌&&◌, not, Option, none, some, List, [], ◌∷◌, ◌++◌, map, get_elem?, set,
  replicate, ◌==◌, if◌then◌else◌,
}
use vigil_low_latency_tcp_he.Prelude.Int.{pos}
use vigil_low_latency_tcp_he.Prelude.Double.{decimal}
use vigil_low_latency_tcp_he.Prelude.Text.{Text, text, text_eq}
use vigil_low_latency_tcp_he.Config.{Config, FeedEndpoint}
use vigil_low_latency_tcp_he.Connection.{ConnectionState, is_healthy, is_failed}
use vigil_low_latency_tcp_he.CliDisplay.{to_string}
use vigil_low_latency_tcp_he.FeedMonitor.{FeedSnapshot}
use vigil_low_latency_tcp_he.FeedSimulator.{FaultConfig}

unfoldable pub name_for : ℕ → Text
name_for feed_id =
    if feed_id == 1
    then text "NASDAQ"
    else if feed_id == 2
    then text "NYSE"
    else if feed_id == 3
    then text "LSE"
    else text "UNKNOWN"

-- The three feeds; `port` gives the port of each simulator.
unfoldable pub demo_endpoints : (ℕ → ℕ) → List FeedEndpoint
demo_endpoints port =
    map
      (λ feed_id. record {
        feed_id = feed_id;
        name = name_for feed_id;
        host = text "127.0.0.1";
        port = port feed_id;
      })
      (1 ∷ 2 ∷ 3 ∷ [])

-- The command callback of the faulted simulator, on the `faults` that it holds: the new faults, which
-- are handed to `set_fault_config` where there are any.
unfoldable pub fault_command : Text → FaultConfig → Option FaultConfig
fault_command line faults =
    if text_eq line (text "drop-on")
    then some (record faults { drop_probability = decimal 1 0 })
    else if text_eq line (text "drop-off")
    then some (record faults { drop_probability = decimal 0 0 })
    else none

unfoldable pub demo_config : Config → Config
demo_config config = record config {
  heartbeat_interval = pos 1000;
  heartbeat_timeout = pos 3000;
  max_missed_heartbeats = pos 2;
  reconnect_base_delay = pos 1000;
  reconnect_max_delay = pos 5000;
  tick_interval = pos 100;
}

-- `!=` of two states.
abbrev pub state_number : ConnectionState → ℕ
state_number ConnectionState.disconnected = 0
state_number ConnectionState.connecting = 1
state_number ConnectionState.handshaking = 2
state_number ConnectionState.healthy = 3
state_number ConnectionState.degraded = 4
state_number ConnectionState.failed = 5
state_number ConnectionState.reconnecting = 6

abbrev pub same_state : ConnectionState → ConnectionState → Bool
same_state a b = state_number a == state_number b

-- What the callback keeps: the last state of each feed by its id, the lines printed (latest first), and
-- the flag.
pub record DemoState : Type 0 where
  pub current_state : List ConnectionState
  pub printed : List Text
  pub others_ever_left_healthy : Bool

unfoldable pub demo_start : DemoState
demo_start = record {
  current_state = replicate 4 ConnectionState.disconnected;
  printed = [];
  others_ever_left_healthy = false;
}

-- The line without the time of day that stands in front of it.
abbrev pub print_line : Text → DemoState → DemoState
print_line line s = record s { printed = line ∷ s.printed }

-- A feed whose state has changed.
unfoldable pub state_changed : FeedSnapshot → DemoState → DemoState
state_changed f s =
    let s' = print_line (name_for f.feed_id ++ text ": " ++ to_string f.state) s in
    let s'' =
      if f.feed_id == 1 && is_failed f.state
      then print_line (text "Reconnect attempt scheduled (exponential backoff + jitter)") s'
      else s' in
    if not (f.feed_id == 1) && not (is_healthy f.state)
    then record s'' { others_ever_left_healthy = true }
    else s''

-- One feed of the snapshot, with its state before. An id past the array is outside of what C++ defines:
-- `none`.
unfoldable pub observe_from : FeedSnapshot → DemoState → Option ConnectionState → Option DemoState
observe_from f s none = none
observe_from f s (some prev) =
    let s' = record s { current_state = set s.current_state f.feed_id f.state } in
    some (if same_state prev f.state then s' else state_changed f s')

unfoldable pub observe_feed : FeedSnapshot → DemoState → Option DemoState
observe_feed f s = observe_from f s (get_elem? s.current_state f.feed_id)

unfoldable pub observe_feeds : List FeedSnapshot → DemoState → Option DemoState
observe_feeds [] s = some s
observe_feeds (f ∷ feeds) s = elim (observe_feed f s) [
  | none ↦ none
  | some s' ↦ observe_feeds feeds s'
]

-- The calls of the tick callback, each with the feeds of its snapshot.
unfoldable pub observe_ticks : List (List FeedSnapshot) → DemoState → Option DemoState
observe_ticks [] s = some s
observe_ticks (feeds ∷ ticks) s = elim (observe_feeds feeds s) [
  | none ↦ none
  | some s' ↦ observe_ticks ticks s'
]

-- What `main` returns. It loads the flag behind the calls in `seen`, and returns what it has loaded. The
-- monitor is stopped and joined only then, so the callback is still called for the ticks in `later`. Where
-- the load falls between two feeds of one snapshot, those before it are the last of `seen` and the others
-- the first of `later`.
unfoldable pub exit_status :
    (seen later : List (List FeedSnapshot)) → DemoState → Option (DemoState × ℕ)
exit_status seen later s = elim (observe_ticks seen s) [
  | none ↦ none
  | some loaded ↦
      let isolation_held = not loaded.others_ever_left_healthy in
      elim (observe_ticks later loaded) [
        | none ↦ none
        | some joined ↦ some (joined, if isolation_held then 0 else 1)
      ]
]
