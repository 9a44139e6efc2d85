-- ===== src/Demo/Examples.antt =====
-- Tests of the demo's callback, and its theorem at a concrete run.
use vigil_low_latency_tcp_he.Prelude.{ℕ, ◌≡◌, refl, true, some, List, [], ◌∷◌, All, false}
use vigil_low_latency_tcp_he.Prelude.Text.{text}
use vigil_low_latency_tcp_he.Stats.{new_stats}
use vigil_low_latency_tcp_he.Connection.{ConnectionState}
use vigil_low_latency_tcp_he.CliDisplay.{to_string}
use vigil_low_latency_tcp_he.FeedMonitor.{FeedSnapshot}
use vigil_low_latency_tcp_he.Demo.Defs.{
  DemoState, demo_start, state_changed, observe_from, observe_feed, observe_feeds, observe_ticks,
  exit_status, name_for,
}
use vigil_low_latency_tcp_he.Demo.Isolation.{IsUndisturbed, exit_status-IsUndisturbed}

abbrev seen : ℕ → ConnectionState → FeedSnapshot
seen id state = record { feed_id = id; name = name_for id; state = state; stats = new_stats }

-- The first feed fails and comes back while the second stays healthy.
abbrev a_run : List (List FeedSnapshot)
a_run =
    (seen 1 ConnectionState.healthy ∷ seen 2 ConnectionState.healthy ∷ [])
    ∷ (seen 1 ConnectionState.failed ∷ seen 2 ConnectionState.healthy ∷ [])
    ∷ (seen 1 ConnectionState.healthy ∷ seen 2 ConnectionState.healthy ∷ [])
    ∷ []

-- The second feed is lost only after `main` has loaded the flag.
abbrev later_run : List (List FeedSnapshot)
later_run = (seen 2 ConnectionState.disconnected ∷ []) ∷ []

abbrev after_run : DemoState
after_run = record {
  current_state =
      ConnectionState.disconnected ∷ ConnectionState.healthy ∷ ConnectionState.disconnected
      ∷ ConnectionState.disconnected ∷ [];
  printed =
      text "NYSE: DISCONNECTED"
      ∷ text "NASDAQ: HEALTHY"
      ∷ text "Reconnect attempt scheduled (exponential backoff + jitter)"
      ∷ text "NASDAQ: FAILED"
      ∷ text "NYSE: HEALTHY"
      ∷ text "NASDAQ: HEALTHY"
      ∷ [];
  others_ever_left_healthy = true;
}

run_returns : exit_status a_run later_run demo_start ≡ some (after_run, 0)
unfolding exit_status observe_ticks observe_feeds observe_feed observe_from state_changed demo_start
    name_for to_string
run_returns = refl

-- The same run, where nothing happens behind the load.
abbrev quiet_run : DemoState
quiet_run = record after_run {
  current_state =
      ConnectionState.disconnected ∷ ConnectionState.healthy ∷ ConnectionState.healthy
      ∷ ConnectionState.disconnected ∷ [];
  printed =
      text "NASDAQ: HEALTHY"
      ∷ text "Reconnect attempt scheduled (exponential backoff + jitter)"
      ∷ text "NASDAQ: FAILED"
      ∷ text "NYSE: HEALTHY"
      ∷ text "NASDAQ: HEALTHY"
      ∷ [];
  others_ever_left_healthy = false;
}

quiet_run_returns : exit_status a_run [] demo_start ≡ some (quiet_run, 0)
unfolding exit_status observe_ticks observe_feeds observe_feed observe_from state_changed demo_start
    name_for to_string
quiet_run_returns = refl

exit_status-IsUndisturbed_example : All (All IsUndisturbed) a_run × ◌≡◌ {A = ℕ} 0 0
exit_status-IsUndisturbed_example =
    exit_status-IsUndisturbed a_run [] later_run quiet_run after_run 0 quiet_run_returns run_returns
