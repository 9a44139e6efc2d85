-- ===== src/MonitorMain/Routes.antt =====
-- The index of descriptors over the whole program.
use vigil_low_latency_tcp_he.Prelude.{ℕ, ◌≡◌, refl, Bool, Option, some, List, [], ◌∷◌, arith}
use vigil_low_latency_tcp_he.Prelude.Int.{ℤ}
use vigil_low_latency_tcp_he.Prelude.Text.{Text}
use vigil_low_latency_tcp_he.Config.{
  Config, CliOption, FeedEndpoint, apply_cli_overrides, default_config,
}
use vigil_low_latency_tcp_he.FeedMonitor.{
  FeedMonitor, World, Setup, Wakeup, add_feed, new_feed_monitor, set_command_input, stop,
  set_heartbeat_interval,
}
use vigil_low_latency_tcp_he.FeedMonitor.Descriptors.{IsRouted, IsFresh}
use vigil_low_latency_tcp_he.FeedMonitor.System.{
  Reach, start, later, added, disconnected, reconnected, timeout_set, elsewhere, Reach-IsRouted,
}
use vigil_low_latency_tcp_he.FeedMonitor.Reached.{IsFreshRun, run-Reach}
use vigil_low_latency_tcp_he.MonitorMain.{handle_command_line, add_feeds, main, stdin_fileno, false}
use vigil_low_latency_tcp_he.MonitorMain.Rules.{handle_command_line_rule}
use vigil_low_latency_tcp_he.MonitorMain.Session.{Leaves, main_rule}

new_feed_monitor-slots :
    {S : Type 0} (config : Config) (setup : Setup) (w : World S) (made : FeedMonitor S × World S)
    → new_feed_monitor config setup w ≡ some made
    → made.0.slots ≡ []
unfolding new_feed_monitor
new_feed_monitor-slots config setup w made e = ground (arith, e)

module _ {S : Type 0} (jitter : ℕ → ℤ → ℤ) (parses : Text → Bool) where
  handle_command_line-Reach :
      (o : FeedMonitor S × World S) (line : Text) (r : FeedMonitor S × World S)
      → Reach jitter parses o r
      → Reach jitter parses o (handle_command_line jitter line r)
  unfolding stop set_heartbeat_interval
  handle_command_line-Reach o line r p =
      handle_command_line_rule jitter (Reach jitter parses o)
        (λ m w h. later h (elsewhere _ w refl refl)) (λ id m w h. later h (disconnected id))
        (λ id m w h. later h (reconnected id)) (λ ms m w h. later h (elsewhere _ w refl refl))
        (λ ms m w h. later h (timeout_set ms)) line r p

  -- Each call of `socket` gives a descriptor that no feed holds at that time, while the feeds are added.
  abbrev pub IsFreshStart : List FeedEndpoint → FeedMonitor S → World S → Type 0
  IsFreshStart [] m w = Unit
  IsFreshStart (endpoint ∷ feeds) m w =
      let r = (add_feed parses endpoint m w).0 in
      IsFresh w.sockets m.slots × IsFreshStart feeds r.0 r.1

  -- The same from the first feed to the end of the run.
  abbrev pub IsFreshSession : List FeedEndpoint → List Wakeup → FeedMonitor S → World S → Type 0
  IsFreshSession feeds wakeups m w =
      let a = add_feeds parses feeds m w in
      let r = set_command_input stdin_fileno a.0 a.1 in
      IsFreshStart feeds m w
      × IsFreshRun jitter parses (handle_command_line jitter) wakeups
          (record r.0 { stop_requested = false }) r.1

  add_feeds-Reach :
      (o : FeedMonitor S × World S) (feeds : List FeedEndpoint) (m : FeedMonitor S) (w : World S)
      → IsFreshStart feeds m w
      → Reach jitter parses o (m, w)
      → Reach jitter parses o (add_feeds parses feeds m w)
  unfolding add_feeds
  add_feeds-Reach o [] m w fresh p = p
  add_feeds-Reach o (endpoint ∷ feeds) m w fresh p =
      add_feeds-Reach o feeds _ _ fresh.1 (later p (added endpoint fresh.0))

  -- Whatever the options, the events and the command lines are, in any order: if `main` gets as far as its
  -- loop, and each call of `socket` for the feeds at the start and in the run gives a descriptor that no
  -- feed holds at that time, then at the end of the loop no two feeds hold the same descriptor, and
  -- `index_of_fd` maps the descriptor of each connection that is not failed to the place of its slot.
  pub main-IsRouted :
      (read : Text → Option Text) (options : List CliOption) (setup : Setup) (wakeups : List Wakeup)
      (w : World S)
      → ((m : FeedMonitor S) (w' : World S)
          → new_feed_monitor (apply_cli_overrides read options default_config) setup w
            ≡ some (m, w')
          → IsFreshSession (apply_cli_overrides read options default_config).feeds wakeups m w')
      → Leaves IsRouted (main jitter parses read options setup wakeups w)
  unfolding set_command_input
  main-IsRouted read options setup wakeups w fresh =
      let config = apply_cli_overrides read options default_config in
      main_rule jitter parses read options setup wakeups w IsRouted (λ m w' made.
        let session = fresh m w' made in
        let a = add_feeds parses config.feeds m w' in
        let ready = set_command_input stdin_fileno a.0 a.1 in
        Reach-IsRouted jitter parses (new_feed_monitor-slots config setup w (m, w') made) (
          run-Reach jitter parses (handle_command_line jitter) (m, w')
            (handle_command_line-Reach (m, w')) wakeups (ready.0) (ready.1) session.1
            (later (add_feeds-Reach (m, w') config.feeds m w' session.0 start)
              (elsewhere _ _ refl refl))))
