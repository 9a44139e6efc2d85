-- ===== src/MonitorMain/Session.antt =====
-- The monitor from its start to its end.
use vigil_low_latency_tcp_he.Prelude.{
  ℕ, ◌≡◌, refl, inl, inr, Bool, Option, none, some, List, [], ◌∷◌, Option-cases, arith, if_both,
}
use vigil_low_latency_tcp_he.Prelude.Int.{ℤ}
use vigil_low_latency_tcp_he.Prelude.Text.{Text}
use vigil_low_latency_tcp_he.Config.{
  Config, FeedEndpoint, CliOption, apply_cli_overrides, default_config,
}
use vigil_low_latency_tcp_he.FeedMonitor.{
  FeedMonitor, World, Setup, Wakeup, new_feed_monitor, stop, force_disconnect, force_reconnect,
  set_heartbeat_interval, set_heartbeat_timeout, set_command_input, run,
}
use vigil_low_latency_tcp_he.FeedMonitor.Directory.{IsIndexed, add_feed-IsIndexed}
use vigil_low_latency_tcp_he.FeedMonitor.Kept.{
  force_disconnect-SameFeeds, force_reconnect-SameFeeds,
}
use vigil_low_latency_tcp_he.FeedMonitor.Runs.{
  IsAboutFeeds, Keeps, IsIndexed-IsAboutFeeds, run-IsIndexed, set_heartbeat_timeout-SameFeeds,
}
use vigil_low_latency_tcp_he.MonitorMain.Rules.{handle_command_line_rule}
use vigil_low_latency_tcp_he.MonitorMain.{
  handle_command_line, add_feeds, Outcome, usage, fatal, shut_down, main, stdin_fileno,
}

module _ {S : Type 0} where
  -- The operator's commands keep what depends on the feeds, where a stop keeps it.
  pub handle_command_line-Keeps :
      (jitter : ℕ → ℤ → ℤ) (P : FeedMonitor S → Type 0)
      → IsAboutFeeds P
      → ((m : FeedMonitor S) → P m → P (stop m))
      → Keeps (handle_command_line jitter) P
  unfolding set_heartbeat_interval
  handle_command_line-Keeps jitter P about stopped line m w =
      handle_command_line_rule jitter (λ mw. P mw.0) (λ m w h. stopped m h)
        (λ id m w h.
          about m (force_disconnect jitter id m w).0 (force_disconnect-SameFeeds jitter id m w) h)
        (λ id m w h. about m (force_reconnect id m) (force_reconnect-SameFeeds id m) h)
        (λ ms m w h. about m (set_heartbeat_interval ms m) (refl, refl, refl) h)
        (λ ms m w h.
          about m (set_heartbeat_timeout ms m w) (set_heartbeat_timeout-SameFeeds ms m w) h)
        line (m, w)

  add_feeds-IsIndexed :
      (parses : Text → Bool) (feeds : List FeedEndpoint) (m : FeedMonitor S) (w : World S)
      → IsIndexed m
      → IsIndexed (add_feeds parses feeds m w).0
  unfolding add_feeds
  add_feeds-IsIndexed parses [] m w h = h
  add_feeds-IsIndexed parses (endpoint ∷ feeds) m w h =
      add_feeds-IsIndexed parses feeds _ _ (add_feed-IsIndexed parses endpoint m w h)

  new_feed_monitor-IsIndexed :
      (config : Config) (setup : Setup) (w : World S) (made : FeedMonitor S × World S)
      → new_feed_monitor config setup w ≡ some made
      → IsIndexed made.0
  unfolding new_feed_monitor
  new_feed_monitor-IsIndexed config setup w made e key i = ground (arith, e)

  -- If `main` gets as far as its loop, the monitor that it leaves behind has a property.
  pub Leaves : (FeedMonitor S → Type 0) → Outcome S → Type 0
  Leaves P (usage status) = Unit
  Leaves P fatal = Unit
  Leaves P (shut_down (m, w)) = P m

  -- The monitor behind its construction: the feeds are added, the commands are read, the loop runs.
  abbrev pub serve :
      (ℕ → ℤ → ℤ)
      → (Text → Bool)
      → List FeedEndpoint
      → List Wakeup
      → FeedMonitor S
      → World S
      → FeedMonitor S × World S
  serve jitter parses feeds wakeups m w =
      let a = add_feeds parses feeds m w in
      let ready = set_command_input stdin_fileno a.0 a.1 in
      (run jitter parses (handle_command_line jitter) wakeups (ready.0) (ready.1)).0

  pub main_rule :
      (jitter : ℕ → ℤ → ℤ) (parses : Text → Bool) (read : Text → Option Text)
      (options : List CliOption) (setup : Setup) (wakeups : List Wakeup) (w : World S)
      (P : FeedMonitor S → Type 0)
      → ((m : FeedMonitor S) (w' : World S)
          → let config = apply_cli_overrides read options default_config in
            new_feed_monitor config setup w ≡ some (m, w')
            → P (serve jitter parses config.feeds wakeups m w').0)
      → Leaves P (main jitter parses read options setup wakeups w)
  unfolding main Leaves
  main_rule jitter parses read options setup wakeups w P served =
      let config = apply_cli_overrides read options default_config in
      if_both (Leaves P) config.help_requested tt (started config config.feeds served)
    where
      started :
          (config : Config) (feeds : List FeedEndpoint)
          → ((m : FeedMonitor S) (w' : World S)
              → new_feed_monitor config setup w ≡ some (m, w')
              → P (serve jitter parses feeds wakeups m w').0)
          → Leaves P (elim feeds [
            | [] ↦ usage 1
            | endpoint ∷ feeds ↦ elim (new_feed_monitor config setup w) [
              | none ↦ fatal
              | some (m, w') ↦ shut_down (serve jitter parses (endpoint ∷ feeds) wakeups m w')
            ]
          ])
      started config [] served = tt
      started config (endpoint ∷ feeds) served =
          elim (Option-cases (new_feed_monitor config setup w)) [
            | inl thrown ↦ rw thrown tt
            | inr ((m, w'), made) ↦ rw made (served m w' made)
          ]

  -- However the monitor is started, whatever the sockets and the clock give, whatever events and whatever
  -- command lines come in, in any order: if `main` gets as far as its loop, then at the end of the loop
  -- each feed id is found at the slot that has it and nowhere else.
  pub main-IsIndexed :
      (jitter : ℕ → ℤ → ℤ) (parses : Text → Bool) (read : Text → Option Text)
      (options : List CliOption) (setup : Setup) (wakeups : List Wakeup) (w : World S)
      → Leaves IsIndexed (main jitter parses read options setup wakeups w)
  unfolding set_command_input
  main-IsIndexed jitter parses read options setup wakeups w =
      let config = apply_cli_overrides read options default_config in
      main_rule jitter parses read options setup wakeups w IsIndexed (λ m w' made.
        let a = add_feeds parses config.feeds m w' in
        let ready = set_command_input stdin_fileno a.0 a.1 in
        run-IsIndexed jitter parses (handle_command_line jitter)
          (handle_command_line-Keeps jitter IsIndexed IsIndexed-IsAboutFeeds
            (λ m h. unfold stop in h))
          wakeups (ready.0) (ready.1)
          (add_feeds-IsIndexed parses config.feeds m w'
            (new_feed_monitor-IsIndexed config setup w (m, w') made)))
