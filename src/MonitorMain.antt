-- ===== src/MonitorMain.antt =====
-- src/main.cpp: the operator's commands, and how the program starts.
use vigil_low_latency_tcp_he.Prelude.{
  ℕ, Bool, true, false, ◌||◌, Option, none, some, List, [], ◌∷◌, if◌then◌else◌,
}
use vigil_low_latency_tcp_he.Prelude.Int.{ℤ}
use vigil_low_latency_tcp_he.Prelude.Text.{Text, text, text_eq}
use vigil_low_latency_tcp_he.Config.{
  Config, FeedEndpoint, CliOption, default_config, apply_cli_overrides, is_empty,
}
use vigil_low_latency_tcp_he.CommandInput.{read_word, read_uint32, read_int}
use vigil_low_latency_tcp_he.FeedMonitor.{
  FeedMonitor, World, Setup, Wakeup, force_disconnect, force_reconnect, set_heartbeat_interval,
  set_heartbeat_timeout, stop, add_feed, new_feed_monitor, set_command_input, run,
}
pub mod Limits
mod Commands
mod Rules
mod Session
mod Routes
mod Quit
mod Examples

module _ {S : Type 0} where
  -- The chain of `if`s over the command's word; `args` is what the stream still holds. A number
  -- that cannot be read leaves the monitor as it is.
  unfoldable pub run_command :
      (ℕ → ℤ → ℤ) → Text → Text → FeedMonitor S × World S → FeedMonitor S × World S
  run_command jitter cmd args (m, w) =
      if text_eq cmd (text "quit") || text_eq cmd (text "exit")
      then (stop m, w)
      else if text_eq cmd (text "disconnect")
      then elim (read_uint32 args) [ none ↦ (m, w) | some id ↦ force_disconnect jitter id m w ]
      else if text_eq cmd (text "reconnect")
      then elim (read_uint32 args) [ none ↦ (m, w) | some id ↦ (force_reconnect id m, w) ]
      else if text_eq cmd (text "set-interval")
      then elim (read_int args) [ none ↦ (m, w) | some ms ↦ (set_heartbeat_interval ms m, w) ]
      else if text_eq cmd (text "set-timeout")
      then elim (read_int args) [ none ↦ (m, w) | some ms ↦ (set_heartbeat_timeout ms m w, w) ]
      else (m, w)

  unfoldable pub handle_command_line :
      (ℕ → ℤ → ℤ) → Text → FeedMonitor S × World S → FeedMonitor S × World S
  handle_command_line jitter line mw =
      let (cmd, args) = read_word line in
      if is_empty cmd then mw else run_command jitter cmd args mw

  -- The loop over `config.feeds`. A feed that cannot be added is only reported.
  unfoldable pub add_feeds :
      (Text → Bool) → List FeedEndpoint → FeedMonitor S → World S → FeedMonitor S × World S
  add_feeds parses [] m w = (m, w)
  add_feeds parses (endpoint ∷ feeds) m w =
      let r = (add_feed parses endpoint m w).0 in add_feeds parses feeds (r.0) (r.1)

-- How `main` ends: a status, with the monitor where there was one.
pub data Outcome (S : Type 0) : Type 0 where
  usage : (status : ℕ) → Outcome S
  fatal : Outcome S
  shut_down : FeedMonitor S × World S → Outcome S

abbrev pub stdin_fileno : ℕ
stdin_fileno = 0

module _ {S : Type 0} where
  -- From the options that `getopt_long` finds to the end of `run`.
  unfoldable pub main :
      (ℕ → ℤ → ℤ)
      → (Text → Bool)
      → (Text → Option Text)
      → List CliOption
      → Setup
      → List Wakeup
      → World S
      → Outcome S
  main jitter parses read options setup wakeups w =
      let config = apply_cli_overrides read options default_config in
      if config.help_requested then usage 0 else elim config.feeds [
        | [] ↦ usage 1
        | endpoint ∷ feeds ↦ elim (new_feed_monitor config setup w) [
          | none ↦ fatal
          | some (m, w') ↦
              let with_feeds = add_feeds parses (endpoint ∷ feeds) m w' in
              let ready = set_command_input stdin_fileno with_feeds.0 with_feeds.1 in
              shut_down
                (run jitter parses (handle_command_line jitter) wakeups (ready.0) (ready.1)).0
        ]
      ]
