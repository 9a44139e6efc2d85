-- ===== src/MonitorMain/Rules.antt =====
-- What the operator's commands keep.
use vigil_low_latency_tcp_he.Prelude.{ℕ, ◌||◌, Option, none, some, if_both}
use vigil_low_latency_tcp_he.Prelude.Int.{ℤ}
use vigil_low_latency_tcp_he.Prelude.Text.{Text, text, text_eq}
use vigil_low_latency_tcp_he.Config.{is_empty}
use vigil_low_latency_tcp_he.CommandInput.{read_word, read_uint32, read_int}
use vigil_low_latency_tcp_he.FeedMonitor.{
  FeedMonitor, World, stop, force_disconnect, force_reconnect, set_heartbeat_interval,
  set_heartbeat_timeout,
}
use vigil_low_latency_tcp_he.MonitorMain.{run_command, handle_command_line}

module _ {S : Type 0} (jitter : ℕ → ℤ → ℤ) (Q : FeedMonitor S × World S → Type 0)
    (stops : (m : FeedMonitor S) (w : World S) → Q (m, w) → Q (stop m, w))
    (disconnects : (id : ℕ) (m : FeedMonitor S) (w : World S)
      → Q (m, w)
      → Q (force_disconnect jitter id m w))
    (reconnects : (id : ℕ) (m : FeedMonitor S) (w : World S)
      → Q (m, w)
      → Q (force_reconnect id m, w))
    (intervals : (ms : ℤ) (m : FeedMonitor S) (w : World S)
      → Q (m, w)
      → Q (set_heartbeat_interval ms m, w))
    (timeouts : (ms : ℤ) (m : FeedMonitor S) (w : World S)
      → Q (m, w)
      → Q (set_heartbeat_timeout ms m w, w)) where
  run_command_rule :
      (cmd args : Text) (m : FeedMonitor S) (w : World S)
      → Q (m, w)
      → Q (run_command jitter cmd args (m, w))
  unfolding run_command
  run_command_rule cmd args m w h =
      if_both Q (text_eq cmd (text "quit") || text_eq cmd (text "exit")) (stops m w h) (
        if_both Q (text_eq cmd (text "disconnect")) (disconnecting (read_uint32 args)) (
          if_both Q (text_eq cmd (text "reconnect")) (reconnecting (read_uint32 args)) (
            if_both Q (text_eq cmd (text "set-interval")) (interval (read_int args))
              (if_both Q (text_eq cmd (text "set-timeout")) (timeout (read_int args)) h))))
    where
      disconnecting :
          (id : Option ℕ) → Q (elim id [ none ↦ (m, w) | some id ↦ force_disconnect jitter id m w ])
      disconnecting none = h
      disconnecting (some id) = disconnects id m w h

      reconnecting :
          (id : Option ℕ) → Q (elim id [ none ↦ (m, w) | some id ↦ (force_reconnect id m, w) ])
      reconnecting none = h
      reconnecting (some id) = reconnects id m w h

      interval :
          (ms : Option ℤ)
          → Q (elim ms [ none ↦ (m, w) | some ms ↦ (set_heartbeat_interval ms m, w) ])
      interval none = h
      interval (some ms) = intervals ms m w h

      timeout :
          (ms : Option ℤ)
          → Q (elim ms [ none ↦ (m, w) | some ms ↦ (set_heartbeat_timeout ms m w, w) ])
      timeout none = h
      timeout (some ms) = timeouts ms m w h

  pub handle_command_line_rule :
      (line : Text) (mw : FeedMonitor S × World S) → Q mw → Q (handle_command_line jitter line mw)
  unfolding handle_command_line
  handle_command_line_rule line mw h =
      let r = read_word line in
      if_both Q (is_empty (r.0)) h (run_command_rule (r.0) (r.1) (mw.0) (mw.1) h)
