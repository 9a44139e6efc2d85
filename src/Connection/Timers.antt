-- ===== src/Connection/Timers.antt =====
-- `send_ping`, `check_timeout`, `reset_liveness_baseline` and `rebind`.
use vigil_low_latency_tcp_he.Prelude.{
  ℕ, Bool, true, false, ◌||◌, not, Option, none, some, [], ◌∷◌, ◌==◌, if◌then◌else◌,
}
use vigil_low_latency_tcp_he.Prelude.Int.{ℤ, pos, ◌+ℤ◌, ◌-ℤ◌, leb_ℤ}
use vigil_low_latency_tcp_he.Heartbeat.{MessageType, new_message, encode_heartbeat}
use vigil_low_latency_tcp_he.Stats.{record_ping_sent, record_missed, record_reconnect, next_u64}
use vigil_low_latency_tcp_he.Config.{Config, to_nanoseconds}
use vigil_low_latency_tcp_he.Connection.Types.{
  Connection, ConnectionState, Env, close, is_initiator, is_healthy, is_degraded, initial_state,
  apply_socket_options, transition_to,
}
use vigil_low_latency_tcp_he.Connection.Output.{queue_write}

module _ {S : Type 0} where
  -- `next_sequence_++` is evaluated while the message is built.
  unfoldable pub send_ping : Connection S → Env S → ℤ → Connection S × Env S
  send_ping c e now_ns =
      if not (is_initiator c.role) || not (is_healthy c.state || is_degraded c.state)
      then (c, e)
      else let ping = new_message MessageType.ping c.feed_id c.next_sequence now_ns in
        let c' = record c { next_sequence = next_u64 c.next_sequence } in
        let (c'', e') = queue_write c' e (encode_heartbeat ping) in
        (record c'' { stats = record_ping_sent (c''.stats) }, e')

  -- The branch of `check_timeout` for a connection that waits to be established.
  unfoldable pub check_establishing : Config → Connection S → ℤ → Connection S × Bool
  check_establishing config c now_ns =
      if leb_ℤ (to_nanoseconds config.heartbeat_timeout) (now_ns -ℤ c.state_entered_ns)
      then (transition_to c ConnectionState.failed now_ns, true)
      else (c, false)

  -- The branch for an established connection.
  unfoldable pub check_established : Config → Connection S → ℤ → Connection S × Bool
  check_established config c now_ns =
      let timeout_ns = to_nanoseconds config.heartbeat_timeout in
      let late = leb_ℤ timeout_ns (now_ns -ℤ c.last_liveness_ns) in
      if is_initiator c.role
      then if late
        then (let c' = record c {
          consecutive_missed = c.consecutive_missed +ℤ pos 1;
          last_liveness_ns = c.last_liveness_ns +ℤ timeout_ns;
          stats = record_missed (c.stats);
        } in
            if leb_ℤ config.max_missed_heartbeats c'.consecutive_missed
            then (transition_to c' ConnectionState.failed now_ns, true)
            else (transition_to c' ConnectionState.degraded now_ns, false))
        else (c, false)
      else if late
      then (transition_to c ConnectionState.failed now_ns, true)
      else (c, false)

  unfoldable pub check_timeout : Config → Connection S → ℤ → Connection S × Bool
  check_timeout config c now_ns = elim c.state [
    | ConnectionState.connecting ↦ check_establishing config c now_ns
    | ConnectionState.handshaking ↦ check_establishing config c now_ns
    | ConnectionState.healthy ↦ check_established config c now_ns
    | ConnectionState.degraded ↦ check_established config c now_ns
    | _ ↦ (c, false)
  ]

  unfoldable pub reset_liveness_baseline : Connection S → ℤ → Connection S
  reset_liveness_baseline c now_ns = record c { last_liveness_ns = now_ns }

  -- `fd_.reset(new_fd)`: an open descriptor is closed unless it is the new one.
  unfoldable pub reset_fd : Option ℕ → ℕ → Env S → Env S
  reset_fd none new_fd e = e
  reset_fd (some fd) new_fd e = if fd == new_fd then e else record e { calls = close fd ∷ e.calls }

  unfoldable pub rebind : Config → Connection S → Env S → ℕ → ℤ → Connection S × Env S
  rebind config c e new_fd now_ns =
      let e' = reset_fd c.fd new_fd e in
      let c' =
        transition_to
          (record c {
            fd = some new_fd;
            read_accum = [];
            write_pending = [];
            next_sequence = 0;
            acked_sequences_count = 0;
            acked_sequences_next = 0;
            consecutive_missed = pos 0;
            last_liveness_ns = now_ns;
            stats = record_reconnect (record (c.stats) { connected_since_ns = pos 0 });
          })
          (initial_state c.role) now_ns in
      (c', if is_initiator c.role then e' else apply_socket_options config c' e')
