-- ===== src/Connection/Handlers.antt =====
-- The message handlers, from `handle_connect_hello` to `handle_message`.
use vigil_low_latency_tcp_he.Prelude.{
  ℕ, ◌+◌, ◌%◌, Bool, true, false, ◌||◌, not, Option, none, some, List, [], ◌∷◌, set, ltb, ◌==◌,
  if◌then◌else◌, zero, suc,
}
use vigil_low_latency_tcp_he.Prelude.Int.{ℤ, pos, ◌-ℤ◌, leb_ℤ, ltb_ℤ}
use vigil_low_latency_tcp_he.Heartbeat.{
  HeartbeatMessage, MessageType, new_message, message_type, encode_heartbeat,
}
use vigil_low_latency_tcp_he.Stats.{record_pong_received}
use vigil_low_latency_tcp_he.Config.{Config, to_nanoseconds}
use vigil_low_latency_tcp_he.Connection.Types.{
  Connection, Env, ConnectionState, PingInterceptor, is_initiator, is_handshaking, is_healthy,
  is_degraded, acked_sequence_window, transition_to, handle_protocol_violation, handle_peer_closed,
}
use vigil_low_latency_tcp_he.Connection.Output.{queue_write}

-- The search of `has_acked_sequence` through the first `count` entries.
unfoldable pub contains : ℕ → List ℕ → ℕ → Bool
contains zero entries sequence = false
contains (suc count) [] sequence = false
contains (suc count) (x ∷ entries) sequence =
    if x == sequence then true else contains count entries sequence

-- The tests of a reply's age: `rtt_ns >= timeout_ns || rtt_ns < 0`.
abbrev pub is_stale : Config → ℤ → Bool
is_stale config rtt_ns =
    leb_ℤ (to_nanoseconds config.heartbeat_timeout) rtt_ns || ltb_ℤ rtt_ns (pos 0)

module _ {S : Type 0} where
  unfoldable pub handle_connect_hello :
      Connection S → Env S → HeartbeatMessage → ℤ → Connection S × Env S
  handle_connect_hello c e msg now_ns =
      if is_initiator c.role || not (is_handshaking c.state)
      then (handle_protocol_violation c now_ns, e)
      else if not (msg.feed_id == c.feed_id)
      then (handle_protocol_violation c now_ns, e)
      else let ack = new_message MessageType.connect_ack c.feed_id 0 now_ns in
        let (c', e') = queue_write c e (encode_heartbeat ack) in
        let c'' = record c' {
          last_liveness_ns = now_ns;
          stats = record (c'.stats) { connected_since_ns = now_ns };
        } in
        (transition_to c'' ConnectionState.healthy now_ns, e')

  unfoldable pub handle_connect_ack : Connection S → HeartbeatMessage → ℤ → Connection S
  handle_connect_ack c msg now_ns =
      if not (is_initiator c.role) || not (is_handshaking c.state)
      then handle_protocol_violation c now_ns
      else if not (msg.feed_id == c.feed_id)
      then handle_protocol_violation c now_ns
      else let c' = record c {
        last_liveness_ns = now_ns;
        stats = record (c.stats) { connected_since_ns = now_ns };
      } in
        transition_to c' ConnectionState.healthy now_ns

  unfoldable pub send_pong : Connection S → Env S → ℕ → ℤ → Connection S × Env S
  send_pong c e sequence echoed_timestamp_ns =
      if is_initiator c.role || not (is_healthy c.state)
      then (c, e)
      else queue_write c e
          (encode_heartbeat (new_message MessageType.pong c.feed_id sequence echoed_timestamp_ns))

  -- The reply to a PING, which an interceptor may keep back.
  unfoldable pub answer_ping :
      Option (PingInterceptor S) → Connection S → Env S → HeartbeatMessage → Connection S × Env S
  answer_ping none c e msg = send_pong c e msg.sequence msg.timestamp_ns
  answer_ping (some intercept) c e msg =
      let (caller', reply) = intercept e.caller msg.sequence msg.timestamp_ns in
      let e' = record e { caller = caller' } in
      if reply then send_pong c e' msg.sequence msg.timestamp_ns else (c, e')

  unfoldable pub handle_ping : Connection S → Env S → HeartbeatMessage → ℤ → Connection S × Env S
  handle_ping c e msg now_ns =
      if is_initiator c.role || not (is_healthy c.state)
      then (handle_protocol_violation c now_ns, e)
      else answer_ping c.ping_interceptor (record c { last_liveness_ns = now_ns }) e msg

  unfoldable pub has_acked_sequence : Connection S → ℕ → Bool
  has_acked_sequence c sequence = contains c.acked_sequences_count c.acked_sequences sequence

  unfoldable pub remember_acked_sequence : Connection S → ℕ → Connection S
  remember_acked_sequence c sequence = record c {
    acked_sequences = set c.acked_sequences c.acked_sequences_next sequence;
    acked_sequences_count =
        if ltb c.acked_sequences_count acked_sequence_window
        then c.acked_sequences_count + 1
        else c.acked_sequences_count;
    acked_sequences_next = (c.acked_sequences_next + 1) % acked_sequence_window;
  }

  unfoldable pub handle_pong : Config → Connection S → HeartbeatMessage → ℤ → Connection S
  handle_pong config c msg now_ns =
      if not (is_initiator c.role) || not (is_healthy c.state || is_degraded c.state)
      then handle_protocol_violation c now_ns
      else if has_acked_sequence c msg.sequence
      then c
      else let c' = remember_acked_sequence c msg.sequence in
        let rtt_ns = now_ns -ℤ msg.timestamp_ns in
        if is_stale config rtt_ns
        then c'
        else let c'' = record c' {
          last_liveness_ns = now_ns;
          consecutive_missed = pos 0;
          stats = record_pong_received (c'.stats) rtt_ns;
        } in
          if is_degraded c''.state then transition_to c'' ConnectionState.healthy now_ns else c''

  -- A type that is no enumerator falls out of the switch.
  unfoldable pub handle_message :
      Config → Connection S → Env S → HeartbeatMessage → ℤ → Connection S × Env S
  handle_message config c e msg now_ns = elim (message_type msg.type) [
    | none ↦ (c, e)
    | some MessageType.connect_hello ↦ handle_connect_hello c e msg now_ns
    | some MessageType.connect_ack ↦ (handle_connect_ack c msg now_ns, e)
    | some MessageType.ping ↦ handle_ping c e msg now_ns
    | some MessageType.pong ↦ (handle_pong config c msg now_ns, e)
    | some MessageType.disconnect ↦ (handle_peer_closed c now_ns, e)
  ]
