-- ===== src/Connection/StateMachine.antt =====
-- The states that a connection passes through, whatever its peer and its owner do.
use vigil_low_latency_tcp_he.Prelude.{
  ℕ, ◌≡◌, refl, Bool, true, false, Option, none, some, List, arith,
}
use vigil_low_latency_tcp_he.Prelude.Int.{ℤ}
use vigil_low_latency_tcp_he.Heartbeat.{
  HeartbeatMessage, MessageType, encode_heartbeat, new_message,
}
use vigil_low_latency_tcp_he.Config.{Config}
use vigil_low_latency_tcp_he.Stats.{next_u64}
use vigil_low_latency_tcp_he.Connection.Types.{
  Connection, Env, ConnectionState, Role, transition_to, handle_socket_error, handle_peer_closed,
  handle_protocol_violation, PingInterceptor, apply_socket_options,
}
use vigil_low_latency_tcp_he.Connection.Output.{flush_write_buffer, queue_write}
use vigil_low_latency_tcp_he.Connection.Handlers.{
  handle_connect_hello, handle_connect_ack, send_pong, answer_ping, handle_ping, handle_pong,
  handle_message, remember_acked_sequence,
}
use vigil_low_latency_tcp_he.Connection.Events.{on_writable}
use vigil_low_latency_tcp_he.Connection.Outgoing.{queue_write-IsWritten}
use vigil_low_latency_tcp_he.Connection.Timers.{
  send_ping, check_establishing, check_established, check_timeout,
}

-- The transition table: `can_step role from to`. Any state can fail, and a failed one stays failed.
abbrev pub can_step : Role → ConnectionState → ConnectionState → Bool
can_step r s ConnectionState.failed = true
can_step r ConnectionState.connecting ConnectionState.connecting = true
can_step r ConnectionState.connecting ConnectionState.handshaking = true
can_step r ConnectionState.handshaking ConnectionState.handshaking = true
can_step r ConnectionState.handshaking ConnectionState.healthy = true
can_step r ConnectionState.healthy ConnectionState.healthy = true
can_step Role.initiator ConnectionState.healthy ConnectionState.degraded = true
can_step Role.initiator ConnectionState.degraded ConnectionState.healthy = true
can_step r ConnectionState.degraded ConnectionState.degraded = true
can_step r ConnectionState.disconnected ConnectionState.disconnected = true
can_step r ConnectionState.reconnecting ConnectionState.reconnecting = true
can_step r s t = false

-- A path through the table.
pub data Reaches (r : Role) (s : ConnectionState) : ConnectionState → Type 0 where
  here : Reaches r s s
  next : {t u : ConnectionState} → Reaches r s t → can_step r t u ≡ true → Reaches r s u

pub stays : (r : Role) (s : ConnectionState) → can_step r s s ≡ true
stays r ConnectionState.failed = refl
stays Role.initiator s = refl
stays Role.responder s = refl

pub Reaches-trans :
    {r : Role} {s t u : ConnectionState} → Reaches r s t → Reaches r t u → Reaches r s u
Reaches-trans p here = p
Reaches-trans p (next q h) = next (Reaches-trans p q) h

module _ {S : Type 0} where
  -- What no event changes.
  abbrev pub IsSame : Connection S → Connection S → Type 0
  IsSame c d =
      (d.role ≡ c.role)
      × (d.feed_id ≡ c.feed_id)
      × (d.ping_interceptor ≡ c.ping_interceptor)
      × (d.fd ≡ c.fd)

  -- One handled event: the state takes one step of the table.
  abbrev pub Moves : Connection S → Connection S → Type 0
  Moves c d = IsSame c d × (can_step c.role c.state d.state ≡ true)

  pub Moves-refl : (c : Connection S) → Moves c c
  Moves-refl c = ((refl, refl, refl, refl), stays c.role c.state)

  queue_write-Moves :
      (c : Connection S) (e : Env S) (wire : List ℕ) → Moves c (queue_write c e wire).0
  unfolding queue_write handle_protocol_violation flush_write_buffer handle_socket_error
  queue_write-Moves c e wire = ground (arith, stays c.role c.state)

  pub flush_write_buffer-Moves : (c : Connection S) (e : Env S) → Moves c (flush_write_buffer c e).0
  unfolding flush_write_buffer handle_socket_error
  flush_write_buffer-Moves c e = ground (arith, stays c.role c.state)

  handle_connect_hello-Moves :
      (c : Connection S) (e : Env S) (m : HeartbeatMessage) (now : ℤ)
      → Moves c (handle_connect_hello c e m now).0
  unfolding handle_connect_hello handle_protocol_violation transition_to
  handle_connect_hello-Moves c e m now = ground (
    arith,
    queue_write-Moves c e (encode_heartbeat (new_message MessageType.connect_ack c.feed_id 0 now)),
  )

  handle_connect_ack-Moves :
      (c : Connection S) (m : HeartbeatMessage) (now : ℤ) → Moves c (handle_connect_ack c m now)
  unfolding handle_connect_ack handle_protocol_violation transition_to
  handle_connect_ack-Moves c m now = ground arith

  pub send_pong-Moves :
      (c : Connection S) (e : Env S) (sequence : ℕ) (t : ℤ) → Moves c (send_pong c e sequence t).0
  unfolding send_pong
  send_pong-Moves c e sequence t = ground (
    arith,
    stays c.role c.state,
    queue_write-Moves c e (encode_heartbeat (new_message MessageType.pong c.feed_id sequence t)),
  )

  answer_ping-Moves :
      (i : Option (PingInterceptor S)) (c : Connection S) (e : Env S) (m : HeartbeatMessage)
      → Moves c (answer_ping i c e m).0
  unfolding answer_ping
  answer_ping-Moves none c e m = send_pong-Moves c e m.sequence m.timestamp_ns
  answer_ping-Moves (some intercept) c e m =
      let (caller', reply) = intercept e.caller m.sequence m.timestamp_ns in
      ground (
        arith,
        stays c.role c.state,
        send_pong-Moves c (record e { caller = caller' }) m.sequence m.timestamp_ns,
      )

  handle_ping-Moves :
      (c : Connection S) (e : Env S) (m : HeartbeatMessage) (now : ℤ)
      → Moves c (handle_ping c e m now).0
  unfolding handle_ping handle_protocol_violation
  handle_ping-Moves c e m now =
      ground (arith, answer_ping-Moves c.ping_interceptor (record c { last_liveness_ns = now }) e m)

  handle_pong-Moves :
      (config : Config) (c : Connection S) (m : HeartbeatMessage) (now : ℤ)
      → Moves c (handle_pong config c m now)
  unfolding handle_pong handle_protocol_violation transition_to remember_acked_sequence
  handle_pong-Moves config c m now = ground (arith, stays c.role c.state)

  pub handle_message-Moves :
      (config : Config) (c : Connection S) (e : Env S) (m : HeartbeatMessage) (now : ℤ)
      → Moves c (handle_message config c e m now).0
  unfolding handle_message handle_peer_closed
  handle_message-Moves config c e m now = ground (
    arith,
    stays c.role c.state,
    handle_connect_hello-Moves c e m now,
    handle_connect_ack-Moves c m now,
    handle_ping-Moves c e m now,
    handle_pong-Moves config c m now,
  )

  pub send_ping-Moves : (c : Connection S) (e : Env S) (now : ℤ) → Moves c (send_ping c e now).0
  unfolding send_ping
  send_ping-Moves c e now = ground (
    arith,
    stays c.role c.state,
    queue_write-Moves (record c { next_sequence = next_u64 c.next_sequence }) e
        (encode_heartbeat (new_message MessageType.ping c.feed_id c.next_sequence now)),
  )

  pub check_timeout-Moves :
      (config : Config) (c : Connection S) (now : ℤ) → Moves c (check_timeout config c now).0
  unfolding check_timeout check_establishing check_established transition_to
  check_timeout-Moves config c now = ground (arith, stays c.role c.state)

  pub on_writable-Moves :
      (config : Config) (now : ℤ) (so_error : ℕ) (c : Connection S) (e : Env S)
      → Moves c (on_writable config now so_error c e).0
  unfolding on_writable handle_socket_error transition_to
  on_writable-Moves config now so_error c e = ground (
    arith,
    stays c.role c.state,
    flush_write_buffer-Moves c e,
    queue_write-Moves (transition_to c ConnectionState.handshaking now)
        (apply_socket_options config c e)
        (encode_heartbeat (new_message MessageType.connect_hello c.feed_id 0 now)),
    queue_write-IsWritten (transition_to c ConnectionState.handshaking now)
        (apply_socket_options config c e)
        (encode_heartbeat (new_message MessageType.connect_hello c.feed_id 0 now)),
  )
