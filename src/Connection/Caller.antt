-- ===== src/Connection/Caller.antt =====
-- What a connection does to its owner's state: nothing, but for the interceptor of PINGs.
use vigil_low_latency_tcp_he.Prelude.{
  ℕ, ◌≡◌, refl, ◌∙◌, inl, inr, Option, none, some, List, arith, length, Bool-cases,
}
use vigil_low_latency_tcp_he.Prelude.Int.{ℤ}
use vigil_low_latency_tcp_he.Prelude.Text.{Text}
use vigil_low_latency_tcp_he.Heartbeat.{
  HeartbeatMessage, MessageType, encode_heartbeat, new_message, message_type,
}
use vigil_low_latency_tcp_he.Config.{Config}
use vigil_low_latency_tcp_he.Connection.Types.{
  Connection, Env, Role, new_connection, ConnectionState, PingInterceptor, Recvs, transition_to,
  handle_protocol_violation, apply_socket_options,
}
use vigil_low_latency_tcp_he.Connection.Output.{flush_write_buffer, queue_write}
use vigil_low_latency_tcp_he.Connection.Handlers.{
  handle_connect_hello, send_pong, answer_ping, handle_ping, handle_message,
}
use vigil_low_latency_tcp_he.Connection.Events.{
  ReadEnd, closed, empty, overflow, error, recv_loop, drain_read_buffer, after_reads, on_readable,
  on_writable,
}
use vigil_low_latency_tcp_he.Connection.Drain.{drain_loop_rule}
use vigil_low_latency_tcp_he.Connection.StateMachine.{handle_message-Moves}

module _ {S : Type 0} where
  flush_write_buffer-caller :
      (c : Connection S) (e : Env S) → (flush_write_buffer c e).1.caller ≡ e.caller
  unfolding flush_write_buffer
  flush_write_buffer-caller c e = refl

  queue_write-caller :
      (c : Connection S) (e : Env S) (wire : List ℕ) → (queue_write c e wire).1.caller ≡ e.caller
  unfolding queue_write flush_write_buffer
  queue_write-caller c e wire = ground arith

  pub send_pong-caller :
      (c : Connection S) (e : Env S) (sequence : ℕ) (t : ℤ)
      → (send_pong c e sequence t).1.caller ≡ e.caller
  unfolding send_pong
  send_pong-caller c e sequence t = ground (
    arith,
    queue_write-caller c e (encode_heartbeat (new_message MessageType.pong c.feed_id sequence t)),
  )

  pub on_writable-caller :
      (config : Config) (now : ℤ) (so_error : ℕ) (c : Connection S) (e : Env S)
      → (on_writable config now so_error c e).1.caller ≡ e.caller
  unfolding on_writable apply_socket_options
  on_writable-caller config now so_error c e = ground (
    arith,
    flush_write_buffer-caller c e,
    queue_write-caller (transition_to c ConnectionState.handshaking now)
        (apply_socket_options config c e)
        (encode_heartbeat (new_message MessageType.connect_hello c.feed_id 0 now)),
  )

  pub new_connection-caller :
      (fd : ℕ) (role : Role) (feed_id : ℕ) (host : Text) (port : ℕ) (config : Config) (e : Env S)
      → (new_connection fd role feed_id host port config e).1.caller ≡ e.caller
  unfolding new_connection apply_socket_options
  new_connection-caller fd role feed_id host port config e = ground arith

  -- What the interceptor keeps of the owner's state, `on_readable` keeps.
  module _ (config : Config) (now : ℤ) (intercept : PingInterceptor S) (Q : S → Type 0)
      (kept : (f : S) (sequence : ℕ) (t : ℤ) → Q f → Q (intercept f sequence t).0) where
    answer_ping_rule :
        (c : Connection S) (e : Env S) (m : HeartbeatMessage)
        → Q e.caller
        → Q (answer_ping (some intercept) c e m).1.caller
    unfolding answer_ping
    answer_ping_rule c e m q =
        let r = intercept e.caller m.sequence m.timestamp_ns in
        let e' = record e { caller = r.0 } in
        elim (Bool-cases r.1) [
          | inl reply ↦
              rw (reply, send_pong-caller c e' m.sequence m.timestamp_ns)
                (kept e.caller m.sequence m.timestamp_ns q)
          | inr silent ↦ rw silent (kept e.caller m.sequence m.timestamp_ns q)
        ]

    handle_ping_rule :
        (c : Connection S) (e : Env S) (m : HeartbeatMessage)
        → c.ping_interceptor ≡ some intercept
        → Q e.caller
        → Q (handle_ping c e m now).1.caller
    unfolding handle_ping
    handle_ping_rule c e m i q =
        ground (arith, i, q, answer_ping_rule (record c { last_liveness_ns = now }) e m q)

    connect_hello_rule :
        (c : Connection S) (e : Env S) (m : HeartbeatMessage)
        → (handle_connect_hello c e m now).1.caller ≡ e.caller
    unfolding handle_connect_hello
    connect_hello_rule c e m = ground (
      arith,
      queue_write-caller c e
          (encode_heartbeat (new_message MessageType.connect_ack c.feed_id 0 now)),
    )

    -- A connection with the interceptor, in a state of its owner as wanted.
    abbrev IsKept : Connection S → Env S → Type 0
    IsKept c e = (c.ping_interceptor ≡ some intercept) × Q e.caller

    handle_message_rule :
        (c : Connection S) (e : Env S) (m : HeartbeatMessage)
        → IsKept c e
        → IsKept (handle_message config c e m now).0 (handle_message config c e m now).1
    unfolding handle_message
    handle_message_rule c e m (i, q) =
        ((handle_message-Moves config c e m now).0.2 ∙ i, by_type (message_type m.type) refl)
      where
        by_type :
            (t : Option MessageType)
            → message_type m.type ≡ t
            → Q (handle_message config c e m now).1.caller
        by_type none h = rw (handle_message, h) q
        by_type (some MessageType.connect_hello) h =
            rw (handle_message, h, connect_hello_rule c e m) q
        by_type (some MessageType.connect_ack) h = rw (handle_message, h) q
        by_type (some MessageType.ping) h = rw (handle_message, h) (handle_ping_rule c e m i q)
        by_type (some MessageType.pong) h = rw (handle_message, h) q
        by_type (some MessageType.disconnect) h = rw (handle_message, h) q

    drain_rule :
        (c : Connection S) (e : Env S)
        → IsKept c e
        → IsKept (drain_read_buffer config now c e).0 (drain_read_buffer config now c e).1
    unfolding drain_read_buffer handle_protocol_violation
    drain_rule c e p =
        drain_loop_rule config now IsKept (λ d f r p. p) (λ d f p. p) handle_message_rule
          (length c.read_accum) c e c.read_accum p

    pub on_readable_rule :
        (recvs : Recvs) (c : Connection S) (e : Env S)
        → c.ping_interceptor ≡ some intercept
        → Q e.caller
        → Q (on_readable config now recvs c e).1.caller
    unfolding on_readable after_reads
    on_readable_rule recvs c e i q =
        let r = recv_loop recvs c.read_accum in ended r.1 (record c { read_accum = r.0 }) i
      where
        ended :
            (how : ReadEnd) (d : Connection S)
            → d.ping_interceptor ≡ some intercept
            → Q (after_reads config now how d e).1.caller
        ended overflow d i = q
        ended closed d i = (drain_rule d e (i, q)).1
        ended empty d i = (drain_rule d e (i, q)).1
        ended (error err) d i = (drain_rule d e (i, q)).1
