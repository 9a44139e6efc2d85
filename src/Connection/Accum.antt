-- ===== src/Connection/Accum.antt =====
-- The handlers neither read nor change the bytes that wait to be decoded.
use vigil_low_latency_tcp_he.Prelude.{
  ℕ, ◌≡◌, refl, inl, inr, Option, none, some, List, arith, Bool-cases,
}
use vigil_low_latency_tcp_he.Prelude.Int.{ℤ}
use vigil_low_latency_tcp_he.Heartbeat.{
  HeartbeatMessage, MessageType, encode_heartbeat, new_message,
}
use vigil_low_latency_tcp_he.Config.{Config}
use vigil_low_latency_tcp_he.Connection.Types.{
  Connection, Env, PingInterceptor, transition_to, handle_protocol_violation, handle_peer_closed,
  handle_socket_error,
}
use vigil_low_latency_tcp_he.Connection.Output.{queue_write, flush_write_buffer}
use vigil_low_latency_tcp_he.Connection.Handlers.{
  handle_connect_hello, handle_connect_ack, send_pong, answer_ping, handle_ping, handle_pong,
  handle_message, remember_acked_sequence, has_acked_sequence,
}

module _ {S : Type 0} where
  abbrev pub with_accum : List ℕ → Connection S × Env S → Connection S × Env S
  with_accum xs r = (record (r.0) { read_accum = xs }, r.1)

  queue_write-accum :
      (c : Connection S) (e : Env S) (wire xs : List ℕ)
      → queue_write (record c { read_accum = xs }) e wire ≡ with_accum xs (queue_write c e wire)
  unfolding queue_write flush_write_buffer handle_protocol_violation handle_socket_error
      transition_to
  queue_write-accum c e wire xs = ground arith

  handle_pong-accum :
      (config : Config) (c : Connection S) (m : HeartbeatMessage) (now : ℤ) (xs : List ℕ)
      → handle_pong config (record c { read_accum = xs }) m now
        ≡ record (handle_pong config c m now) { read_accum = xs }
  unfolding handle_pong handle_protocol_violation transition_to remember_acked_sequence
      has_acked_sequence
  handle_pong-accum config c m now xs = ground arith

  handle_connect_ack-accum :
      (c : Connection S) (m : HeartbeatMessage) (now : ℤ) (xs : List ℕ)
      → handle_connect_ack (record c { read_accum = xs }) m now
        ≡ record (handle_connect_ack c m now) { read_accum = xs }
  unfolding handle_connect_ack handle_protocol_violation transition_to
  handle_connect_ack-accum c m now xs = ground arith

  handle_connect_hello-accum :
      (c : Connection S) (e : Env S) (m : HeartbeatMessage) (now : ℤ) (xs : List ℕ)
      → handle_connect_hello (record c { read_accum = xs }) e m now
        ≡ with_accum xs (handle_connect_hello c e m now)
  unfolding handle_connect_hello handle_protocol_violation transition_to
  handle_connect_hello-accum c e m now xs = ground (
    arith,
    queue_write-accum c e (encode_heartbeat (new_message MessageType.connect_ack c.feed_id 0 now))
        xs,
  )

  send_pong-accum :
      (c : Connection S) (e : Env S) (sequence : ℕ) (t : ℤ) (xs : List ℕ)
      → send_pong (record c { read_accum = xs }) e sequence t
        ≡ with_accum xs (send_pong c e sequence t)
  unfolding send_pong
  send_pong-accum c e sequence t xs = ground (
    arith,
    queue_write-accum c e (encode_heartbeat (new_message MessageType.pong c.feed_id sequence t)) xs,
  )

  answer_ping-accum :
      (i : Option (PingInterceptor S)) (c : Connection S) (e : Env S) (m : HeartbeatMessage)
      (xs : List ℕ)
      → answer_ping i (record c { read_accum = xs }) e m ≡ with_accum xs (answer_ping i c e m)
  unfolding answer_ping
  answer_ping-accum none c e m xs = send_pong-accum c e m.sequence m.timestamp_ns xs
  answer_ping-accum (some intercept) c e m xs =
      let r = intercept e.caller m.sequence m.timestamp_ns in
      elim (Bool-cases r.1) [
        | inl reply ↦
            rw reply (send_pong-accum c (record e { caller = r.0 }) m.sequence m.timestamp_ns xs)
        | inr silent ↦ rw silent refl
      ]

  handle_ping-accum :
      (c : Connection S) (e : Env S) (m : HeartbeatMessage) (now : ℤ) (xs : List ℕ)
      → handle_ping (record c { read_accum = xs }) e m now ≡ with_accum xs (handle_ping c e m now)
  unfolding handle_ping handle_protocol_violation
  handle_ping-accum c e m now xs =
      ground
        (arith, answer_ping-accum c.ping_interceptor (record c { last_liveness_ns = now }) e m xs)

  pub handle_message-accum :
      (config : Config) (c : Connection S) (e : Env S) (m : HeartbeatMessage) (now : ℤ)
      (xs : List ℕ)
      → handle_message config (record c { read_accum = xs }) e m now
        ≡ with_accum xs (handle_message config c e m now)
  unfolding handle_message handle_peer_closed
  handle_message-accum config c e m now xs = ground (
    arith,
    handle_connect_hello-accum c e m now xs,
    handle_connect_ack-accum c m now xs,
    handle_ping-accum c e m now xs,
    handle_pong-accum config c m now xs,
  )
