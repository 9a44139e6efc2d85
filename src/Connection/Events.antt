-- ===== src/Connection/Events.antt =====
-- What the reactor calls: `on_readable`, `on_writable`, `on_hangup_or_error`.
use vigil_low_latency_tcp_he.Prelude.{
  ℕ, zero, suc, Bool, none, some, List, [], ◌++◌, length, take, drop, ltb, leb, if◌then◌else◌,
}
use vigil_low_latency_tcp_he.Prelude.Int.{ℤ}
use vigil_low_latency_tcp_he.Heartbeat.{
  MessageType, new_message, encode_heartbeat, decode_heartbeat, heartbeat_message_size,
}
use vigil_low_latency_tcp_he.Config.{Config}
use vigil_low_latency_tcp_he.Connection.Types.{
  Connection, ConnectionState, Env, Recvs, chunk, end_of_file, drained, recv_error, is_initiator,
  is_connecting, is_failed, max_read_accum_bytes, apply_socket_options, transition_to,
  handle_protocol_violation, handle_peer_closed, handle_socket_error,
}
use vigil_low_latency_tcp_he.Connection.Output.{queue_write, flush_write_buffer}
use vigil_low_latency_tcp_he.Connection.Handlers.{handle_message}

-- How the loop over `recv` ends.
pub data ReadEnd : Type 0 where
  closed empty overflow : ReadEnd
  error : ℕ → ReadEnd

-- The loop over `recv`, with the bytes accumulated so far.
unfoldable pub recv_loop : Recvs → List ℕ → List ℕ × ReadEnd
recv_loop (chunk bytes more) accum =
    let accum' = accum ++ bytes in
    let rest = recv_loop more accum' in
    if ltb max_read_accum_bytes (length accum') then (accum', overflow) else rest
recv_loop (Recvs.interrupted more) accum = recv_loop more accum
recv_loop end_of_file accum = (accum, closed)
recv_loop drained accum = (accum, empty)
recv_loop (recv_error err) accum = (accum, error err)

module _ {S : Type 0} where
  -- The loop of `drain_read_buffer`; `rest` is `read_accum_` from `offset` on.
  unfoldable pub drain_loop : Config → ℤ → ℕ → Connection S → Env S → List ℕ → Connection S × Env S
  drain_loop config now_ns zero c e rest = (record c { read_accum = rest }, e)
  drain_loop config now_ns (suc fuel) c e rest = elim (leb heartbeat_message_size (length rest)) [
    | Bool.true ↦ elim (decode_heartbeat (take heartbeat_message_size rest)) [
      | some msg ↦
          let r = handle_message config c e msg now_ns in
          let next = drain_loop config now_ns fuel (r.0) (r.1) (drop heartbeat_message_size rest) in
          if is_failed (r.0).state then (record (r.0) { read_accum = [] }, r.1) else next
      | none ↦ (record (handle_protocol_violation c now_ns) { read_accum = [] }, e)
    ]
    | Bool.false ↦ (record c { read_accum = rest }, e)
  ]

  -- Every round takes 28 bytes, so one round for each byte is enough.
  unfoldable pub drain_read_buffer : Config → ℤ → Connection S → Env S → Connection S × Env S
  drain_read_buffer config now_ns c e =
      drain_loop config now_ns (length c.read_accum) c e c.read_accum

  -- What `on_readable` does with the way the loop ended, after the buffer was drained.
  unfoldable pub finish_read : ReadEnd → Connection S → ℤ → Connection S
  finish_read closed c now_ns = if is_failed c.state then c else handle_peer_closed c now_ns
  finish_read (error err) c now_ns = if is_failed c.state then c else handle_socket_error c now_ns
  finish_read _ c now_ns = c

  -- `on_readable` behind its loop.
  unfoldable pub after_reads : Config → ℤ → ReadEnd → Connection S → Env S → Connection S × Env S
  after_reads config now_ns overflow c e = (handle_protocol_violation c now_ns, e)
  after_reads config now_ns how c e =
      let (c', e') = drain_read_buffer config now_ns c e in (finish_read how c' now_ns, e')

  unfoldable pub on_readable : Config → ℤ → Recvs → Connection S → Env S → Connection S × Env S
  unfolding after_reads
  on_readable config now_ns recvs c e =
      let (accum, how) = recv_loop recvs c.read_accum in
      after_reads config now_ns how (record c { read_accum = accum }) e

  -- `so_error` is what `getsockopt(SO_ERROR)` gives, or its errno where the call fails.
  unfoldable pub on_writable : Config → ℤ → ℕ → Connection S → Env S → Connection S × Env S
  on_writable config now_ns so_error c e =
      if is_connecting c.state
      then if ltb 0 so_error
        then (handle_socket_error c now_ns, e)
        else (let e' = apply_socket_options config c e in
            let c' = transition_to c ConnectionState.handshaking now_ns in
            if is_initiator c.role
            then queue_write c' e'
                (encode_heartbeat (new_message MessageType.connect_hello c.feed_id 0 now_ns))
            else (c', e'))
      else flush_write_buffer c e

  unfoldable pub on_hangup_or_error : Connection S → ℤ → Connection S
  unfolding handle_socket_error
  on_hangup_or_error c now_ns = handle_socket_error c now_ns
