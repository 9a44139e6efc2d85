-- ===== src/Connection/Outgoing.antt =====
-- The bytes that a connection writes: nothing is lost, doubled or put out of order, and the buffer
-- of a connection that has not failed is bounded.
use mathlib.Core.List.{append_assoc}
use vigil_low_latency_tcp_he.Prelude.{
  ℕ, ◌≤◌, min, ◌≡◌, refl, ap, ◌∙◌, ◌≢◌, ◌⊎◌, List, [], ◌∷◌, ◌++◌, arith, length, take, drop,
  take-append-drop, length-drop,
}
use vigil_low_latency_tcp_he.Connection.Types.{
  Connection, Env, ConnectionState, SendResult, accepted, would_block, send_error,
  handle_protocol_violation, handle_socket_error, max_write_pending_bytes,
}
use vigil_low_latency_tcp_he.Connection.Output.{
  staging_size, flush_loop, flush_write_buffer, queue_write,
}

-- What the peer will have read once the buffer is empty.
abbrev pub stream : {S : Type 0} → Connection S × Env S → List ℕ
stream (c, e) = e.sent ++ c.write_pending

moved :
    (pending sent : List ℕ) (n : ℕ) → (sent ++ take n pending) ++ drop n pending ≡ sent ++ pending
moved pending sent n =
    append_assoc sent (take n pending) (drop n pending)
    ∙ ap (◌++◌ sent) (take-append-drop n pending)

flush_loop-stream :
    (rs : List SendResult) (pending sent : List ℕ)
    → (flush_loop rs pending sent).sent ++ (flush_loop rs pending sent).pending ≡ sent ++ pending
unfolding flush_loop
flush_loop-stream [] pending sent = refl
flush_loop-stream (r ∷ rs) [] sent = refl
flush_loop-stream (accepted k ∷ rs) (b ∷ bytes) sent =
    let n = min k (min staging_size (length (b ∷ bytes))) in
    ground (
      arith,
      moved (b ∷ bytes) sent n,
      flush_loop-stream rs (drop n (b ∷ bytes)) (sent ++ take n (b ∷ bytes)),
    )
flush_loop-stream (would_block ∷ rs) (b ∷ bytes) sent = refl
flush_loop-stream (SendResult.interrupted ∷ rs) (b ∷ bytes) sent =
    flush_loop-stream rs (b ∷ bytes) sent
flush_loop-stream (send_error err ∷ rs) (b ∷ bytes) sent = refl

flush_loop-shrinks :
    (rs : List SendResult) (pending sent : List ℕ)
    → length (flush_loop rs pending sent).pending ≤ length pending
unfolding flush_loop
flush_loop-shrinks [] pending sent = omega arith
flush_loop-shrinks (r ∷ rs) [] sent = omega arith
flush_loop-shrinks (accepted k ∷ rs) (b ∷ bytes) sent =
    let n = min k (min staging_size (length (b ∷ bytes))) in
    ground (
      arith,
      length-drop n (b ∷ bytes),
      flush_loop-shrinks rs (drop n (b ∷ bytes)) (sent ++ take n (b ∷ bytes)),
    )
flush_loop-shrinks (would_block ∷ rs) (b ∷ bytes) sent = omega arith
flush_loop-shrinks (SendResult.interrupted ∷ rs) (b ∷ bytes) sent =
    flush_loop-shrinks rs (b ∷ bytes) sent
flush_loop-shrinks (send_error err ∷ rs) (b ∷ bytes) sent = omega arith

module _ {S : Type 0} where
  pub flush_write_buffer-stream :
      (c : Connection S) (e : Env S) → stream (flush_write_buffer c e) ≡ stream (c, e)
  unfolding flush_write_buffer handle_socket_error
  flush_write_buffer-stream c e = ground (arith, flush_loop-stream e.sends c.write_pending e.sent)

  -- Whatever the sends do, the bytes taken by the kernel followed by those still buffered are, after
  -- `queue_write` of a frame, those from before followed by the frame.
  pub queue_write-stream :
      (c : Connection S) (e : Env S) (wire : List ℕ)
      → stream (queue_write c e wire) ≡ stream (c, e) ++ wire
  unfolding queue_write handle_protocol_violation
  queue_write-stream c e wire = ground (
    arith,
    append_assoc e.sent c.write_pending wire,
    flush_write_buffer-stream (record c { write_pending = c.write_pending ++ wire }) e,
  )

  -- The buffer is bounded as long as the connection has not failed.
  abbrev pub IsBounded : Connection S → Type 0
  IsBounded c =
      (c.state ≢ ConnectionState.failed) → length c.write_pending ≤ max_write_pending_bytes

  pub flush_write_buffer-IsBounded :
      (c : Connection S) (e : Env S)
      → length c.write_pending ≤ max_write_pending_bytes
      → IsBounded (flush_write_buffer c e).0
  unfolding flush_write_buffer handle_socket_error
  flush_write_buffer-IsBounded c e h n =
      ground (arith, flush_loop-shrinks e.sends c.write_pending e.sent)

  -- Unless the connection is failed after `queue_write`, its write buffer holds at most
  -- `max_write_pending_bytes`.
  pub queue_write-IsBounded :
      (c : Connection S) (e : Env S) (wire : List ℕ) → IsBounded (queue_write c e wire).0
  unfolding queue_write handle_protocol_violation
  queue_write-IsBounded c e wire n = ground (
    arith,
    λ (h : length (c.write_pending ++ wire) ≤ max_write_pending_bytes).
        flush_write_buffer-IsBounded (record c { write_pending = c.write_pending ++ wire }) e h,
  )

  -- A write leaves a connection in its state, or fails it, and touches nothing but the state and
  -- the buffer.
  pub record IsWritten (c d : Connection S) : Type 0 where
    pub state_ok : (d.state ≡ c.state) ⊎ (d.state ≡ ConnectionState.failed)
    pub rest_ok : d ≡ record c {
      state = d.state;
      state_entered_ns = d.state_entered_ns;
      write_pending = d.write_pending;
    }

  pub queue_write-IsWritten :
      (c : Connection S) (e : Env S) (wire : List ℕ) → IsWritten c (queue_write c e wire).0
  unfolding queue_write handle_protocol_violation flush_write_buffer handle_socket_error
  queue_write-IsWritten c e wire = record { state_ok = ground arith; rest_ok = ground arith }
