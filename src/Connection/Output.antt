-- ===== src/Connection/Output.antt =====
-- The write path: `queue_write` and `flush_write_buffer`.
use vigil_low_latency_tcp_he.Prelude.{
  ℕ, min, Bool, true, false, List, [], ◌∷◌, ◌++◌, length, take, drop, ltb, ◌==◌, if◌then◌else◌,
}
use vigil_low_latency_tcp_he.Connection.Types.{
  Connection, Env, SendResult, accepted, would_block, send_error, max_write_pending_bytes,
  handle_socket_error, handle_protocol_violation,
}

-- Where the loop of `flush_write_buffer` stands: what is left to write, what the kernel has taken,
-- the `send` calls to come, and whether it ended in `handle_socket_error`.
pub record Flush : Type 0 where
  pub pending : List ℕ
  pub sent : List ℕ
  pub sends : List SendResult
  pub error : Bool

abbrev pub staging_size : ℕ
staging_size = 512

-- One round for each `send`. A send takes no more than the chunk that it was handed.
unfoldable pub flush_loop : List SendResult → List ℕ → List ℕ → Flush
flush_loop [] pending sent = record { pending = pending; sent = sent; sends = []; error = false }
flush_loop (r ∷ rs) [] sent = record { pending = []; sent = sent; sends = r ∷ rs; error = false }
flush_loop (r ∷ rs) (b ∷ bytes) sent =
    let pending = b ∷ bytes in
    let chunk = min staging_size (length pending) in
    elim r [
      | accepted k ↦
          let n = min k chunk in
          let pending' = drop n pending in
          let sent' = sent ++ take n pending in
          let rest = flush_loop rs pending' sent' in
          if n == 0
          then record { pending = pending; sent = sent; sends = rs; error = true }
          else if ltb n chunk
          then record { pending = pending'; sent = sent'; sends = rs; error = false }
          else rest
      | would_block ↦ record { pending = pending; sent = sent; sends = rs; error = false }
      | SendResult.interrupted ↦ flush_loop rs pending sent
      | send_error err ↦ record { pending = pending; sent = sent; sends = rs; error = true }
    ]

module _ {S : Type 0} where
  unfoldable pub flush_write_buffer : Connection S → Env S → Connection S × Env S
  flush_write_buffer c e =
      let f = flush_loop e.sends c.write_pending e.sent in
      let c' = record c { write_pending = f.pending } in
      let e' = record e { sends = f.sends; sent = f.sent } in
      (if f.error then handle_socket_error c' e.clock else c', e')

  unfoldable pub queue_write : Connection S → Env S → List ℕ → Connection S × Env S
  queue_write c e wire =
      let was_empty : Bool = elim c.write_pending [ [] ↦ true | b ∷ bytes ↦ false ] in
      let c' = record c { write_pending = c.write_pending ++ wire } in
      if ltb max_write_pending_bytes (length c'.write_pending)
      then (handle_protocol_violation c' e.clock, e)
      else if was_empty
      then flush_write_buffer c' e
      else (c', e)
