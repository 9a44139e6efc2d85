-- ===== src/Connection/Frames.antt =====
-- One whole frame that arrives alone is decoded and handled once.
use vigil_low_latency_tcp_he.Prelude.{
  ℕ, suc, ◌≡◌, refl, ap, ◌∙◌, inl, inr, true, some, [], arith, leb, Bool-cases, length, take, drop,
  take_all,
}
use vigil_low_latency_tcp_he.Prelude.Int.{ℤ}
use vigil_low_latency_tcp_he.Prelude.Edits.{drop_all}
use vigil_low_latency_tcp_he.Heartbeat.{
  HeartbeatMessage, encode_heartbeat, decode_heartbeat, heartbeat_message_size,
}
use vigil_low_latency_tcp_he.Heartbeat.Codec.{
  IsMessage, checked, decode-encode, length-encode_heartbeat,
}
use vigil_low_latency_tcp_he.Config.{Config}
use vigil_low_latency_tcp_he.Connection.Types.{Connection, Env, is_failed, chunk, drained}
use vigil_low_latency_tcp_he.Connection.Handlers.{handle_message}
use vigil_low_latency_tcp_he.Connection.Events.{
  on_readable, drain_read_buffer, drain_loop, finish_read, recv_loop,
}
use vigil_low_latency_tcp_he.Connection.Drain.{drain_loop_short, drain_loop_failed, drain_loop_next}

pub whole :
    (m : HeartbeatMessage) → take heartbeat_message_size (encode_heartbeat m) ≡ encode_heartbeat m
whole m =
    take_all heartbeat_message_size (encode_heartbeat m) (omega (arith, length-encode_heartbeat m))

pub nothing_left : (m : HeartbeatMessage) → drop heartbeat_message_size (encode_heartbeat m) ≡ []
nothing_left m =
    drop_all heartbeat_message_size (encode_heartbeat m) (omega (arith, length-encode_heartbeat m))

module _ {S : Type 0} (config : Config) (now : ℤ) (m : HeartbeatMessage) (v : IsMessage m) where
  drain_frame :
      (c : Connection S) (e : Env S) (fuel : ℕ)
      → drain_loop config now (suc fuel) c e (encode_heartbeat m) ≡ (
        record ((handle_message config c e (checked m) now).0) { read_accum = [] },
        (handle_message config c e (checked m) now).1,
      )
  drain_frame c e fuel =
      elim (Bool-cases (is_failed (handle_message config c e (checked m) now).0.state)) [
        | inl f ↦ drain_loop_failed config now fuel c e (encode_heartbeat m) (checked m) full good f
        | inr f ↦
            drain_loop_next config now fuel c e (encode_heartbeat m) (checked m) full good f
            ∙ rw (nothing_left m) (
                drain_loop_short config now fuel (handle_message config c e (checked m) now).0
                  (handle_message config c e (checked m) now).1 [] refl)
      ]
    where
      full : leb heartbeat_message_size (length (encode_heartbeat m)) ≡ true
      full = rw (length-encode_heartbeat m)

      good : decode_heartbeat (take heartbeat_message_size (encode_heartbeat m)) ≡ some (checked m)
      good = rw (whole m) (decode-encode m v)

  drain_read_buffer-frame :
      (c : Connection S) (e : Env S)
      → c.read_accum ≡ encode_heartbeat m
      → drain_read_buffer config now c e ≡ (
        record ((handle_message config c e (checked m) now).0) { read_accum = [] },
        (handle_message config c e (checked m) now).1,
      )
  unfolding drain_read_buffer
  drain_read_buffer-frame c e filled =
      ap (λ xs. drain_loop config now (length xs) c e xs) filled
      ∙ ap (λ n. drain_loop config now n c e (encode_heartbeat m)) (length-encode_heartbeat m)
      ∙ drain_frame c e 27

  -- When nothing is buffered and one whole frame of a valid message arrives alone, `on_readable` handles
  -- the message that was sent, with its checksum, once, and leaves nothing buffered.
  pub on_readable-frame :
      (c : Connection S) (e : Env S)
      → c.read_accum ≡ []
      → let h =
          handle_message config (record c { read_accum = encode_heartbeat m }) e (checked m) now in
        on_readable config now (chunk (encode_heartbeat m) drained) c e
        ≡ (record (h.0) { read_accum = [] }, h.1)
  unfolding on_readable recv_loop drain_read_buffer finish_read
  on_readable-frame c e idle =
      rw (idle, length-encode_heartbeat m)
        (drain_read_buffer-frame (record c { read_accum = encode_heartbeat m }) e refl)
