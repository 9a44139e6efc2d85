-- ===== src/Heartbeat/Detection.antt =====
-- The decoder refuses a frame in which one byte was changed.
use native.Mathlib.Decide.{dec_lt}
use vigil_low_latency_tcp_he.Prelude.{
  ℕ, ◌≡◌, List, length, ◌<◌, get_or, ◌≢◌, set, ap, ◌≤◌, take, sym, All-take, arith, length-take,
  ◌∙◌, drop, some, none, ◌-◌, Option-cases, inl, inr, length-set, All-set,
}
use vigil_low_latency_tcp_he.Prelude.Edits.{
  get_or-set_self, drop-set_lt, get_or-take, take-set_lt, get_or-drop, take-set_ge,
}
use vigil_low_latency_tcp_he.Heartbeat.Defs.{
  HeartbeatMessage, heartbeat_message_size, decode_heartbeat, decode_fields, from_be32, crc_offset,
  crc32_ieee, to_be32,
}
use vigil_low_latency_tcp_he.Heartbeat.Words.{IsBytes}
use vigil_low_latency_tcp_he.Heartbeat.Codec.{
  IsAccepted, decode_heartbeat_inverts, crc-decode_fields,
}
use vigil_low_latency_tcp_he.Heartbeat.Corruption.{crc32_ieee-set}

module _ (bytes : List ℕ) (i v : ℕ) (size : length bytes ≡ heartbeat_message_size)
    (h : IsBytes bytes) (hi : i < heartbeat_message_size) (hv : v < 256)
    (ne : get_or bytes i 0 ≢ v) where
  -- A change in front of the checksum leaves the checksum that the frame carries.
  in_fields : i < crc_offset → IsAccepted bytes → IsAccepted (set bytes i v) → ⊥
  unfolding decode_fields
  in_fields lt a b =
      crc32_ieee-set (take crc_offset bytes) i v (All-take _ crc_offset bytes h)
        (omega (arith, length-take crc_offset bytes)) hv
        (rw (get_or-take crc_offset i bytes 0 lt) ne)
        (a.crc_ok ∙ stored ∙ sym b.crc_ok ∙ ap crc32_ieee (take-set_lt crc_offset i bytes v lt))
    where
      stored : (decode_fields bytes).crc32 ≡ (decode_fields (set bytes i v)).crc32
      stored = ap (λ xs. from_be32 (take 4 xs)) (sym (drop-set_lt crc_offset i bytes v lt))

  -- A change in the checksum leaves the bytes that it is over.
  in_crc : crc_offset ≤ i → IsAccepted bytes → IsAccepted (set bytes i v) → ⊥
  in_crc ge a b = ne (
      at bytes
      ∙ ap (λ xs. get_or xs (i - crc_offset) 0) tails
      ∙ sym (at (set bytes i v))
      ∙ get_or-set_self bytes i v 0 (omega arith))
    where
      at : (xs : List ℕ) → get_or xs i 0 ≡ get_or (drop crc_offset xs) (i - crc_offset) 0
      at xs =
          sym (get_or-drop crc_offset (i - crc_offset) xs 0 ∙ ap (λ k. get_or xs k 0) (omega arith))

      stored : (decode_fields bytes).crc32 ≡ (decode_fields (set bytes i v)).crc32
      stored = sym a.crc_ok ∙ ap crc32_ieee (sym (take-set_ge crc_offset i bytes v ge)) ∙ b.crc_ok

      tails : drop crc_offset bytes ≡ drop crc_offset (set bytes i v)
      tails =
          sym (crc-decode_fields bytes size h)
          ∙ ap to_be32 stored
          ∙ crc-decode_fields (set bytes i v) (length-set bytes i v ∙ size)
              (All-set _ bytes i v h hv)

  refused :
      (m : HeartbeatMessage)
      → decode_heartbeat bytes ≡ some m
      → decode_heartbeat (set bytes i v) ≡ none
  refused m d = elim (Option-cases (decode_heartbeat (set bytes i v))) [
    | inl e ↦ e
    | inr (m', e) ↦
        let a = (decode_heartbeat_inverts bytes m d).0 in
        let b = (decode_heartbeat_inverts (set bytes i v) m' e).0 in
        elim (dec_lt i crc_offset) [
          | yes lt ↦ absurd (in_fields lt a b)
          | no ge ↦ absurd (in_crc (omega arith) a b)
        ]
  ]

-- When the decoder accepts 28 bytes, it refuses what they become after a change of any one byte to
-- another value.
pub decode_heartbeat-set :
    (bytes : List ℕ) (m : HeartbeatMessage) (i v : ℕ)
    → length bytes ≡ heartbeat_message_size
    → IsBytes bytes
    → decode_heartbeat bytes ≡ some m
    → i < heartbeat_message_size
    → v < 256
    → get_or bytes i 0 ≢ v
    → decode_heartbeat (set bytes i v) ≡ none
decode_heartbeat-set bytes m i v size h d hi hv ne = refused bytes i v size h hi hv ne m d
