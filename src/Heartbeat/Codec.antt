-- ===== src/Heartbeat/Codec.antt =====
-- `encode_heartbeat` and `decode_heartbeat` are inverse to each other.
use vigil_low_latency_tcp_he.Prelude.{
  ℕ, ◌^◌, ◌<◌, ◌≡◌, refl, sym, ap, ◌∙◌, List, true, some, length, take, All-append, arith, ==_iff,
  drop, ◌+◌, All-take, ◌++◌, ◌≤◌, All-drop, drop-drop, length-take, length-drop, take-append-take,
  take-append-drop, take-two-drop, take_all,
}
use vigil_low_latency_tcp_he.Heartbeat.Defs.{
  HeartbeatMessage, protocol_magic, protocol_version, is_known_message_type, to_be16, to_be32,
  to_be64, from_be16, from_be32, from_be64, to_bits64, from_bits64, encode_fields, encode_heartbeat,
  decode_fields, decode_heartbeat, crc32_ieee, crc_offset, heartbeat_message_size, slice,
}
use vigil_low_latency_tcp_he.Heartbeat.Words.{
  IsBytes, IsInt64, from_be16-to_be16, from_be32-to_be32, from_be64-to_be64, from_bits64-to_bits64,
  to_bits64-lt, to_be16-IsBytes, to_be32-IsBytes, to_be64-IsBytes, to_be16-from_be16,
  to_be32-from_be32, to_be64-from_be64, to_bits64-from_bits64, from_bits64-IsInt64,
}
use vigil_low_latency_tcp_he.Heartbeat.Crc.{crc32_ieee-lt}

-- A message that the program can build: the constants of the protocol, a known type, and every
-- field within its width.
pub record IsMessage (m : HeartbeatMessage) : Type 0 where
  pub magic_ok : m.magic ≡ protocol_magic
  pub version_ok : m.version ≡ protocol_version
  pub type_ok : is_known_message_type m.type ≡ true
  pub feed_id_fits : m.feed_id < 2 ^ 32
  pub sequence_fits : m.sequence < 2 ^ 64
  pub timestamp_fits : IsInt64 m.timestamp_ns

-- The message with the checksum that goes over the wire.
abbrev pub checked : HeartbeatMessage → HeartbeatMessage
checked m = record m { crc32 = crc32_ieee (encode_fields m) }

known_type-lt : (t : ℕ) → is_known_message_type t ≡ true → t < 6
unfolding is_known_message_type
known_type-lt t h = ground arith

pub length-encode_heartbeat :
    (m : HeartbeatMessage) → length (encode_heartbeat m) ≡ heartbeat_message_size
unfolding encode_heartbeat encode_fields to_be16 to_be32 to_be64
length-encode_heartbeat m = refl

encode_fields-IsBytes : (m : HeartbeatMessage) → IsMessage m → IsBytes (encode_fields m)
unfolding encode_fields
encode_fields-IsBytes m v = All-append _ (to_be16 m.magic) _ (to_be16-IsBytes m.magic) (
  omega (arith, v.version_ok),
  (
    omega (arith, known_type-lt m.type v.type_ok),
    All-append _ (to_be32 m.feed_id) _ (to_be32-IsBytes m.feed_id) (
        All-append _ (to_be64 m.sequence) _ (to_be64-IsBytes m.sequence)
          (to_be64-IsBytes (to_bits64 m.timestamp_ns))),
  ),
)

pub encode_heartbeat-IsBytes : (m : HeartbeatMessage) → IsMessage m → IsBytes (encode_heartbeat m)
unfolding encode_heartbeat
encode_heartbeat-IsBytes m v =
    All-append _ (encode_fields m) _ (encode_fields-IsBytes m v)
      (to_be32-IsBytes (crc32_ieee (encode_fields m)))

take-encode_heartbeat :
    (m : HeartbeatMessage) → take crc_offset (encode_heartbeat m) ≡ encode_fields m
unfolding encode_heartbeat encode_fields to_be16 to_be32 to_be64
take-encode_heartbeat m = refl

-- What is read at each offset of an encoded message.
decode_fields-encode_raw :
    (m : HeartbeatMessage)
    → decode_fields (encode_heartbeat m) ≡ record {
      magic = from_be16 (to_be16 m.magic);
      version = m.version;
      type = m.type;
      feed_id = from_be32 (to_be32 m.feed_id);
      sequence = from_be64 (to_be64 m.sequence);
      timestamp_ns = from_bits64 (from_be64 (to_be64 (to_bits64 m.timestamp_ns)));
      crc32 = from_be32 (to_be32 (crc32_ieee (encode_fields m)));
    }
unfolding decode_fields encode_heartbeat encode_fields to_be16 to_be32 to_be64
decode_fields-encode_raw m = refl

decode_fields-encode :
    (m : HeartbeatMessage) → IsMessage m → decode_fields (encode_heartbeat m) ≡ checked m
decode_fields-encode m v =
    decode_fields-encode_raw m
    ∙ simp (
      from_be16-to_be16 m.magic (omega (arith, v.magic_ok)),
      from_be32-to_be32 m.feed_id v.feed_id_fits,
      from_be64-to_be64 m.sequence v.sequence_fits,
      from_be64-to_be64 (to_bits64 m.timestamp_ns) (to_bits64-lt m.timestamp_ns v.timestamp_fits),
      from_bits64-to_bits64 m.timestamp_ns v.timestamp_fits,
      from_be32-to_be32 (crc32_ieee (encode_fields m))
          (crc32_ieee-lt (encode_fields m) (encode_fields-IsBytes m v)),
    )

-- The four tests of the decoder.
pub record IsAccepted (bytes : List ℕ) : Type 0 where
  pub magic_ok : (decode_fields bytes).magic ≡ protocol_magic
  pub version_ok : (decode_fields bytes).version ≡ protocol_version
  pub type_ok : is_known_message_type (decode_fields bytes).type ≡ true
  pub crc_ok : crc32_ieee (take crc_offset bytes) ≡ (decode_fields bytes).crc32

pub decode_heartbeat_accepts :
    (bytes : List ℕ) → IsAccepted bytes → decode_heartbeat bytes ≡ some (decode_fields bytes)
unfolding decode_heartbeat
decode_heartbeat_accepts bytes a =
    rw ((==_iff _ _).1 a.magic_ok, (==_iff _ _).1 a.version_ok, a.type_ok, (==_iff _ _).1 a.crc_ok)

pub decode_heartbeat_inverts :
    (bytes : List ℕ) (m : HeartbeatMessage)
    → decode_heartbeat bytes ≡ some m
    → IsAccepted bytes × (m ≡ decode_fields bytes)
unfolding decode_heartbeat
decode_heartbeat_inverts bytes m h = (
  record {
    magic_ok = ground arith;
    version_ok = ground arith;
    type_ok = ground arith;
    crc_ok = ground arith;
  },
  ground arith,
)

-- A message with the protocol's magic, version and a known type, whose feed id, sequence and timestamp
-- fit their fields, is decoded from its encoding as it was, with its checksum filled in.
pub decode-encode :
    (m : HeartbeatMessage) → IsMessage m → decode_heartbeat (encode_heartbeat m) ≡ some (checked m)
decode-encode m v = decode_heartbeat_accepts (encode_heartbeat m) accepted ∙ ap some fields
  where
    fields : decode_fields (encode_heartbeat m) ≡ checked m
    fields = decode_fields-encode m v

    accepted : IsAccepted (encode_heartbeat m)
    accepted = record {
      magic_ok = ap (λ r. r.magic) fields ∙ v.magic_ok;
      version_ok = ap (λ r. r.version) fields ∙ v.version_ok;
      type_ok = ap (λ r. is_known_message_type r.type) fields ∙ v.type_ok;
      crc_ok = ap crc32_ieee (take-encode_heartbeat m) ∙ sym (ap (λ r. r.crc32) fields);
    }

module _ (bytes : List ℕ) (size : length bytes ≡ heartbeat_message_size) (h : IsBytes bytes) where
  slice-IsBytes : (k n : ℕ) → IsBytes (slice bytes k n)
  slice-IsBytes k n = All-take _ n (drop k bytes) (All-drop _ k bytes h)

  length-slice : (k n : ℕ) → k + n ≤ 28 → length (slice bytes k n) ≡ n
  length-slice k n fits = omega (arith, length-take n (drop k bytes), length-drop k bytes)

  slice-append : (k n m : ℕ) → slice bytes k n ++ slice bytes (k + n) m ≡ slice bytes k (n + m)
  slice-append k n m =
      ap (λ xs. slice bytes k n ++ take m xs) (sym (drop-drop k n bytes))
      ∙ take-append-take n m (drop k bytes)

  -- Writing back what was read gives the first 24 bytes, and the last four.
  encode_fields-decode_fields : encode_fields (decode_fields bytes) ≡ take crc_offset bytes
  unfolding encode_fields decode_fields
  encode_fields-decode_fields =
      rw
        (
          (to_be16-from_be16 (slice bytes 0 2) (length-slice 0 2 (omega arith))
              (slice-IsBytes 0 2)).0,
          (to_be32-from_be32 (slice bytes 4 4) (slice-IsBytes 4 4)
              (length-slice 4 4 (omega arith))).0,
          (to_be64-from_be64 (slice bytes 8 8) (slice-IsBytes 8 8)
              (length-slice 8 8 (omega arith))).0,
          to_bits64-from_bits64 (from_be64 (slice bytes 16 8))
              (to_be64-from_be64 (slice bytes 16 8) (slice-IsBytes 16 8)
                (length-slice 16 8 (omega arith))).1,
          (to_be64-from_be64 (slice bytes 16 8) (slice-IsBytes 16 8)
              (length-slice 16 8 (omega arith))).0,
          slice-append 8 8 8,
          slice-append 4 4 16,
        )
        (ap (λ xs. slice bytes 0 2 ++ (xs ++ slice bytes 4 20))
            (sym (take-two-drop 0 bytes 2 (omega arith)))
          ∙ ap (◌++◌ (slice bytes 0 2)) (slice-append 2 2 20)
          ∙ slice-append 0 2 22)

  pub crc-decode_fields : to_be32 (decode_fields bytes).crc32 ≡ drop crc_offset bytes
  unfolding decode_fields
  crc-decode_fields =
      (to_be32-from_be32 (slice bytes 24 4) (slice-IsBytes 24 4)
        (length-slice 24 4 (omega arith))).0
      ∙ take_all 4 (drop 24 bytes) (omega (arith, length-drop 24 bytes))

  decode_fields_fit :
      ((decode_fields bytes).feed_id < 2 ^ 32)
      × ((decode_fields bytes).sequence < 2 ^ 64)
      × IsInt64 (decode_fields bytes).timestamp_ns
  unfolding decode_fields
  decode_fields_fit = (
    (to_be32-from_be32 (slice bytes 4 4) (slice-IsBytes 4 4) (length-slice 4 4 (omega arith))).1,
    (to_be64-from_be64 (slice bytes 8 8) (slice-IsBytes 8 8) (length-slice 8 8 (omega arith))).1,
    from_bits64-IsInt64 (from_be64 (slice bytes 16 8))
        (to_be64-from_be64 (slice bytes 16 8) (slice-IsBytes 16 8)
          (length-slice 16 8 (omega arith))).1,
  )

-- If the decoder accepts 28 bytes, then the message that it gives has the protocol's magic, version
-- and a known type, its fields fit their widths, and encoding it gives the same 28 bytes back.
pub encode-decode :
    (bytes : List ℕ) (m : HeartbeatMessage)
    → length bytes ≡ heartbeat_message_size
    → IsBytes bytes
    → decode_heartbeat bytes ≡ some m
    → IsMessage m × (encode_heartbeat m ≡ bytes)
unfolding encode_heartbeat
encode-decode bytes m size h d =
    let (a, e) = decode_heartbeat_inverts bytes m d in
    let fits = decode_fields_fit bytes size h in
    rw e (
      record {
        magic_ok = a.magic_ok;
        version_ok = a.version_ok;
        type_ok = a.type_ok;
        feed_id_fits = fits.0;
        sequence_fits = fits.1;
        timestamp_fits = fits.2;
      },
      rw (encode_fields-decode_fields bytes size h, a.crc_ok, crc-decode_fields bytes size h)
          (take-append-drop crc_offset bytes),
    )
