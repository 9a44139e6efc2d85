-- ===== src/Heartbeat/Defs.antt =====
-- The definitions of src/heartbeat.h and src/heartbeat.cpp.
use vigil_low_latency_tcp_he.Prelude.{
  ℕ, zero, suc, ◌+◌, ◌-◌, ◌*◌, ◌/◌, ◌%◌, ◌^◌, bit_xor, Bool, true, false, Option, none, some, List,
  [], ◌∷◌, ◌++◌, get_or, take, drop, ltb, ◌==◌, if◌then◌else◌,
}
use vigil_low_latency_tcp_he.Prelude.Int.{ℤ, pos, negsuc}

pub data MessageType : Type 0 where
  connect_hello connect_ack ping pong disconnect : MessageType

-- The enumerator's value.
abbrev pub type_code : MessageType → ℕ
type_code MessageType.connect_hello = 1
type_code MessageType.connect_ack = 2
type_code MessageType.ping = 3
type_code MessageType.pong = 4
type_code MessageType.disconnect = 5

abbrev pub protocol_magic : ℕ
protocol_magic = 0xFEED

abbrev pub protocol_version : ℕ
protocol_version = 1

pub record HeartbeatMessage : Type 0 where
  pub magic : ℕ
  pub version : ℕ
  pub type : ℕ
  pub feed_id : ℕ
  pub sequence : ℕ
  pub timestamp_ns : ℤ
  pub crc32 : ℕ

-- `HeartbeatMessage{}`, with the four fields that every sender fills in.
abbrev pub new_message : MessageType → ℕ → ℕ → ℤ → HeartbeatMessage
new_message t feed sequence timestamp = record {
  magic = protocol_magic;
  version = protocol_version;
  type = type_code t;
  feed_id = feed;
  sequence = sequence;
  timestamp_ns = timestamp;
  crc32 = 0;
}

abbrev pub heartbeat_message_size : ℕ
heartbeat_message_size = 28

abbrev pub crc_offset : ℕ
crc_offset = heartbeat_message_size - 4

-- The cast to `MessageType`, where it names an enumerator.
unfoldable pub message_type : ℕ → Option MessageType
message_type t =
    if t == 1
    then some MessageType.connect_hello
    else if t == 2
    then some MessageType.connect_ack
    else if t == 3
    then some MessageType.ping
    else if t == 4
    then some MessageType.pong
    else if t == 5
    then some MessageType.disconnect
    else none

unfoldable pub is_known_message_type : ℕ → Bool
unfolding message_type
is_known_message_type t = elim (message_type t) [ none ↦ false | some m ↦ true ]

abbrev pub crc_polynomial : ℕ
crc_polynomial = 0xEDB88320

-- One round of the inner loop of `make_crc32_table`; `c & 1u` is the remainder by 2.
unfoldable pub crc_bit : ℕ → ℕ
crc_bit c = if c % 2 == 1 then bit_xor crc_polynomial (c / 2) else c / 2

unfoldable pub crc_bits : ℕ → ℕ → ℕ
crc_bits zero c = c
crc_bits (suc n) c = crc_bits n (crc_bit c)

-- `left` rounds of the outer loop from index `i`.
unfoldable pub table_from : ℕ → ℕ → List ℕ
table_from zero i = []
table_from (suc left) i = crc_bits 8 i ∷ table_from left (i + 1)

unfoldable pub crc32_table : List ℕ
crc32_table = table_from 256 0

unfoldable pub crc_update : ℕ → ℕ → ℕ
crc_update crc b = bit_xor (get_or crc32_table (bit_xor crc b % 256) 0) (crc / 256)

unfoldable pub crc_loop : ℕ → List ℕ → ℕ
crc_loop crc [] = crc
crc_loop crc (b ∷ bytes) = crc_loop (crc_update crc b) bytes

unfoldable pub crc32_ieee : List ℕ → ℕ
crc32_ieee bytes = bit_xor (crc_loop 0xFFFFFFFF bytes) 0xFFFFFFFF

-- `htobe16`, `htobe32` and `htobe64` followed by the copy of the bytes.
unfoldable pub to_be16 : ℕ → List ℕ
to_be16 n = (n / 256 % 256) ∷ (n % 256) ∷ []

unfoldable pub to_be32 : ℕ → List ℕ
unfolding to_be16
to_be32 n = to_be16 (n / 2 ^ 16 % 2 ^ 16) ++ to_be16 (n % 2 ^ 16)

unfoldable pub to_be64 : ℕ → List ℕ
unfolding to_be32
to_be64 n = to_be32 (n / 2 ^ 32 % 2 ^ 32) ++ to_be32 (n % 2 ^ 32)

-- The copy of the bytes followed by `be16toh`, `be32toh` and `be64toh`.
unfoldable pub from_be16 : List ℕ → ℕ
from_be16 bytes = get_or bytes 0 0 * 256 + get_or bytes 1 0

unfoldable pub from_be32 : List ℕ → ℕ
unfolding from_be16
from_be32 bytes = from_be16 (take 2 bytes) * 2 ^ 16 + from_be16 (drop 2 bytes)

unfoldable pub from_be64 : List ℕ → ℕ
unfolding from_be32
from_be64 bytes = from_be32 (take 4 bytes) * 2 ^ 32 + from_be32 (drop 4 bytes)

-- The copy of an int64_t's bits to a uint64_t, and back.
unfoldable pub to_bits64 : ℤ → ℕ
to_bits64 (pos n) = n
to_bits64 (negsuc n) = 2 ^ 64 - 1 - n

unfoldable pub from_bits64 : ℕ → ℤ
from_bits64 n = if ltb n (2 ^ 63) then pos n else negsuc (2 ^ 64 - 1 - n)

-- The first 24 bytes of `encode_heartbeat`.
unfoldable pub encode_fields : HeartbeatMessage → List ℕ
encode_fields m =
    to_be16 m.magic
    ++ (m.version
        ∷ m.type
        ∷ (to_be32 m.feed_id ++ (to_be64 m.sequence ++ to_be64 (to_bits64 m.timestamp_ns))))

unfoldable pub encode_heartbeat : HeartbeatMessage → List ℕ
encode_heartbeat m = let fields = encode_fields m in fields ++ to_be32 (crc32_ieee fields)

-- The bytes `in.data() + offset` up to `in.data() + offset + size`.
abbrev pub slice : List ℕ → ℕ → ℕ → List ℕ
slice bytes offset size = take size (drop offset bytes)

unfoldable pub decode_fields : List ℕ → HeartbeatMessage
decode_fields bytes = record {
  magic = from_be16 (slice bytes 0 2);
  version = get_or bytes 2 0;
  type = get_or bytes 3 0;
  feed_id = from_be32 (slice bytes 4 4);
  sequence = from_be64 (slice bytes 8 8);
  timestamp_ns = from_bits64 (from_be64 (slice bytes 16 8));
  crc32 = from_be32 (slice bytes crc_offset 4);
}

-- `none` is a return of false.
unfoldable pub decode_heartbeat : List ℕ → Option HeartbeatMessage
decode_heartbeat bytes =
    let m = decode_fields bytes in
    if m.magic == protocol_magic
    then if m.version == protocol_version
      then if is_known_message_type m.type
        then if crc32_ieee (take crc_offset bytes) == m.crc32 then some m else none
        else none
      else none
    else none
