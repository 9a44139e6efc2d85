-- ===== src/Heartbeat/Examples.antt =====
-- Runs of the codec on concrete inputs, and the witnesses of its theorems.
use vigil_low_latency_tcp_he.Prelude.{
  ℕ, ◌≡◌, ◌≢◌, refl, List, [], ◌∷◌, some, none, arith, set, get_or, bit_xor,
}
use vigil_low_latency_tcp_he.Prelude.Int.{negsuc}
use vigil_low_latency_tcp_he.Heartbeat.Defs.{
  HeartbeatMessage, MessageType, new_message, encode_heartbeat, decode_heartbeat, encode_fields,
  to_be16, to_be32, to_be64, is_known_message_type, message_type, crc32_ieee, crc_loop, crc_update,
  crc32_table, table_from, crc_bits, crc_bit,
}
use vigil_low_latency_tcp_he.Heartbeat.Words.{IsBytes}
use vigil_low_latency_tcp_he.Heartbeat.Crc.{crc_reference, crc32_ieee-crc_reference}
use vigil_low_latency_tcp_he.Heartbeat.Codec.{
  IsMessage, checked, decode-encode, encode-decode, encode_heartbeat-IsBytes,
  length-encode_heartbeat,
}
use vigil_low_latency_tcp_he.Heartbeat.Detection.{decode_heartbeat-set}

abbrev digits : List ℕ
digits = 0x31 ∷ 0x32 ∷ 0x33 ∷ 0x34 ∷ 0x35 ∷ 0x36 ∷ 0x37 ∷ 0x38 ∷ 0x39 ∷ []

-- The check value of CRC-32/IEEE over "123456789".
check_value : crc32_ieee digits ≡ 0xCBF43926
unfolding crc32_ieee crc_loop crc_update crc32_table table_from crc_bits crc_bit
check_value = refl

digits-IsBytes : IsBytes digits
digits-IsBytes = ground arith

abbrev a_ping : HeartbeatMessage
a_ping = new_message MessageType.ping 7 300 (negsuc 41)

a_ping-IsMessage : IsMessage a_ping
unfolding is_known_message_type message_type
a_ping-IsMessage = record {
  magic_ok = refl;
  version_ok = refl;
  type_ok = refl;
  feed_id_fits = omega arith;
  sequence_fits = omega arith;
  timestamp_fits = omega arith;
}

tenth_byte : get_or (encode_heartbeat a_ping) 9 0 ≢ 255
unfolding encode_heartbeat encode_fields to_be16 to_be32 to_be64
tenth_byte = omega arith

crc32_ieee-crc_reference_example :
    crc32_ieee digits ≡ bit_xor (crc_reference 0xFFFFFFFF digits) 0xFFFFFFFF
crc32_ieee-crc_reference_example = crc32_ieee-crc_reference digits digits-IsBytes

decode-encode_example : decode_heartbeat (encode_heartbeat a_ping) ≡ some (checked a_ping)
decode-encode_example = decode-encode a_ping a_ping-IsMessage

encode-decode_example :
    IsMessage (checked a_ping) × (encode_heartbeat (checked a_ping) ≡ encode_heartbeat a_ping)
encode-decode_example =
    encode-decode (encode_heartbeat a_ping) (checked a_ping) (length-encode_heartbeat a_ping)
      (encode_heartbeat-IsBytes a_ping a_ping-IsMessage) (decode-encode a_ping a_ping-IsMessage)

decode_heartbeat-set_example : decode_heartbeat (set (encode_heartbeat a_ping) 9 255) ≡ none
decode_heartbeat-set_example =
    decode_heartbeat-set (encode_heartbeat a_ping) (checked a_ping) 9 255
      (length-encode_heartbeat a_ping) (encode_heartbeat-IsBytes a_ping a_ping-IsMessage)
      (decode-encode a_ping a_ping-IsMessage) (omega arith) (omega arith) tenth_byte
