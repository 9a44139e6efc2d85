-- ===== src/Bench/Peer/Defs.antt =====
-- The peer's state and what it does with one client.
use vigil_low_latency_tcp_he.Prelude.{
  ℕ, zero, suc, Bool, Option, none, some, List, [], ◌∷◌, ◌++◌, length, take, drop, leb, ◌==◌,
  if◌then◌else◌,
}
use vigil_low_latency_tcp_he.Prelude.Int.{pos}
use vigil_low_latency_tcp_he.Heartbeat.{
  HeartbeatMessage, MessageType, message_type, new_message, encode_heartbeat, decode_heartbeat,
  heartbeat_message_size,
}
use vigil_low_latency_tcp_he.Connection.{Recvs, chunk, end_of_file, drained, recv_error}

-- The calls on descriptors: `send` with the bytes passed to it, whatever the kernel takes of them.
pub data PeerCall : Type 0 where
  send_to : ℕ → List ℕ → PeerCall
  watch unwatch close_fd : ℕ → PeerCall

-- `clients` has the entries of the map, each with its buffer; `calls` is the log, latest first.
pub record EchoPeer : Type 0 where
  pub listen_fd : ℕ
  pub epoll_fd : ℕ
  pub wake_fd : ℕ
  pub port : ℕ
  pub clients : List (ℕ × List ℕ)
  pub stop_set : Bool
  pub calls : List PeerCall

-- `clients_.find`, an assignment to an entry, and `clients_.erase`.
unfoldable pub find_buffer : ℕ → List (ℕ × List ℕ) → Option (List ℕ)
find_buffer fd [] = none
find_buffer fd ((key, buf) ∷ clients) = if key == fd then some buf else find_buffer fd clients

unfoldable pub put_buffer : ℕ → List ℕ → List (ℕ × List ℕ) → List (ℕ × List ℕ)
put_buffer fd buf [] = []
put_buffer fd buf ((key, old) ∷ clients) =
    (key, if key == fd then buf else old) ∷ put_buffer fd buf clients

unfoldable pub erase_buffer : ℕ → List (ℕ × List ℕ) → List (ℕ × List ℕ)
erase_buffer fd [] = []
erase_buffer fd ((key, buf) ∷ clients) =
    let rest = erase_buffer fd clients in if key == fd then rest else (key, buf) ∷ rest

abbrev pub log_peer : PeerCall → EchoPeer → EchoPeer
log_peer call p = record p { calls = call ∷ p.calls }

unfoldable pub close_client : ℕ → EchoPeer → EchoPeer
close_client fd p =
    let p' = log_peer (close_fd fd) (log_peer (unwatch fd) p) in
    record p' { clients = erase_buffer fd p.clients }

-- The loop over `recv`: the buffer after it, and whether the client has to be closed.
unfoldable pub read_all : Recvs → List ℕ → List ℕ × Bool
read_all (chunk bytes more) buf = read_all more (buf ++ bytes)
read_all (Recvs.interrupted more) buf = read_all more buf
read_all end_of_file buf = (buf, Bool.true)
read_all drained buf = (buf, Bool.false)
read_all (recv_error err) buf = (buf, Bool.true)

-- The reply to a message, if it gets one.
unfoldable pub reply_to : HeartbeatMessage → Option HeartbeatMessage
reply_to msg = elim (message_type msg.type) [
  | some MessageType.connect_hello ↦
      some (new_message MessageType.connect_ack msg.feed_id 0 (pos 0))
  | some MessageType.ping ↦
      some (new_message MessageType.pong msg.feed_id msg.sequence msg.timestamp_ns)
  | _ ↦ none
]

-- The bytes of the reply, in a list of the texts that are sent.
unfoldable pub answer : HeartbeatMessage → List (List ℕ)
unfolding reply_to
answer msg = elim (reply_to msg) [ none ↦ [] | some reply ↦ encode_heartbeat reply ∷ [] ]

-- The loop over the frames of the buffer: what is sent, in order, and what of the buffer is left;
-- `none` where a frame is not decoded.
unfoldable pub answer_frames : ℕ → List ℕ → List (List ℕ) × Option (List ℕ)
answer_frames zero rest = ([], some rest)
answer_frames (suc fuel) rest = elim (leb heartbeat_message_size (length rest)) [
  | Bool.true ↦ elim (decode_heartbeat (take heartbeat_message_size rest)) [
    | some msg ↦
        let (sent, left) = answer_frames fuel (drop heartbeat_message_size rest) in
        (answer msg ++ sent, left)
    | none ↦ ([], none)
  ]
  | Bool.false ↦ ([], some rest)
]

unfoldable pub send_all : ℕ → List (List ℕ) → EchoPeer → EchoPeer
send_all fd [] p = p
send_all fd (bytes ∷ rest) p = send_all fd rest (log_peer (send_to fd bytes) p)

-- What becomes of the client after the loop over its frames.
unfoldable pub after_frames : ℕ → List (List ℕ) × Option (List ℕ) → EchoPeer → EchoPeer
after_frames fd (sent, none) p = close_client fd (send_all fd sent p)
after_frames fd (sent, some rest) p = record (send_all fd sent p) {
  clients = put_buffer fd rest p.clients;
}

-- `handle_client` behind its `recv` loop. Every frame takes 28 bytes, so one round for each byte is
-- enough.
unfoldable pub after_read : ℕ → List ℕ × Bool → EchoPeer → EchoPeer
after_read fd (buf, Bool.true) p = close_client fd p
after_read fd (buf, Bool.false) p = after_frames fd (answer_frames (length buf) buf) p

unfoldable pub serve : ℕ → Recvs → List ℕ → EchoPeer → EchoPeer
serve fd recvs buf p = after_read fd (read_all recvs buf) p

-- `hangup` is EPOLLHUP or EPOLLERR.
unfoldable pub handle_client : ℕ → Bool → Recvs → EchoPeer → EchoPeer
handle_client fd hangup recvs p =
    if hangup
    then close_client fd p
    else elim (find_buffer fd p.clients) [ none ↦ p | some buf ↦ serve fd recvs buf p ]
