-- ===== src/Bench/Peer/Examples.antt =====
-- Tests of the echo peer, and its theorem at a concrete input.
use mathlib.Core.List.{append-nil, reverse}
use vigil_low_latency_tcp_he.Prelude.{
  ℕ, ◌≡◌, ◌≢◌, refl, arith, List, [], ◌∷◌, ◌++◌, some, take, drop, take-append-drop, false,
}
use vigil_low_latency_tcp_he.Prelude.Int.{pos}
use vigil_low_latency_tcp_he.Heartbeat.{MessageType, encode_heartbeat}
use vigil_low_latency_tcp_he.Connection.{Recvs, chunk, drained, end_of_file}
use vigil_low_latency_tcp_he.Bench.Peer.Defs.{
  watch, unwatch, close_fd, EchoPeer, find_buffer, erase_buffer, handle_client, close_client, serve,
  after_read, read_all,
}
use vigil_low_latency_tcp_he.Bench.Peer.Loop.{
  new_peer, client, no_more, PeerEvent, ready, run_peer, dispatch_events, dispatch_event,
  accept_loop, accept_client, touch_buffer, destroy_peer, close_clients, PeerWakeup,
}
use vigil_low_latency_tcp_he.Bench.Peer.Stream.{
  Request, request_message, replies, sends, serve_wakeups, serve_wakeups-stream,
}

abbrev event_on : ℕ → Recvs → PeerEvent
event_on fd recvs = record { fd = fd; hangup = false; recvs = recvs; accepts = client 9 no_more }

-- The listener (fd 3) brings client 9, which then closes its end; the peer is destroyed.
abbrev one_batch : List PeerWakeup
one_batch = ready (event_on 3 drained ∷ event_on 9 end_of_file ∷ []) ∷ []

accepted_and_gone :
    (destroy_peer (run_peer one_batch (new_peer 3 4 5 80))).calls
    ≡ close_fd 5
      ∷ close_fd 3
      ∷ close_fd 4
      ∷ close_fd 9
      ∷ unwatch 9
      ∷ watch 9
      ∷ watch 5
      ∷ watch 3
      ∷ []
unfolding destroy_peer close_clients run_peer new_peer dispatch_events dispatch_event accept_loop
    accept_client touch_buffer find_buffer handle_client serve after_read read_all close_client
    erase_buffer
accepted_and_gone = refl

abbrev a_ping : Request
a_ping = record { type = MessageType.ping; feed_id = 7; sequence = 4; timestamp_ns = pos 1500 }

abbrev ping_bytes : List ℕ
ping_bytes = encode_heartbeat (request_message a_ping)

abbrev one_client : EchoPeer
one_client = record (new_peer 3 4 5 80) { clients = (9, []) ∷ []; calls = [] }

-- The PING comes in two reads around an interruption, and the first byte of another frame later.
abbrev two_wakeups : List Recvs
two_wakeups =
    chunk (take 10 ping_bytes) (Recvs.interrupted (chunk (drop 10 ping_bytes) drained))
    ∷ chunk (254 ∷ []) drained
    ∷ []

serve_wakeups-stream_example :
    ((serve_wakeups 9 two_wakeups one_client).calls
      ≡ reverse (sends 9 (replies (a_ping ∷ []))) ++ one_client.calls)
    × (find_buffer 9 (serve_wakeups 9 two_wakeups one_client).clients ≡ some (254 ∷ []))
    × ((other : ℕ)
        → 9 ≢ other
        → find_buffer other (serve_wakeups 9 two_wakeups one_client).clients
          ≡ find_buffer other one_client.clients)
unfolding find_buffer
serve_wakeups-stream_example =
    serve_wakeups-stream 9 (a_ping ∷ []) (254 ∷ []) two_wakeups one_client (omega arith)
      (omega arith) (tt, (tt, tt)) (simp (append-nil, take-append-drop)) refl
