-- ===== src/Bench/Peer/Loop.antt =====
-- The construction of the peer, its loop, and its end.
use vigil_low_latency_tcp_he.Prelude.{
  ℕ, Bool, true, false, none, some, List, [], ◌∷◌, ◌==◌, if◌then◌else◌,
}
use vigil_low_latency_tcp_he.Connection.{Recvs}
use vigil_low_latency_tcp_he.Bench.Peer.Defs.{
  watch, close_fd, EchoPeer, find_buffer, log_peer, handle_client,
}

-- The descriptors that the constructor gets, and the port of `getsockname`; no result is looked at.
unfoldable pub new_peer : (listen_fd epoll_fd wake_fd port : ℕ) → EchoPeer
new_peer listen_fd epoll_fd wake_fd port = record {
  listen_fd = listen_fd;
  epoll_fd = epoll_fd;
  wake_fd = wake_fd;
  port = port;
  clients = [];
  stop_set = false;
  calls = watch wake_fd ∷ watch listen_fd ∷ [];
}

-- What the `accept4` calls of one wakeup return.
pub data PeerAccepts : Type 0 where
  client : ℕ → PeerAccepts → PeerAccepts
  again : PeerAccepts → PeerAccepts
  no_more : PeerAccepts

-- `clients_[fd]` makes an empty buffer where there is none.
unfoldable pub touch_buffer : ℕ → List (ℕ × List ℕ) → List (ℕ × List ℕ)
touch_buffer fd clients = elim (find_buffer fd clients) [
  | none ↦ (fd, []) ∷ clients
  | some old ↦ clients
]

unfoldable pub accept_client : ℕ → EchoPeer → EchoPeer
accept_client fd p = log_peer (watch fd) (record p { clients = touch_buffer fd p.clients })

unfoldable pub accept_loop : PeerAccepts → EchoPeer → EchoPeer
accept_loop (client fd more) p = accept_loop more (accept_client fd p)
accept_loop (again more) p = accept_loop more p
accept_loop no_more p = p

-- One event of `epoll_wait`, with what the calls give while it is handled.
pub record PeerEvent : Type 0 where
  pub fd : ℕ
  pub hangup : Bool
  pub recvs : Recvs
  pub accepts : PeerAccepts

pub data PeerWakeup : Type 0 where
  interrupted failed : PeerWakeup
  ready : List PeerEvent → PeerWakeup
  -- `stop` is called by another thread before the loop looks at the flag again.
  stop_called : PeerWakeup

unfoldable pub stop_peer : EchoPeer → EchoPeer
stop_peer p = record p { stop_set = true }

unfoldable pub dispatch_event : PeerEvent → EchoPeer → EchoPeer
dispatch_event ev p =
    if ev.fd == p.wake_fd
    then p
    else if ev.fd == p.listen_fd
    then accept_loop ev.accepts p
    else handle_client ev.fd ev.hangup ev.recvs p

unfoldable pub dispatch_events : List PeerEvent → EchoPeer → EchoPeer
dispatch_events [] p = p
dispatch_events (ev ∷ events) p = dispatch_events events (dispatch_event ev p)

unfoldable pub run_peer : List PeerWakeup → EchoPeer → EchoPeer
run_peer [] p = p
run_peer (stop_called ∷ wakeups) p = run_peer wakeups (stop_peer p)
run_peer (interrupted ∷ wakeups) p = let rest = run_peer wakeups p in if p.stop_set then p else rest
run_peer (failed ∷ wakeups) p = p
run_peer (ready events ∷ wakeups) p =
    let rest = run_peer wakeups (dispatch_events events p) in if p.stop_set then p else rest

-- `~MultiFeedEchoPeer`.
unfoldable pub close_clients : List (ℕ × List ℕ) → EchoPeer → EchoPeer
close_clients [] p = p
close_clients ((fd, buf) ∷ clients) p = close_clients clients (log_peer (close_fd fd) p)

unfoldable pub destroy_peer : EchoPeer → EchoPeer
destroy_peer p =
    log_peer (close_fd p.wake_fd)
      (log_peer (close_fd p.listen_fd) (log_peer (close_fd p.epoll_fd) (close_clients p.clients p)))
