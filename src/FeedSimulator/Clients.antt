-- ===== src/FeedSimulator/Clients.antt =====
-- Clients come, are served and go: `accept_new_connections`, `handle_client_event`, `remove_client`,
-- `on_timer_tick` and `kill_random_connection`.
use vigil_low_latency_tcp_he.Prelude.{
  ℕ, Bool, true, false, ◌&&◌, not, none, some, List, [], ◌∷◌, get_elem?, if◌then◌else◌, length, ◌+◌,
}
use vigil_low_latency_tcp_he.Prelude.Int.{ℤ, ltb_ℤ}
use vigil_low_latency_tcp_he.Prelude.Text.{Text}
use vigil_low_latency_tcp_he.Connection.{
  Connection, Role, Env, Syscall, close, epoll_add, epoll_mod, epoll_del, set_linger, is_failed,
  wants_write, new_connection, on_hangup_or_error, on_readable, on_writable, check_timeout,
  send_pong,
}
use vigil_low_latency_tcp_he.FeedMonitor.{SocketEvent, epoll_interest_flags}
use vigil_low_latency_tcp_he.FeedSimulator.Types.{
  FeedSimulator, Faults, FaultConfig, PendingReply, Chance, on_ping_intercept, find_client,
  put_client, erase_client, purge_replies,
}

-- What the `accept4` calls of one wakeup return, with the peer's address and whether `epoll_ctl`
-- takes the descriptor, up to the one that ends the loop.
pub data Accepts : Type 0 where
  accepted : (fd : ℕ) (ip : Text) (port : ℕ) (added : Bool) → Accepts → Accepts
  transient : Accepts → Accepts
  drained failed : Accepts

abbrev pub log_call : Syscall → Env Faults → Env Faults
log_call call e = record e { calls = call ∷ e.calls }

abbrev pub with_clients : FeedSimulator → List (ℕ × Connection Faults) → FeedSimulator
with_clients s clients = record s { clients = clients }

-- `try_emplace`, then `set_ping_interceptor` on the entry.
unfoldable pub emplace_client :
    Chance → ℕ → Text → ℕ → FeedSimulator → Env Faults → FeedSimulator × Env Faults
emplace_client chance fd ip port s e = elim (find_client fd s.clients) [
  | some old ↦
      let conn = record old { ping_interceptor = some (on_ping_intercept chance fd) } in
      (with_clients s (put_client fd conn s.clients), e)
  | none ↦
      let (c, e') = new_connection fd Role.responder s.feed_id ip port s.config e in
      let conn = record c { ping_interceptor = some (on_ping_intercept chance fd) } in
      (with_clients s ((fd, conn) ∷ s.clients), e')
]

unfoldable pub accept_client :
    Chance → ℕ → Text → ℕ → Bool → FeedSimulator → Env Faults → FeedSimulator × Env Faults
accept_client chance fd ip port added s e =
    let (s', e') = emplace_client chance fd ip port s e in
    let e'' =
      log_call (epoll_add fd (epoll_interest_flags true false s.config.edge_triggered)) e' in
    if added
    then (s', e'')
    else (with_clients s' (erase_client fd s'.clients), log_call (close fd) e'')

unfoldable pub accept_new_connections :
    Chance → Accepts → FeedSimulator → Env Faults → FeedSimulator × Env Faults
accept_new_connections chance (accepted fd ip port added more) s e =
    let r = accept_client chance fd ip port added s e in
    accept_new_connections chance more (r.0) (r.1)
accept_new_connections chance (transient more) s e = accept_new_connections chance more s e
accept_new_connections chance drained s e = (s, e)
accept_new_connections chance failed s e = (s, e)

unfoldable pub sync_epoll_interest : FeedSimulator → ℕ → Connection Faults → Env Faults → Env Faults
sync_epoll_interest s fd conn e =
    log_call
      (epoll_mod (some fd) (epoll_interest_flags true (wants_write conn) s.config.edge_triggered)) e

-- The replies that wait for the client go before its descriptor is closed.
unfoldable pub remove_client : ℕ → FeedSimulator → Env Faults → FeedSimulator × Env Faults
remove_client fd s e =
    let purged = record (e.caller) {
      pending_replies = purge_replies fd e.caller.pending_replies;
    } in
    (
      with_clients s (erase_client fd s.clients),
      log_call (close fd) (log_call (epoll_del fd) (record e { caller = purged })),
    )

-- What the event does to the connection. EPOLLIN is handled before EPOLLOUT.
unfoldable pub client_event :
    FeedSimulator
    → SocketEvent
    → ℤ
    → Connection Faults
    → Env Faults
    → Connection Faults × Env Faults
client_event s ev now_ns c e =
    if ev.hangup
    then (on_hangup_or_error c now_ns, e)
    else let (c', e') = if ev.readable then on_readable s.config now_ns ev.recvs c e else (c, e) in
      if not (is_failed c'.state) && ev.writable
      then on_writable s.config now_ns ev.so_error c' e'
      else (c', e')

unfoldable pub handle_client_event :
    ℕ → SocketEvent → ℤ → FeedSimulator → Env Faults → FeedSimulator × Env Faults
handle_client_event fd ev now_ns s e = elim (find_client fd s.clients) [
  | none ↦ (s, e)
  | some conn ↦
      let (c, e') = client_event s ev now_ns conn e in
      let s' = with_clients s (put_client fd c s.clients) in
      if is_failed c.state then remove_client fd s' e' else (s', sync_epoll_interest s' fd c e')
]

-- The loop over `clients_` in `on_timer_tick`: the clients after it, and `failed_fds`.
unfoldable pub time_out_clients :
    FeedSimulator → ℤ → List (ℕ × Connection Faults) → List (ℕ × Connection Faults) × List ℕ
time_out_clients s now_ns [] = ([], [])
time_out_clients s now_ns ((fd, conn) ∷ clients) =
    let (c, expired) = check_timeout s.config conn now_ns in
    let (rest, fds) = time_out_clients s now_ns clients in
    ((fd, c) ∷ rest, if expired then fd ∷ fds else fds)

unfoldable pub remove_clients : List ℕ → FeedSimulator → Env Faults → FeedSimulator × Env Faults
remove_clients [] s e = (s, e)
remove_clients (fd ∷ fds) s e = let r = remove_client fd s e in remove_clients fds (r.0) (r.1)

-- A reply that is due.
unfoldable pub fire_reply : PendingReply → FeedSimulator → Env Faults → FeedSimulator × Env Faults
fire_reply p s e = elim (find_client p.fd s.clients) [
  | none ↦ (s, e)
  | some conn ↦
      let (c, e') = send_pong conn e p.sequence p.timestamp_ns in
      (with_clients s (put_client p.fd c s.clients), sync_epoll_interest s p.fd c e')
]

-- The loop over the pending replies, with `still_pending`.
unfoldable pub fire_replies :
    ℤ
    → List PendingReply
    → FeedSimulator
    → Env Faults
    → (FeedSimulator × Env Faults) × List PendingReply
fire_replies now_ns [] s e = ((s, e), [])
fire_replies now_ns (p ∷ pending) s e = elim (ltb_ℤ now_ns p.fire_at_ns) [
  | true ↦ let r = fire_replies now_ns pending s e in (r.0, p ∷ r.1)
  | false ↦ let fired = fire_reply p s e in fire_replies now_ns pending (fired.0) (fired.1)
]

unfoldable pub on_timer_tick : FeedSimulator → Env Faults → FeedSimulator × Env Faults
on_timer_tick s e =
    let now_ns = e.clock in
    let (clients, failed_fds) = time_out_clients s now_ns s.clients in
    let (s', e') = remove_clients failed_fds (with_clients s clients) e in
    let ((s'', e''), still_pending) = fire_replies now_ns e'.caller.pending_replies s' e' in
    (s'', record e'' { caller = record (e''.caller) { pending_replies = still_pending } })

-- The descriptor is set to linger for no time, then the client is removed.
unfoldable pub kill_at : ℕ → FeedSimulator → Env Faults → FeedSimulator × Env Faults
kill_at place s e = elim (get_elem? s.clients place) [
  | none ↦ (s, e)
  | some (fd, conn) ↦ remove_client fd s (log_call (set_linger fd) e)
]

unfoldable pub kill_random_connection :
    Chance → FeedSimulator → Env Faults → FeedSimulator × Env Faults
kill_random_connection chance s e = elim s.clients [
  | [] ↦ (s, e)
  | client ∷ clients ↦
      kill_at (chance.pick e.caller.draws (length s.clients)) s
        (record e { caller = record (e.caller) { draws = e.caller.draws + 1 } })
]

unfoldable pub set_fault_config : FaultConfig → Env Faults → Env Faults
set_fault_config faults e = record e { caller = record (e.caller) { config = faults } }
