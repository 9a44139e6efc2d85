-- ===== src/FeedSimulator/Replies.antt =====
-- Every deferred reply belongs to a client that is still there, so none goes to a later connection that
-- got the same descriptor.
use vigil_low_latency_tcp_he.Prelude.{
  ℕ, ◌≡◌, refl, ◌∙◌, Bool, true, false, ◌&&◌, not, inl, inr, some, List, [], ◌∷◌, arith,
  if◌then◌else◌, if_both, All-append, Bool-cases, Option-cases, ◌+◌,
}
use vigil_low_latency_tcp_he.Prelude.Int.{ℤ, pos, ltb_ℤ}
use vigil_low_latency_tcp_he.Connection.{
  Connection, Env, is_failed, on_readable, on_writable, on_hangup_or_error, handle_socket_error,
}
use vigil_low_latency_tcp_he.Connection.StateMachine.{on_writable-Moves, check_timeout-Moves}
use vigil_low_latency_tcp_he.Connection.Lifecycle.{on_readable-Onward}
use vigil_low_latency_tcp_he.Connection.Caller.{on_writable-caller, on_readable_rule}
use vigil_low_latency_tcp_he.FeedMonitor.{SocketEvent}
use vigil_low_latency_tcp_he.FeedSimulator.Types.{
  FeedSimulator, Faults, PendingReply, Chance, defer_reply, on_ping_intercept, find_client,
  put_client,
}
use vigil_low_latency_tcp_he.FeedSimulator.Clients.{
  with_clients, sync_epoll_interest, remove_client, client_event, handle_client_event,
  time_out_clients, remove_clients,
}
use vigil_low_latency_tcp_he.FeedSimulator.Table.{
  Clients, has_client, has_client-put, has_client-find, Intercepted, Intercepted-find,
  Intercepted-put, Intercepted-erase, Owned, Owned-purge, Owned-same,
}

on_ping_intercept-Owned :
    (chance : Chance) (fd : ℕ) (clients : Clients) (f : Faults) (sequence : ℕ) (t : ℤ)
    → has_client fd clients ≡ true
    → Owned clients f.pending_replies
    → Owned clients (on_ping_intercept chance fd f sequence t).0.pending_replies
unfolding on_ping_intercept defer_reply
on_ping_intercept-Owned chance fd clients f sequence t here h =
    let unlucky = chance.positive f.config.drop_probability in
    if_both (λ (r : Faults × Bool). Owned clients r.0.pending_replies)
      (unlucky && chance.below f.draws f.config.drop_probability) (drawn unlucky)
      (if_both (λ (r : Faults × Bool). Owned clients r.0.pending_replies)
        (ltb_ℤ (pos 0) f.config.extra_latency) (deferred unlucky) (drawn unlucky))
  where
    drawn :
        (b : Bool)
        → Owned clients (if b then record f { draws = f.draws + 1 } else f).pending_replies
    drawn true = h
    drawn false = h

    deferred :
        (b : Bool)
        → Owned clients
            (defer_reply chance fd
              (if b then record f { draws = f.draws + 1 } else f)
              sequence
              t).pending_replies
    deferred b =
        All-append (λ (p : PendingReply). has_client p.fd clients ≡ true)
          (if b then record f { draws = f.draws + 1 } else f).pending_replies _ (drawn b) (here, tt)

module _ (chance : Chance) where
  -- Each client's interceptor works under the client's descriptor, and each waiting reply belongs to a
  -- client.
  abbrev pub IsAccounted : FeedSimulator → Env Faults → Type 0
  IsAccounted s e = Intercepted chance s.clients × Owned s.clients e.caller.pending_replies

  pub remove_client-IsAccounted :
      (fd : ℕ) (s : FeedSimulator) (e : Env Faults)
      → IsAccounted s e
      → IsAccounted (remove_client fd s e).0 (remove_client fd s e).1
  unfolding remove_client
  remove_client-IsAccounted fd s e h = (
    Intercepted-erase chance fd s.clients h.0,
    Owned-purge fd s.clients e.caller.pending_replies h.1,
  )

  pub remove_clients-IsAccounted :
      (fds : List ℕ) (s : FeedSimulator) (e : Env Faults)
      → IsAccounted s e
      → IsAccounted (remove_clients fds s e).0 (remove_clients fds s e).1
  unfolding remove_clients
  remove_clients-IsAccounted [] s e h = h
  remove_clients-IsAccounted (fd ∷ fds) s e h =
      let r = remove_client fd s e in
      remove_clients-IsAccounted fds (r.0) (r.1) (remove_client-IsAccounted fd s e h)

  pub time_out_clients-keys :
      (s : FeedSimulator) (now : ℤ) (clients : Clients) (fd : ℕ)
      → has_client fd (time_out_clients s now clients).0 ≡ has_client fd clients
  unfolding time_out_clients has_client
  time_out_clients-keys s now [] fd = refl
  time_out_clients-keys s now ((key, conn) ∷ clients) fd =
      rw (time_out_clients-keys s now clients fd) refl

  pub time_out_clients-Intercepted :
      (s : FeedSimulator) (now : ℤ) (clients : Clients)
      → Intercepted chance clients
      → Intercepted chance (time_out_clients s now clients).0
  unfolding time_out_clients
  time_out_clients-Intercepted s now [] h = tt
  time_out_clients-Intercepted s now ((key, conn) ∷ clients) h = (
    (check_timeout-Moves s.config conn now).0.2 ∙ h.0,
    time_out_clients-Intercepted s now clients h.1,
  )

  -- A client's connection after an event, in the table.
  pub put_client-IsAccounted :
      (fd : ℕ) (s : FeedSimulator) (c : Connection Faults) (e : Env Faults)
      → c.ping_interceptor ≡ some (on_ping_intercept chance fd)
      → IsAccounted s e
      → IsAccounted (with_clients s (put_client fd c s.clients)) e
  put_client-IsAccounted fd s c e i h = (
    Intercepted-put chance fd c s.clients i h.0,
    Owned-same s.clients (put_client fd c s.clients) e.caller.pending_replies
        (λ other. has_client-put fd other c s.clients) h.1,
  )

  client_event-interceptor :
      (s : FeedSimulator) (ev : SocketEvent) (now : ℤ) (c : Connection Faults) (e : Env Faults)
      → (client_event s ev now c e).0.ping_interceptor ≡ c.ping_interceptor
  unfolding client_event on_hangup_or_error handle_socket_error
  client_event-interceptor s ev now c e =
      let r = on_readable s.config now ev.recvs c e in
      ground (
        arith,
        (on_readable-Onward s.config now ev.recvs c e).0.2,
        (on_writable-Moves s.config now ev.so_error c e).0.2,
        (on_writable-Moves s.config now ev.so_error (r.0) (r.1)).0.2,
      )

  client_event-Owned :
      (fd : ℕ) (s : FeedSimulator) (ev : SocketEvent) (now : ℤ) (c : Connection Faults)
      (e : Env Faults)
      → c.ping_interceptor ≡ some (on_ping_intercept chance fd)
      → has_client fd s.clients ≡ true
      → Owned s.clients e.caller.pending_replies
      → Owned s.clients (client_event s ev now c e).1.caller.pending_replies
  unfolding client_event
  client_event-Owned fd s ev now c e i here h =
      if_both P ev.hangup h (writable _ (readable ev.readable))
    where
      P : Connection Faults × Env Faults → Type 0
      P r = Owned s.clients r.1.caller.pending_replies

      readable : (b : Bool) → P (if b then on_readable s.config now ev.recvs c e else (c, e))
      readable true =
          on_readable_rule s.config now (on_ping_intercept chance fd)
            (λ f. Owned s.clients f.pending_replies)
            (λ f sequence t. on_ping_intercept-Owned chance fd s.clients f sequence t here) ev.recvs
            c e i h
      readable false = h

      writable :
          (r : Connection Faults × Env Faults)
          → P r
          → P (
              if not (is_failed r.0.state) && ev.writable
              then on_writable s.config now ev.so_error (r.0) (r.1)
              else (r.0, r.1))
      writable r p =
          if_both P (not (is_failed r.0.state) && ev.writable)
            (rw (on_writable-caller s.config now ev.so_error (r.0) (r.1)) p) p

  pub handle_client_event-IsAccounted :
      (fd : ℕ) (ev : SocketEvent) (now : ℤ) (s : FeedSimulator) (e : Env Faults)
      → IsAccounted s e
      → IsAccounted (handle_client_event fd ev now s e).0 (handle_client_event fd ev now s e).1
  unfolding handle_client_event sync_epoll_interest
  handle_client_event-IsAccounted fd ev now s e h = elim (Option-cases (find_client fd s.clients)) [
    | inl gone ↦ rw (handle_client_event, gone) h
    | inr (conn, found) ↦
        let i = Intercepted-find chance fd s.clients conn h.0 found in
        let r = client_event s ev now conn e in
        let owned =
          client_event-Owned fd s ev now conn e i (has_client-find fd s.clients conn found) h.1 in
        let s' = with_clients s (put_client fd (r.0) s.clients) in
        let h' =
          put_client-IsAccounted fd s (r.0) (r.1) (client_event-interceptor s ev now conn e ∙ i)
            (h.0, owned) in
        elim (Bool-cases (is_failed r.0.state)) [
          | inl dead ↦
              rw (handle_client_event, found, dead) (remove_client-IsAccounted fd s' (r.1) h')
          | inr alive ↦ rw (handle_client_event, found, alive) h'
        ]
  ]
