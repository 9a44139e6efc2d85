-- ===== src/FeedSimulator/DueReplies.antt =====
-- A tick and a kill keep each waiting reply with a client that is still there.
use vigil_low_latency_tcp_he.Prelude.{
  ℕ, ◌≡◌, refl, ◌∙◌, inl, inr, List, [], ◌∷◌, get_elem?, length, Bool-cases, Option-cases, ◌+◌,
}
use vigil_low_latency_tcp_he.Prelude.Int.{ℤ, ltb_ℤ}
use vigil_low_latency_tcp_he.Connection.{Env, send_pong, set_linger}
use vigil_low_latency_tcp_he.Connection.StateMachine.{send_pong-Moves}
use vigil_low_latency_tcp_he.Connection.Caller.{send_pong-caller}
use vigil_low_latency_tcp_he.FeedSimulator.Types.{
  FeedSimulator, Faults, PendingReply, Chance, find_client,
}
use vigil_low_latency_tcp_he.FeedSimulator.Clients.{
  log_call, with_clients, sync_epoll_interest, time_out_clients, remove_clients, fire_reply,
  fire_replies, on_timer_tick, kill_at, kill_random_connection,
}
use vigil_low_latency_tcp_he.FeedSimulator.Table.{
  Clients, has_client, has_client-put, Intercepted-find, Owned, Owned-same,
}
use vigil_low_latency_tcp_he.FeedSimulator.Replies.{
  IsAccounted, remove_client-IsAccounted, time_out_clients-keys, time_out_clients-Intercepted,
  remove_clients-IsAccounted, put_client-IsAccounted,
}

module _ (chance : Chance) where
  fire_reply-IsAccounted :
      (p : PendingReply) (s : FeedSimulator) (e : Env Faults)
      → IsAccounted chance s e
      → IsAccounted chance (fire_reply p s e).0 (fire_reply p s e).1
  unfolding fire_reply sync_epoll_interest
  fire_reply-IsAccounted p s e h = elim (Option-cases (find_client p.fd s.clients)) [
    | inl gone ↦ rw (fire_reply, gone) h
    | inr (conn, found) ↦
        let r = send_pong conn e p.sequence p.timestamp_ns in
        let i = Intercepted-find chance p.fd s.clients conn h.0 found in
        rw (fire_reply, found)
          (put_client-IsAccounted chance p.fd s (r.0) (r.1)
            ((send_pong-Moves conn e p.sequence p.timestamp_ns).0.2 ∙ i)
            (h.0, rw (send_pong-caller conn e p.sequence p.timestamp_ns) h.1))
  ]

  -- The table behind the loop has the same descriptors, so what is still pending has its clients.
  fire_reply-keys :
      (p : PendingReply) (s : FeedSimulator) (e : Env Faults) (fd : ℕ)
      → has_client fd (fire_reply p s e).0.clients ≡ has_client fd s.clients
  unfolding fire_reply
  fire_reply-keys p s e fd = elim (Option-cases (find_client p.fd s.clients)) [
    | inl gone ↦ rw (fire_reply, gone) refl
    | inr (conn, found) ↦ rw (fire_reply, found) (has_client-put p.fd fd _ s.clients)
  ]

  fire_replies-IsAccounted :
      (now : ℤ) (pending : List PendingReply) (s : FeedSimulator) (e : Env Faults)
      → IsAccounted chance s e
      → Owned s.clients pending
      → let r = fire_replies now pending s e in
        IsAccounted chance r.0.0 r.0.1
        × Owned r.0.0.clients r.1
        × ((fd : ℕ) → has_client fd r.0.0.clients ≡ has_client fd s.clients)
  unfolding fire_replies
  fire_replies-IsAccounted now [] s e h owned = (h, tt, λ fd. refl)
  fire_replies-IsAccounted now (p ∷ pending) s e h owned =
      elim (Bool-cases (ltb_ℤ now p.fire_at_ns)) [
        | inl waits ↦
            let kept = fire_replies-IsAccounted now pending s e h owned.1 in
            rw (fire_replies, waits) (kept.0, (kept.2 p.fd ∙ owned.0, kept.1), kept.2)
        | inr due ↦
            let r = fire_reply p s e in
            let kept =
              fire_replies-IsAccounted now pending (r.0) (r.1) (fire_reply-IsAccounted p s e h)
                (Owned-same s.clients r.0.clients pending (fire_reply-keys p s e) owned.1) in
            rw (fire_replies, due) (kept.0, kept.1, λ fd. kept.2 fd ∙ fire_reply-keys p s e fd)
      ]

  pub on_timer_tick-IsAccounted :
      (s : FeedSimulator) (e : Env Faults)
      → IsAccounted chance s e
      → IsAccounted chance (on_timer_tick s e).0 (on_timer_tick s e).1
  unfolding on_timer_tick
  on_timer_tick-IsAccounted s e h =
      let t = time_out_clients s e.clock s.clients in
      let s' = with_clients s (t.0) in
      let r = remove_clients t.1 s' e in
      let h' = remove_clients-IsAccounted chance t.1 s' e (
        time_out_clients-Intercepted chance s e.clock s.clients h.0,
        Owned-same s.clients (t.0) e.caller.pending_replies
            (time_out_clients-keys chance s e.clock s.clients) h.1,
      ) in
      let fired = fire_replies-IsAccounted e.clock r.1.caller.pending_replies (r.0) (r.1) h' h'.1 in
      (fired.0.0, fired.1)

  pub kill_random_connection-IsAccounted :
      (s : FeedSimulator) (e : Env Faults)
      → IsAccounted chance s e
      → IsAccounted chance
          (kill_random_connection chance s e).0
          (kill_random_connection chance s e).1
  unfolding kill_random_connection
  kill_random_connection-IsAccounted s e h = some_client s.clients refl
    where
      e' : Env Faults
      e' = record e { caller = record (e.caller) { draws = e.caller.draws + 1 } }

      at : (place : ℕ) → IsAccounted chance (kill_at place s e').0 (kill_at place s e').1
      at place = elim (Option-cases (get_elem? s.clients place)) [
        | inl beyond ↦ unfold kill_at in rw (kill_at, beyond) h
        | inr ((fd, conn), there) ↦
            unfold kill_at in
            rw (kill_at, there)
              (remove_client-IsAccounted chance fd s (log_call (set_linger fd) e') h)
      ]

      some_client :
          (clients : Clients)
          → s.clients ≡ clients
          → IsAccounted chance
              (kill_random_connection chance s e).0
              (kill_random_connection chance s e).1
      some_client [] none_left = rw (kill_random_connection, none_left) h
      some_client (client ∷ clients) some_left =
          rw (kill_random_connection, some_left)
            (at (chance.pick e.caller.draws (length s.clients)))
