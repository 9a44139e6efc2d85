-- ===== src/FeedSimulator/Ticks.antt =====
-- What an event and a tick leave behind.
use vigil_low_latency_tcp_he.Prelude.{
  ℕ, ◌≡◌, refl, ◌∙◌, ap, sym, Bool, false, ◌&&◌, ◌||◌, not, inl, inr, none, some, List, [], ◌∷◌,
  arith, ◌==◌, if◌then◌else◌, Bool-cases, Option-cases,
}
use vigil_low_latency_tcp_he.Prelude.Int.{ℤ, ltb_ℤ}
use vigil_low_latency_tcp_he.Connection.{Connection, Env, is_failed}
use vigil_low_latency_tcp_he.FeedMonitor.{SocketEvent}
use vigil_low_latency_tcp_he.FeedSimulator.Types.{
  FeedSimulator, Faults, PendingReply, find_client, put_client, erase_client, purge_replies,
}
use vigil_low_latency_tcp_he.FeedSimulator.Clients.{
  with_clients, remove_client, client_event, handle_client_event, time_out_clients, remove_clients,
  fire_reply, fire_replies, on_timer_tick,
}
use vigil_low_latency_tcp_he.FeedSimulator.Table.{Clients}

find_client-put :
    (fd : ℕ) (new : Connection Faults) (clients : Clients) (c : Connection Faults)
    → find_client fd (put_client fd new clients) ≡ some c
    → new ≡ c
unfolding find_client put_client
find_client-put fd new [] c h = cc
find_client-put fd new ((key, old) ∷ clients) c h =
    ground (arith, h, find_client-put fd new clients c)

find_client-erase : (fd : ℕ) (clients : Clients) → find_client fd (erase_client fd clients) ≡ none
unfolding find_client erase_client
find_client-erase fd [] = refl
find_client-erase fd ((key, conn) ∷ clients) = ground (arith, find_client-erase fd clients)

-- After an event of a descriptor, a client that is still found there is not failed: a failed one is
-- removed by the event that made it fail.
pub handle_client_event-live :
    (fd : ℕ) (ev : SocketEvent) (now : ℤ) (s : FeedSimulator) (e : Env Faults)
    (c : Connection Faults)
    → find_client fd (handle_client_event fd ev now s e).0.clients ≡ some c
    → is_failed c.state ≡ false
unfolding handle_client_event remove_client
handle_client_event-live fd ev now s e c = elim (Option-cases (find_client fd s.clients)) [
  | inl gone ↦ rw (handle_client_event, gone) (λ h. cc)
  | inr (conn, found) ↦
      let r = client_event s ev now conn e in
      elim (Bool-cases (is_failed r.0.state)) [
        | inl dead ↦
            rw (handle_client_event, found, dead)
              (λ h.
                absurd (none_some (sym (find_client-erase fd (put_client fd (r.0) s.clients)) ∙ h)))
        | inr alive ↦
            rw (handle_client_event, found, alive)
              (λ h.
                ap (λ (d : Connection Faults). is_failed d.state)
                  (sym (find_client-put fd (r.0) s.clients c h))
                ∙ alive)
      ]
]
  where
    none_some : none ≡ some c → ⊥
    none_some e = cc

-- A tick's view of the replies: those that wait on, behind the removal of clients.
pub is_among : ℕ → List ℕ → Bool
is_among fd [] = false
is_among fd (other ∷ fds) = fd == other || is_among fd fds

pub waiting_replies : ℤ → List ℕ → List PendingReply → List PendingReply
waiting_replies now gone [] = []
waiting_replies now gone (p ∷ pending) =
    let rest = waiting_replies now gone pending in
    if ltb_ℤ now p.fire_at_ns && not (is_among p.fd gone) then p ∷ rest else rest

fire_replies-waiting :
    (now : ℤ) (pending : List PendingReply) (s : FeedSimulator) (e : Env Faults)
    → (fire_replies now pending s e).1 ≡ waiting_replies now [] pending
unfolding fire_replies waiting_replies is_among
fire_replies-waiting now [] s e = refl
fire_replies-waiting now (p ∷ pending) s e = elim (Bool-cases (ltb_ℤ now p.fire_at_ns)) [
  | inl waits ↦ rw (fire_replies, waits) (ap (◌∷◌ p) (fire_replies-waiting now pending s e))
  | inr due ↦
      rw (fire_replies, due)
        (fire_replies-waiting now pending (fire_reply p s e).0 (fire_reply p s e).1)
]

waiting_replies-purge :
    (now : ℤ) (fd : ℕ) (gone : List ℕ) (pending : List PendingReply)
    → waiting_replies now gone (purge_replies fd pending) ≡ waiting_replies now (fd ∷ gone) pending
unfolding waiting_replies purge_replies is_among
waiting_replies-purge now fd gone [] = refl
waiting_replies-purge now fd gone (p ∷ pending) =
    ground (arith, waiting_replies-purge now fd gone pending)

remove_clients-waiting :
    (now : ℤ) (fds : List ℕ) (s : FeedSimulator) (e : Env Faults)
    → waiting_replies now [] (remove_clients fds s e).1.caller.pending_replies
      ≡ waiting_replies now fds e.caller.pending_replies
unfolding remove_clients remove_client
remove_clients-waiting now [] s e = refl
remove_clients-waiting now (fd ∷ fds) s e =
    let r = remove_client fd s e in
    remove_clients-waiting now fds (r.0) (r.1)
    ∙ waiting_replies-purge now fd fds e.caller.pending_replies

-- After a tick exactly these replies are pending, in the order that they were: those that are not due
-- yet and whose client did not time out in this tick.
pub on_timer_tick-waiting :
    (s : FeedSimulator) (e : Env Faults)
    → (on_timer_tick s e).1.caller.pending_replies
      ≡ waiting_replies e.clock (time_out_clients s e.clock s.clients).1 e.caller.pending_replies
unfolding on_timer_tick
on_timer_tick-waiting s e =
    let t = time_out_clients s e.clock s.clients in
    let r = remove_clients t.1 (with_clients s (t.0)) e in
    fire_replies-waiting e.clock r.1.caller.pending_replies (r.0) (r.1)
    ∙ remove_clients-waiting e.clock t.1 (with_clients s (t.0)) e
