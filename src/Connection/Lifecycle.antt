-- ===== src/Connection/Lifecycle.antt =====
-- The whole life of a connection between two descriptors: any calls, in any order.
use vigil_low_latency_tcp_he.Prelude.{
  ℕ, ◌≡◌, refl, subst, ◌∙◌, Bool, true, false, List, [], ◌∷◌, arith, length,
}
use vigil_low_latency_tcp_he.Prelude.Int.{ℤ}
use vigil_low_latency_tcp_he.Config.{Config}
use vigil_low_latency_tcp_he.Connection.Types.{
  Connection, Env, ConnectionState, Role, Recvs, is_initiator, handle_socket_error,
  handle_peer_closed, handle_protocol_violation, new_connection, SendResult,
}
use vigil_low_latency_tcp_he.Connection.Handlers.{send_pong, handle_message}
use vigil_low_latency_tcp_he.Connection.Events.{
  ReadEnd, closed, empty, overflow, error, recv_loop, drain_loop, drain_read_buffer, finish_read,
  after_reads, on_readable, on_writable, on_hangup_or_error,
}
use vigil_low_latency_tcp_he.Connection.Drain.{drain_loop_rule}
use vigil_low_latency_tcp_he.Connection.Timers.{send_ping, check_timeout, reset_liveness_baseline}
use vigil_low_latency_tcp_he.Prelude.Text.{Text}
use vigil_low_latency_tcp_he.Connection.Types.{initial_state, SendResult}
use vigil_low_latency_tcp_he.Connection.StateMachine.{
  can_step, Reaches, here, next, Reaches-trans, IsSame, Moves, handle_message-Moves,
  send_ping-Moves, check_timeout-Moves, on_writable-Moves, send_pong-Moves, Moves-refl, stays,
}

module _ {S : Type 0} where
  -- A drained buffer is a run of handled messages.
  abbrev pub Onward : Connection S → Connection S → Type 0
  Onward c d = IsSame c d × Reaches c.role c.state d.state

  pub Onward-step : (c d : Connection S) → Moves c d → Onward c d
  Onward-step c d m = (m.0, next here m.1)

  pub Onward-trans : (c d f : Connection S) → Onward c d → Onward d f → Onward c f
  Onward-trans c d f p q = (
    (q.0.0 ∙ p.0.0, q.0.1 ∙ p.0.1, q.0.2 ∙ p.0.2, q.0.3 ∙ p.0.3),
    Reaches-trans p.1 (subst (λ r. Reaches r d.state f.state) p.0.0 q.1),
  )

  pub drain_loop-Onward :
      (config : Config) (now : ℤ) (fuel : ℕ) (c : Connection S) (e : Env S) (rest : List ℕ)
      → Onward c (drain_loop config now fuel c e rest).0
  drain_loop-Onward config now fuel c e rest =
      drain_loop_rule config now (λ d f. Onward c d) (λ d f r p. p)
        (λ d f p.
          Onward-trans c d (handle_protocol_violation d now) p
            (Onward-step d (handle_protocol_violation d now) (violated d)))
        (λ d f m p. Onward-trans c d (handle_message config d f m now).0 p (
          Onward-step d (handle_message config d f m now).0
            (handle_message-Moves config d f m now)))
        fuel c e rest ((refl, refl, refl, refl), here)
    where
      violated : (d : Connection S) → Moves d (handle_protocol_violation d now)
      violated d = unfold handle_protocol_violation in ((refl, refl, refl, refl), refl)

  finish_read-Moves : (how : ReadEnd) (c : Connection S) (now : ℤ) → Moves c (finish_read how c now)
  unfolding finish_read handle_peer_closed handle_socket_error
  finish_read-Moves closed c now = ground (arith, stays c.role c.state)
  finish_read-Moves empty c now = Moves-refl c
  finish_read-Moves overflow c now = Moves-refl c
  finish_read-Moves (error err) c now = ground (arith, stays c.role c.state)

  read_end-Onward :
      (config : Config) (now : ℤ) (how : ReadEnd) (c : Connection S) (e : Env S)
      → Onward c (finish_read how (drain_read_buffer config now c e).0 now)
  unfolding drain_read_buffer
  read_end-Onward config now how c e =
      let d : Connection S = (drain_loop config now (length c.read_accum) c e c.read_accum).0 in
      Onward-trans c d (finish_read how d now)
        (drain_loop-Onward config now (length c.read_accum) c e c.read_accum)
        (Onward-step d (finish_read how d now) (finish_read-Moves how d now))

  after_recv :
      (config : Config) (now : ℤ) (c : Connection S) (e : Env S) (accum : List ℕ) (how : ReadEnd)
      → Onward c (after_reads config now how (record c { read_accum = accum }) e).0
  unfolding after_reads handle_protocol_violation
  after_recv config now c e accum overflow = ((refl, refl, refl, refl), next here refl)
  after_recv config now c e accum closed =
      read_end-Onward config now closed (record c { read_accum = accum }) e
  after_recv config now c e accum empty =
      read_end-Onward config now empty (record c { read_accum = accum }) e
  after_recv config now c e accum (error err) =
      read_end-Onward config now (error err) (record c { read_accum = accum }) e

  pub on_readable-Onward :
      (config : Config) (now : ℤ) (recvs : Recvs) (c : Connection S) (e : Env S)
      → Onward c (on_readable config now recvs c e).0
  unfolding on_readable
  on_readable-Onward config now recvs c e =
      after_recv config now c e (recv_loop recvs c.read_accum).0 (recv_loop recvs c.read_accum).1

-- A call on the connection by its owner.
pub data Call : Type 0 where
  readable : Recvs → Call
  writable : (so_error : ℕ) → Call
  hangup ping timeout rebaseline : Call
  pong : (sequence : ℕ) → (timestamp_ns : ℤ) → Call

-- A call with the time that it is made at, the configuration of that time and the sends that it meets.
pub record Moment : Type 0 where
  pub call : Call
  pub now_ns : ℤ
  pub clock : ℤ
  pub config : Config
  pub sends : List SendResult

module _ {S : Type 0} where
  pub perform : Call → Config → ℤ → Connection S → Env S → Connection S × Env S
  perform (readable recvs) config now c e = on_readable config now recvs c e
  perform (writable so_error) config now c e = on_writable config now so_error c e
  perform hangup config now c e = (on_hangup_or_error c now, e)
  perform ping config now c e = send_ping c e now
  perform timeout config now c e = ((check_timeout config c now).0, e)
  perform rebaseline config now c e = (reset_liveness_baseline c now, e)
  perform (pong sequence timestamp_ns) config now c e = send_pong c e sequence timestamp_ns

  pub live : List Moment → Connection S → Env S → Connection S × Env S
  live [] c e = (c, e)
  live (m ∷ ms) c e =
      let e' = record e { sends = m.sends; clock = m.clock } in
      let r = perform m.call m.config m.now_ns c e' in live ms (r.0) (r.1)

  perform-Onward :
      (call : Call) (config : Config) (now : ℤ) (c : Connection S) (e : Env S)
      → Onward c (perform call config now c e).0
  unfolding perform on_hangup_or_error reset_liveness_baseline
  perform-Onward (readable recvs) config now c e = on_readable-Onward config now recvs c e
  perform-Onward (writable so_error) config now c e =
      Onward-step c (on_writable config now so_error c e).0
        (on_writable-Moves config now so_error c e)
  perform-Onward hangup config now c e = ((refl, refl, refl, refl), next here refl)
  perform-Onward ping config now c e = Onward-step c (send_ping c e now).0 (send_ping-Moves c e now)
  perform-Onward timeout config now c e =
      Onward-step c (check_timeout config c now).0 (check_timeout-Moves config c now)
  perform-Onward rebaseline config now c e = ((refl, refl, refl, refl), here)
  perform-Onward (pong sequence t) config now c e =
      Onward-step c (send_pong c e sequence t).0 (send_pong-Moves c e sequence t)

  -- Over any calls in any order (`rebind` left out) the role, the feed id, the interceptor of PINGs
  -- and the descriptor stay, and the state follows a path through the transition table `can_step`.
  pub live-Onward : (ms : List Moment) (c : Connection S) (e : Env S) → Onward c (live ms c e).0
  unfolding live
  live-Onward [] c e = ((refl, refl, refl, refl), here)
  live-Onward (m ∷ ms) c e =
      let e' = record e { sends = m.sends; clock = m.clock } in
      let r = perform m.call m.config m.now_ns c e' in
      Onward-trans c (r.0) (live ms (r.0) (r.1)).0 (perform-Onward m.call m.config m.now_ns c e')
        (live-Onward ms (r.0) (r.1))

-- The states in which a `Connection` of a role is ever found.
abbrev pub is_own : Role → ConnectionState → Bool
is_own r ConnectionState.disconnected = false
is_own r ConnectionState.reconnecting = false
is_own r ConnectionState.connecting = is_initiator r
is_own r ConnectionState.degraded = is_initiator r
is_own r s = true

Reaches-own :
    {r : Role} {s t : ConnectionState} → is_own r s ≡ true → Reaches r s t → is_own r t ≡ true
Reaches-own h here = h
Reaches-own {r} h (next {t = t} {u = u} p step) = keep r t u (Reaches-own h p) step
  where
    keep :
        (r : Role) (t u : ConnectionState)
        → is_own r t ≡ true
        → can_step r t u ≡ true
        → is_own r u ≡ true
    keep r t u h step = ground arith

-- From its construction on, after any calls in any order (`rebind` left out), a connection is neither
-- `disconnected` nor `reconnecting`, and an accepted one is neither `connecting` nor `degraded`.
pub live-own :
    {S : Type 0} (fd : ℕ) (role : Role) (feed_id : ℕ) (host : Text) (port : ℕ) (config : Config)
    (ms : List Moment) (e : Env S)
    → let (c, e') = new_connection fd role feed_id host port config e in
      is_own role (live ms c e').0.state ≡ true
unfolding new_connection
live-own fd role feed_id host port config ms e =
    let start = new_connection fd role feed_id host port config e in
    Reaches-own (initial role) (live-Onward ms (start.0) (start.1)).1
  where
    initial : (r : Role) → is_own r (initial_state r) ≡ true
    initial Role.initiator = refl
    initial Role.responder = refl

pub Reaches-failed :
    {r : Role} {s t : ConnectionState}
    → s ≡ ConnectionState.failed
    → Reaches r s t
    → t ≡ ConnectionState.failed
Reaches-failed h here = h
Reaches-failed {r} h (next {t = t} {u = u} p step) = keep r t u (Reaches-failed h p) step
  where
    keep :
        (r : Role) (t u : ConnectionState)
        → t ≡ ConnectionState.failed
        → can_step r t u ≡ true
        → u ≡ ConnectionState.failed
    keep r t u h step = ground arith

-- A failed connection is still failed after any calls in any order, `rebind` left out.
pub live-failed :
    {S : Type 0} (ms : List Moment) (c : Connection S) (e : Env S)
    → c.state ≡ ConnectionState.failed
    → (live ms c e).0.state ≡ ConnectionState.failed
live-failed ms c e h = Reaches-failed h (live-Onward ms c e).1
