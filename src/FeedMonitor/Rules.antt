-- ===== src/FeedMonitor/Rules.antt =====
-- Rules for the reactor's handlers: how a property goes through them.
use vigil_low_latency_tcp_he.Prelude.{
  ℕ, ◌≡◌, refl, ap, inl, inr, Bool, true, false, some, arith, Option-cases, Bool-cases, get_elem?,
  get_elem?-set_self, if_both, if◌then◌else◌, not, ◌&&◌,
}
use vigil_low_latency_tcp_he.Prelude.Int.{ℤ, leb_ℤ}
use vigil_low_latency_tcp_he.Prelude.Text.{Text}
use vigil_low_latency_tcp_he.Config.{Config}
use vigil_low_latency_tcp_he.Connection.{
  Connection, ConnectionState, Env, is_failed, on_writable, on_readable, send_ping, check_timeout,
  on_hangup_or_error, handle_socket_error, transition_to,
}
use vigil_low_latency_tcp_he.Connection.StateMachine.{
  Reaches, on_writable-Moves, send_ping-Moves, check_timeout-Moves,
}
use vigil_low_latency_tcp_he.Connection.Lifecycle.{
  Onward, Onward-step, Onward-trans, Reaches-failed, on_readable-Onward,
}
use vigil_low_latency_tcp_he.FeedMonitor.Types.{FeedMonitor, Slot, World, SocketEvent, put_slot}
use vigil_low_latency_tcp_he.FeedMonitor.Feeds.{disconnect_at, force_disconnect, force_reconnect}
use vigil_low_latency_tcp_he.FeedMonitor.Failure.{on_connection_failed, initiate_connect}
use vigil_low_latency_tcp_he.FeedMonitor.Reactor.{
  connection_event, handle_connection_event, ping_slot, time_out_slot, tick_slot,
}
use vigil_low_latency_tcp_he.Connection.Liveness.{check_timeout_alert}
use vigil_low_latency_tcp_he.FeedMonitor.Directory.{place-lt}

state_of_failed : (s : ConnectionState) → is_failed s ≡ true → s ≡ ConnectionState.failed
state_of_failed s h = ground (arith, h)

module _ {S : Type 0} where
  -- A connection that goes on has its descriptor, and is live only if it was.
  pub Onward-IsKept :
      (c d : Connection S)
      → Onward c d
      → (d.fd ≡ c.fd) × (is_failed d.state ≡ false → is_failed c.state ≡ false)
  Onward-IsKept c d p = (
    p.0.3,
    λ live. elim (Bool-cases (is_failed c.state)) [
      | inr alive ↦ alive
      | inl dead ↦ let gone = ap is_failed (Reaches-failed (state_of_failed c.state dead) p.1) in cc
    ],
  )

  pub Onward-refl : (c : Connection S) → Onward c c
  Onward-refl c = ((refl, refl, refl, refl), Reaches.here)

  pub on_hangup_or_error-Onward : (c : Connection S) (now : ℤ) → Onward c (on_hangup_or_error c now)
  unfolding on_hangup_or_error handle_socket_error transition_to
  on_hangup_or_error-Onward c now =
      Onward-step c (on_hangup_or_error c now) ((refl, refl, refl, refl), refl)

  connection_event-Onward :
      (config : Config) (ev : SocketEvent) (now : ℤ) (c : Connection S) (e : Env S)
      → Onward c (connection_event config ev now c e).0
  unfolding connection_event
  connection_event-Onward config ev now c e =
      let P : Connection S × Env S → Type 0 = λ r. Onward c r.0 in
      let w : Connection S × Env S =
        if ev.writable then on_writable config now ev.so_error c e else (c, e) in
      let written : Onward c w.0 =
        if_both P ev.writable
          (Onward-step c (on_writable config now ev.so_error c e).0
            (on_writable-Moves config now ev.so_error c e))
          (Onward-refl c) in
      if_both P ev.hangup (on_hangup_or_error-Onward c now) (
        if_both P (not (is_failed w.0.state) && ev.readable)
          (Onward-trans c (w.0) (on_readable config now ev.recvs (w.0) (w.1)).0 written
            (on_readable-Onward config now ev.recvs (w.0) (w.1)))
          written)

  ping_slot-Onward :
      (config : Config) (slot : Slot S) (now : ℤ) (w : World S)
      → Onward slot.connection (ping_slot config slot now w).0.connection
  unfolding ping_slot
  ping_slot-Onward config slot now w =
      if_both (λ (r : Slot S × World S). Onward slot.connection r.0.connection)
        (leb_ℤ slot.next_ping_due_ns now)
        (Onward-step slot.connection (send_ping slot.connection w.env now).0
          (send_ping-Moves slot.connection w.env now))
        (Onward-refl slot.connection)

module _ {S : Type 0} (P : FeedMonitor S → Type 0)
    (put : (m : FeedMonitor S) (i : ℕ) (old new : Slot S)
      → get_elem? m.slots i ≡ some old
      → Onward old.connection new.connection
      → P m
      → P (put_slot m i new)) where
  pub force_reconnect_rule : (feed_id : ℕ) (m : FeedMonitor S) → P m → P (force_reconnect feed_id m)
  unfolding force_reconnect
  force_reconnect_rule feed_id m p = elim (Option-cases (m.index_of_feed_id feed_id)) [
    | inl unknown ↦ rw (force_reconnect, unknown) p
    | inr (i, known) ↦ elim (Option-cases (get_elem? m.slots i)) [
      | inl gone ↦ rw (force_reconnect, known, gone) p
      | inr (slot, at) ↦ elim (Bool-cases (is_failed slot.connection.state)) [
        | inl dead ↦
            rw (force_reconnect, known, at, dead)
              (put m i slot _ at (Onward-refl slot.connection) p)
        | inr alive ↦ rw (force_reconnect, known, at, alive) p
      ]
    ]
  ]

  module _ (jitter : ℕ → ℤ → ℤ)
      (fail : (i : ℕ) (m : FeedMonitor S) (w : World S) (slot : Slot S)
        → get_elem? m.slots i ≡ some slot
        → is_failed slot.connection.state ≡ true
        → P m
        → P (on_connection_failed jitter i m w).0) where
    put_and_fail_rule :
        (i : ℕ) (m : FeedMonitor S) (w : World S) (old new : Slot S)
        → get_elem? m.slots i ≡ some old
        → Onward old.connection new.connection
        → is_failed new.connection.state ≡ true
        → P m
        → P (on_connection_failed jitter i (put_slot m i new) w).0
    put_and_fail_rule i m w old new at on dead p =
        fail i (put_slot m i new) w new
          (unfold put_slot in get_elem?-set_self m.slots i new (place-lt m.slots i old at)) dead
          (put m i old new at on p)

    pub handle_connection_event_rule :
        (i : ℕ) (ev : SocketEvent) (now : ℤ) (m : FeedMonitor S) (w : World S)
        → P m
        → P (handle_connection_event jitter i ev now m w).0
    unfolding handle_connection_event
    handle_connection_event_rule i ev now m w p = elim (Option-cases (get_elem? m.slots i)) [
      | inl gone ↦ rw (handle_connection_event, gone) p
      | inr (slot, at) ↦
          let r = connection_event m.config ev now slot.connection w.env in
          let new : Slot S = record slot { connection = r.0 } in
          let on = connection_event-Onward m.config ev now slot.connection w.env in
          elim (Bool-cases (is_failed r.0.state)) [
            | inl dead ↦
                rw (handle_connection_event, at, dead)
                  (put_and_fail_rule i m _ slot new at on dead p)
            | inr alive ↦ rw (handle_connection_event, at, alive) (put m i slot new at on p)
          ]
    ]

    pub force_disconnect_rule :
        (feed_id : ℕ) (m : FeedMonitor S) (w : World S)
        → P m
        → P (force_disconnect jitter feed_id m w).0
    unfolding force_disconnect disconnect_at
    force_disconnect_rule feed_id m w p = elim (Option-cases (m.index_of_feed_id feed_id)) [
      | inl unknown ↦ rw (force_disconnect, unknown) p
      | inr (i, known) ↦ elim (Option-cases (get_elem? m.slots i)) [
        | inl gone ↦ rw (force_disconnect, known, gone) p
        | inr (slot, at) ↦ elim (Bool-cases (is_failed slot.connection.state)) [
          | inl dead ↦ rw (force_disconnect, known, at, disconnect_at, dead) p
          | inr alive ↦
              let c = on_hangup_or_error slot.connection w.env.clock in
              rw (force_disconnect, known, at, disconnect_at, alive)
                (put_and_fail_rule i m w slot (record slot { connection = c }) at
                  (on_hangup_or_error-Onward slot.connection w.env.clock)
                  (unfold on_hangup_or_error handle_socket_error transition_to in refl) p)
        ]
      ]
    ]

    time_out_slot_rule :
        (i : ℕ) (old slot : Slot S) (now : ℤ) (m : FeedMonitor S) (w : World S)
        → get_elem? m.slots i ≡ some old
        → Onward old.connection slot.connection
        → P m
        → P (time_out_slot jitter i slot now m w).0
    unfolding time_out_slot
    time_out_slot_rule i old slot now m w at on p =
        let r = check_timeout m.config slot.connection now in
        let new : Slot S = record slot { connection = r.0 } in
        let on' =
          Onward-trans old.connection slot.connection (r.0) on (
            Onward-step slot.connection (r.0) (check_timeout-Moves m.config slot.connection now)) in
        elim (Bool-cases r.1) [
          | inl expired ↦ rw expired (
              put_and_fail_rule i m w old new at on'
                (ap is_failed ((check_timeout_alert m.config slot.connection now).0 expired).0) p)
          | inr fine ↦ rw fine (put m i old new at on' p)
        ]

    pub tick_slot_rule :
        (parses : Text → Bool) (i : ℕ) (now : ℤ) (m : FeedMonitor S) (w : World S)
        → P (initiate_connect jitter parses i now m w).0
        → P m
        → P (tick_slot jitter parses i now m w).0
    unfolding tick_slot
    tick_slot_rule parses i now m w opened p = elim (Option-cases (get_elem? m.slots i)) [
      | inl gone ↦ rw (tick_slot, gone) p
      | inr (slot, at) ↦
          let pinged = ping_slot m.config slot now w in
          let Q : FeedMonitor S × World S → Type 0 = λ r. P r.0 in
          rw (tick_slot, at)
            (if_both Q _
              (time_out_slot_rule i slot (pinged.0) now m (pinged.1) at
                (ping_slot-Onward m.config slot now w) p)
              (if_both Q _
                (time_out_slot_rule i slot slot now m w at (Onward-refl slot.connection) p)
                (if_both Q _ opened p)))
    ]
