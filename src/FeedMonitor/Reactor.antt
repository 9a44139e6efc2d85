-- ===== src/FeedMonitor/Reactor.antt =====
-- What the reactor's loop calls: `handle_connection_event` and `on_timer_tick`; and the settings.
use vigil_low_latency_tcp_he.Prelude.{
  ℕ, zero, suc, ◌+◌, Bool, ◌&&◌, ◌||◌, not, none, some, List, [], ◌∷◌, length, get_elem?, map,
  if◌then◌else◌,
}
use vigil_low_latency_tcp_he.Prelude.Int.{ℤ, pos, ◌+ℤ◌, leb_ℤ}
use vigil_low_latency_tcp_he.Prelude.Text.{Text}
use vigil_low_latency_tcp_he.Config.{Config, to_nanoseconds}
use vigil_low_latency_tcp_he.Connection.{
  Connection, Env, is_failed, is_healthy, is_degraded, is_connecting, is_handshaking,
  on_hangup_or_error, on_writable, on_readable, send_ping, check_timeout, reset_liveness_baseline,
}
use vigil_low_latency_tcp_he.FeedMonitor.Types.{
  FeedMonitor, Slot, World, SocketEvent, FeedSnapshot, AggregateStats, put_slot,
}
use vigil_low_latency_tcp_he.FeedMonitor.Failure.{
  on_connection_failed, initiate_connect, sync_epoll_interest,
}

module _ {S : Type 0} where
  -- What the event does to the connection. EPOLLOUT is handled before EPOLLIN.
  unfoldable pub connection_event :
      Config → SocketEvent → ℤ → Connection S → Env S → Connection S × Env S
  connection_event config ev now_ns c e =
      if ev.hangup
      then (on_hangup_or_error c now_ns, e)
      else let (c', e') =
          if ev.writable then on_writable config now_ns ev.so_error c e else (c, e) in
        if not (is_failed c'.state) && ev.readable
        then on_readable config now_ns ev.recvs c' e'
        else (c', e')

  unfoldable pub handle_connection_event :
      (ℕ → ℤ → ℤ) → ℕ → SocketEvent → ℤ → FeedMonitor S → World S → FeedMonitor S × World S
  handle_connection_event jitter index ev now_ns m w = elim (get_elem? m.slots index) [
    | none ↦ (m, w)
    | some slot ↦
        let (c, e) = connection_event m.config ev now_ns slot.connection w.env in
        let m' = put_slot m index (record slot { connection = c }) in
        let w' = record w { env = e } in
        if is_failed c.state
        then on_connection_failed jitter index m' w'
        else (m', sync_epoll_interest m.config c w')
  ]

  -- One PING when it is due.
  unfoldable pub ping_slot : Config → Slot S → ℤ → World S → Slot S × World S
  ping_slot config slot now_ns w =
      if leb_ℤ slot.next_ping_due_ns now_ns
      then (let (c, e) = send_ping slot.connection w.env now_ns in
          (
            record slot {
              connection = c;
              next_ping_due_ns = now_ns +ℤ to_nanoseconds config.heartbeat_interval;
            },
            sync_epoll_interest config c (record w { env = e }),
          ))
      else (slot, w)

  -- `if (slot.connection.check_timeout(now_ns)) on_connection_failed(i);`
  unfoldable pub time_out_slot :
      (ℕ → ℤ → ℤ) → ℕ → Slot S → ℤ → FeedMonitor S → World S → FeedMonitor S × World S
  time_out_slot jitter index slot now_ns m w =
      let (c, expired) = check_timeout m.config slot.connection now_ns in
      let m' = put_slot m index (record slot { connection = c }) in
      if expired then on_connection_failed jitter index m' w else (m', w)

  unfoldable pub tick_slot :
      (ℕ → ℤ → ℤ) → (Text → Bool) → ℕ → ℤ → FeedMonitor S → World S → FeedMonitor S × World S
  tick_slot jitter parses index now_ns m w = elim (get_elem? m.slots index) [
    | none ↦ (m, w)
    | some slot ↦
        let state = slot.connection.state in
        if is_healthy state || is_degraded state
        then (let (slot', w') = ping_slot m.config slot now_ns w in
            time_out_slot jitter index slot' now_ns m w')
        else if is_connecting state || is_handshaking state
        then time_out_slot jitter index slot now_ns m w
        else if is_failed state
            && (not slot.give_up
                && (leb_ℤ (pos 0) slot.reconnect_ready_at_ns
                    && leb_ℤ slot.reconnect_ready_at_ns now_ns))
        then initiate_connect jitter parses index now_ns m w
        else (m, w)
  ]

  -- `left` slots from `index` on.
  unfoldable pub tick_slots :
      (ℕ → ℤ → ℤ) → (Text → Bool) → ℤ → ℕ → ℕ → FeedMonitor S → World S → FeedMonitor S × World S
  tick_slots jitter parses now_ns zero index m w = (m, w)
  tick_slots jitter parses now_ns (suc left) index m w =
      let (m', w') = tick_slot jitter parses index now_ns m w in
      tick_slots jitter parses now_ns left (index + 1) m' w'

  -- The counter of the states in `snapshot_stats`.
  unfoldable pub count_slots : (Slot S → Bool) → List (Slot S) → ℕ
  count_slots test [] = 0
  count_slots test (slot ∷ slots) =
      let rest = count_slots test slots in if test slot then rest + 1 else rest

  abbrev pub snapshot_of : Slot S → FeedSnapshot
  snapshot_of slot = record {
    feed_id = slot.connection.feed_id;
    name = slot.name;
    state = slot.connection.state;
    stats = slot.connection.stats;
  }

  unfoldable pub snapshot_stats : FeedMonitor S → AggregateStats
  snapshot_stats m = record {
    healthy_count = count_slots (λ slot. is_healthy slot.connection.state) m.slots;
    degraded_count = count_slots (λ slot. is_degraded slot.connection.state) m.slots;
    failed_count = count_slots (λ slot. is_failed slot.connection.state) m.slots;
    reconnecting_count = count_slots (λ slot. leb_ℤ (pos 0) slot.reconnect_ready_at_ns) m.slots;
    feeds = map snapshot_of m.slots;
  }

  -- The snapshot is what the tick callback is handed.
  unfoldable pub on_timer_tick :
      (ℕ → ℤ → ℤ)
      → (Text → Bool)
      → FeedMonitor S
      → World S
      → (FeedMonitor S × World S) × AggregateStats
  on_timer_tick jitter parses m w =
      let r = tick_slots jitter parses w.env.clock (length m.slots) 0 m w in
      (r, snapshot_stats (r.0))

  unfoldable pub set_heartbeat_interval : ℤ → FeedMonitor S → FeedMonitor S
  set_heartbeat_interval interval m = record m {
    config = record (m.config) { heartbeat_interval = interval };
  }

  abbrev pub rebaseline_slot : ℤ → Slot S → Slot S
  rebaseline_slot now_ns slot = record slot {
    connection = reset_liveness_baseline slot.connection now_ns;
  }

  unfoldable pub set_heartbeat_timeout : ℤ → FeedMonitor S → World S → FeedMonitor S
  set_heartbeat_timeout timeout m w = record m {
    config = record (m.config) { heartbeat_timeout = timeout };
    slots = map (rebaseline_slot w.env.clock) m.slots;
  }
