-- ===== src/FeedMonitor/Failure.antt =====
-- What follows a failure: `on_connection_failed`, the backoff, and `initiate_connect`.
use vigil_low_latency_tcp_he.Prelude.{
  ℕ, zero, suc, ◌+◌, min, Bool, true, ◌&&◌, Option, none, some, get_elem?, if◌then◌else◌,
}
use vigil_low_latency_tcp_he.Prelude.Int.{ℤ, pos, negsuc, ◌+ℤ◌, ◌*ℤ◌, leb_ℤ, ltb_ℤ, min_ℤ}
use vigil_low_latency_tcp_he.Prelude.Text.{Text}
use vigil_low_latency_tcp_he.Config.{Config, to_nanoseconds}
use vigil_low_latency_tcp_he.Connection.{
  Connection, rebind, wants_write, epoll_add, epoll_mod, epoll_del,
}
use vigil_low_latency_tcp_he.FeedMonitor.Types.{
  FeedMonitor, Slot, World, map_put, map_erase, log_call, put_slot, create_and_connect_socket,
  epoll_interest_flags,
}

-- The loop of `reconnect_delay_ns`.
unfoldable pub double_delay : ℕ → ℤ → ℤ → ℤ
double_delay zero delay max_delay = delay
double_delay (suc n) delay max_delay =
    let rest = double_delay n (delay *ℤ pos 2) max_delay in
    if ltb_ℤ delay max_delay then rest else delay

-- `reconnect_delay_ns` up to the jitter.
unfoldable pub backoff_ns : Config → ℕ → ℤ
backoff_ns config attempt =
    let max_delay = to_nanoseconds config.reconnect_max_delay in
    let capped_attempt = min attempt 30 in
    min_ℤ (double_delay capped_attempt (to_nanoseconds config.reconnect_base_delay) max_delay)
      max_delay

-- `jitter n` is the multiplication by the n-th number drawn from the generator.
unfoldable pub reconnect_delay_ns : (ℕ → ℤ → ℤ) → Config → ℕ → ℕ → ℤ
reconnect_delay_ns jitter config draws attempt = jitter draws (backoff_ns config attempt)

module _ {S : Type 0} where
  unfoldable pub schedule_reconnect : (ℕ → ℤ → ℤ) → Config → Slot S → ℤ → World S → Slot S × World S
  schedule_reconnect jitter config slot now_ns w =
      if leb_ℤ (pos 0) config.max_reconnect_attempts
        && leb_ℤ config.max_reconnect_attempts (pos slot.reconnect_attempts)
      then (record slot { give_up = true }, w)
      else (
        record slot {
          reconnect_ready_at_ns =
              now_ns +ℤ reconnect_delay_ns jitter config w.draws slot.reconnect_attempts;
          reconnect_attempts = slot.reconnect_attempts + 1;
        },
        record w { draws = w.draws + 1 },
      )

  -- The dead descriptor is no longer watched.
  unfoldable pub unwatch : Option ℕ → FeedMonitor S → World S → FeedMonitor S × World S
  unwatch none m w = (m, w)
  unwatch (some fd) m w =
      (record m { index_of_fd = map_erase m.index_of_fd fd }, log_call (epoll_del fd) w)

  unfoldable pub on_connection_failed :
      (ℕ → ℤ → ℤ) → ℕ → FeedMonitor S → World S → FeedMonitor S × World S
  on_connection_failed jitter index m w = elim (get_elem? m.slots index) [
    | none ↦ (m, w)
    | some slot ↦
        let (m', w') = unwatch slot.connection.fd m w in
        let (slot', w'') = schedule_reconnect jitter m.config slot w'.env.clock w' in
        (put_slot m' index slot', w'')
  ]

  unfoldable pub connect_slot :
      (ℕ → ℤ → ℤ) → ℕ → ℤ → Slot S → Option ℕ → FeedMonitor S → World S → FeedMonitor S × World S
  connect_slot jitter index now_ns slot none m w =
      let (slot', w') = schedule_reconnect jitter m.config slot now_ns w in
      (put_slot m index slot', w')
  connect_slot jitter index now_ns slot (some fd) m w =
      let (c, e) = rebind m.config slot.connection w.env fd now_ns in
      let interest = epoll_interest_flags true (wants_write c) m.config.edge_triggered in
      (
        record (put_slot m index (record slot { connection = c })) {
          index_of_fd = map_put m.index_of_fd fd index;
        },
        log_call (epoll_add fd interest) (record w { env = e }),
      )

  unfoldable pub initiate_connect :
      (ℕ → ℤ → ℤ) → (Text → Bool) → ℕ → ℤ → FeedMonitor S → World S → FeedMonitor S × World S
  initiate_connect jitter parses index now_ns m w = elim (get_elem? m.slots index) [
    | none ↦ (m, w)
    | some slot ↦
        let slot' = record slot { reconnect_ready_at_ns = negsuc 0 } in
        let (fd, w') = create_and_connect_socket parses slot'.connection.host w in
        connect_slot jitter index now_ns slot' fd m w'
  ]

  unfoldable pub sync_epoll_interest : Config → Connection S → World S → World S
  sync_epoll_interest config c w =
      log_call (epoll_mod c.fd (epoll_interest_flags true (wants_write c) config.edge_triggered)) w
