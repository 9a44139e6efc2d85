-- ===== src/FeedMonitor/Feeds.antt =====
-- Feeds come and go: `add_feed`, `remove_feed`, `force_disconnect` and `force_reconnect`.
use vigil_low_latency_tcp_he.Prelude.{
  ℕ, ◌-◌, Bool, true, false, not, Option, none, some, [], ◌∷◌, ◌++◌, length, get_elem?, set, take,
  ◌==◌, if◌then◌else◌,
}
use vigil_low_latency_tcp_he.Prelude.Int.{ℤ, pos, negsuc}
use vigil_low_latency_tcp_he.Prelude.Text.{Text}
use vigil_low_latency_tcp_he.Config.{FeedEndpoint}
use vigil_low_latency_tcp_he.Connection.{
  Role, new_connection, wants_write, is_failed, epoll_add, on_hangup_or_error, close,
}
use vigil_low_latency_tcp_he.FeedMonitor.Types.{
  FeedMonitor, Slot, World, map_put, map_erase, log_call, put_slot, create_and_connect_socket,
  epoll_interest_flags,
}
use vigil_low_latency_tcp_he.FeedMonitor.Failure.{unwatch, on_connection_failed}

module _ {S : Type 0} where
  -- `add_feed` behind its checks.
  unfoldable pub push_feed : FeedEndpoint → ℕ → FeedMonitor S → World S → FeedMonitor S × World S
  push_feed endpoint fd m w =
      let index = length m.slots in
      let (c, e) =
        new_connection fd Role.initiator endpoint.feed_id endpoint.host endpoint.port m.config
          w.env in
      let slot : Slot S = record {
        connection = c;
        name = endpoint.name;
        reconnect_attempts = 0;
        reconnect_ready_at_ns = negsuc 0;
        give_up = false;
        next_ping_due_ns = pos 0;
      } in
      let interest = epoll_interest_flags true (wants_write c) m.config.edge_triggered in
      (
        record m {
          slots = m.slots ++ slot ∷ [];
          index_of_fd = map_put m.index_of_fd fd index;
          index_of_feed_id = map_put m.index_of_feed_id endpoint.feed_id index;
        },
        log_call (epoll_add fd interest) (record w { env = e }),
      )

  unfoldable pub add_feed :
      (Text → Bool) → FeedEndpoint → FeedMonitor S → World S → (FeedMonitor S × World S) × Bool
  add_feed parses endpoint m w = elim (m.index_of_feed_id endpoint.feed_id) [
    | some index ↦ ((m, w), false)
    | none ↦
        let opened = create_and_connect_socket parses endpoint.host w in
        elim (opened.0) [
          | none ↦ ((m, opened.1), false)
          | some fd ↦ (push_feed endpoint fd m (opened.1), true)
        ]
  ]

  -- The maps' entries of a slot that was moved to `index`.
  unfoldable pub repoint : FeedMonitor S → ℕ → Slot S → FeedMonitor S
  repoint m index moved = record m {
    index_of_fd = elim moved.connection.fd [
      | none ↦ m.index_of_fd
      | some fd ↦
          if not (is_failed moved.connection.state)
          then map_put m.index_of_fd fd index
          else m.index_of_fd
    ];
    index_of_feed_id = map_put m.index_of_feed_id moved.connection.feed_id index;
  }

  -- The last slot takes the place of the removed one.
  unfoldable pub fill_gap : ℕ → FeedMonitor S → FeedMonitor S
  fill_gap index m =
      let last = length m.slots - 1 in
      elim (get_elem? m.slots last) [
        | none ↦ m
        | some moved ↦
            if index == last
            then record m { slots = take last m.slots }
            else record (repoint m index moved) { slots = take last (set m.slots index moved) }
      ]

  -- An assignment of a slot closes the descriptor that it overwrites, and `pop_back` that of the
  -- last one.
  unfoldable pub close_fd : Option ℕ → World S → World S
  close_fd none w = w
  close_fd (some fd) w = log_call (close fd) w

  unfoldable pub remove_slot : ℕ → Slot S → FeedMonitor S → World S → FeedMonitor S × World S
  remove_slot index slot m w =
      let (m', w') = unwatch slot.connection.fd m w in
      (
        fill_gap index (record m' {
          index_of_feed_id = map_erase m'.index_of_feed_id slot.connection.feed_id;
        }),
        close_fd slot.connection.fd w',
      )

  unfoldable pub remove_slot_at : ℕ → FeedMonitor S → World S → FeedMonitor S × World S
  remove_slot_at index m w = elim (get_elem? m.slots index) [
    | none ↦ (m, w)
    | some slot ↦ remove_slot index slot m w
  ]

  unfoldable pub remove_feed : ℕ → FeedMonitor S → World S → FeedMonitor S × World S
  remove_feed feed_id m w = elim (m.index_of_feed_id feed_id) [
    | none ↦ (m, w)
    | some index ↦ remove_slot_at index m w
  ]

  unfoldable pub disconnect_at :
      (ℕ → ℤ → ℤ) → ℕ → Slot S → FeedMonitor S → World S → FeedMonitor S × World S
  disconnect_at jitter index slot m w =
      if not (is_failed slot.connection.state)
      then on_connection_failed jitter index
          (put_slot m index
            (record slot { connection = on_hangup_or_error slot.connection w.env.clock }))
          w
      else (m, w)

  unfoldable pub force_disconnect :
      (ℕ → ℤ → ℤ) → ℕ → FeedMonitor S → World S → FeedMonitor S × World S
  force_disconnect jitter feed_id m w = elim (m.index_of_feed_id feed_id) [
    | none ↦ (m, w)
    | some index ↦ elim (get_elem? m.slots index) [
      | none ↦ (m, w)
      | some slot ↦ disconnect_at jitter index slot m w
    ]
  ]

  unfoldable pub force_reconnect : ℕ → FeedMonitor S → FeedMonitor S
  force_reconnect feed_id m = elim (m.index_of_feed_id feed_id) [
    | none ↦ m
    | some index ↦ elim (get_elem? m.slots index) [
      | none ↦ m
      | some slot ↦
          if is_failed slot.connection.state
          then put_slot m index (record slot {
            give_up = false;
            reconnect_attempts = 0;
            reconnect_ready_at_ns = pos 0;
          })
          else m
    ]
  ]
