-- ===== src/FeedMonitor/Examples.antt =====
-- Runs of the monitor on concrete inputs, and the witnesses of its theorems.
use vigil_low_latency_tcp_he.Prelude.{
  ℕ, ◌≡◌, refl, Bool, true, none, some, [], ◌∷◌, min, ◌*◌, ◌^◌, arith, get_elem?, replicate, ap,
  false, inl,
}
use vigil_low_latency_tcp_he.Prelude.Int.{int_laws, pos, ◌*ℤ◌, negsuc, ℤ, ◌+ℤ◌}
use vigil_low_latency_tcp_he.Prelude.Text.{Text, text}
use vigil_low_latency_tcp_he.Config.{FeedEndpoint, default_config, to_nanoseconds, Config}
use vigil_low_latency_tcp_he.FeedMonitor.Types.{
  FeedMonitor, World, Slot, create_and_connect_socket, open_socket, log_call, map_put, map_erase,
}
use vigil_low_latency_tcp_he.FeedMonitor.Failure.{backoff_ns, reconnect_delay_ns, unwatch}
use vigil_low_latency_tcp_he.FeedMonitor.Feeds.{
  add_feed, remove_feed, push_feed, remove_slot_at, remove_slot, fill_gap, repoint, close_fd,
}
use vigil_low_latency_tcp_he.FeedMonitor.Backoff.{backoff_ns-min}
use vigil_low_latency_tcp_he.Stats.{new_stats}
use vigil_low_latency_tcp_he.Connection.{
  ConnectionState, Role, send_error, send_ping, new_connection, is_failed,
}
use vigil_low_latency_tcp_he.FeedMonitor.Reactor.{tick_slot, handle_connection_event}
use vigil_low_latency_tcp_he.FeedMonitor.System.{
  Reach, start, later, added, removed, Reach-IsRouted, Reach-dispatch,
}
use vigil_low_latency_tcp_he.FeedMonitor.Descriptors.{IsRouted, IsFresh}
use vigil_low_latency_tcp_he.FeedMonitor.Routes.{Holds}
use vigil_low_latency_tcp_he.FeedMonitor.Loop.{Event, OnLine, dispatch}
use vigil_low_latency_tcp_he.CommandInput.{Reads}
use vigil_low_latency_tcp_he.Connection.{Recvs}
use vigil_low_latency_tcp_he.FeedMonitor.GiveUp.{tick_times-IsGivenUp, IsGivenUp}
use vigil_low_latency_tcp_he.FeedMonitor.Reconnect.{tick_times-IsReconnecting, IsReconnecting}
use vigil_low_latency_tcp_he.FeedMonitor.Retries.{tick_times}
use vigil_low_latency_tcp_he.FeedMonitor.Failure.{reconnect_delay_ns}
use vigil_low_latency_tcp_he.FeedMonitor.Ticks.{tick_slot_pinged, tick_slot-broken}

half_second : to_nanoseconds default_config.reconnect_base_delay ≡ pos 500000000
unfolding default_config to_nanoseconds ◌*ℤ◌
half_second = refl

half_minute : to_nanoseconds default_config.reconnect_max_delay ≡ pos 30000000000
unfolding default_config to_nanoseconds ◌*ℤ◌
half_minute = refl

-- The third retry waits four seconds.
four_seconds : min (500000000 * 2 ^ min 3 30) 30000000000 ≡ 4000000000
four_seconds = refl

backoff_ns-min_example :
    backoff_ns default_config 3 ≡ pos (min (500000000 * 2 ^ min 3 30) 30000000000)
backoff_ns-min_example =
    backoff_ns-min default_config 3 500000000 30000000000 half_second half_minute

abbrev no_feeds : FeedMonitor Unit
no_feeds = record {
  slots = [];
  index_of_fd = λ k. none;
  index_of_feed_id = λ k. none;
  config = default_config;
  timer_fd = 4;
  wake_fd = 5;
  command_fd = none;
  command_line_buffer = [];
  stop_requested = false;
  event_batch_size = pos 256;
  epoll_wait_count = 0;
  events_processed_count = 0;
}

abbrev three_sockets : World Unit
three_sockets = record {
  env = record { sends = []; sent = []; clock = pos 5; calls = []; caller = tt };
  sockets = some 8 ∷ some 9 ∷ some 10 ∷ [];
  draws = 0;
}

abbrev feed : ℕ → FeedEndpoint
feed id = record { feed_id = id; name = text "nyse"; host = text "127.0.0.1"; port = 9001 }

abbrev any_host : Text → Bool
any_host host = true

abbrev one_delay : ℕ → ℤ → ℤ
one_delay n delay = pos 1000

-- A healthy feed.
abbrev healthy_slot : Slot Unit
healthy_slot = record {
  connection = record {
    fd = some 8;
    role = Role.initiator;
    feed_id = 1;
    host = text "127.0.0.1";
    port = 9001;
    state = ConnectionState.healthy;
    state_entered_ns = pos 0;
    next_sequence = 0;
    consecutive_missed = pos 0;
    last_liveness_ns = pos 0;
    acked_sequences = replicate 32 0;
    acked_sequences_count = 0;
    acked_sequences_next = 0;
    read_accum = [];
    write_pending = [];
    stats = new_stats;
    ping_interceptor = none;
  };
  name = text "nyse";
  reconnect_attempts = 0;
  reconnect_ready_at_ns = negsuc 0;
  give_up = false;
  next_ping_due_ns = pos 0;
}

-- Two feeds, of which the first is removed, so that the second moves to its place.
abbrev one_feed : FeedMonitor Unit × World Unit
one_feed = (add_feed any_host (feed 1) no_feeds three_sockets).0

abbrev two_feeds : FeedMonitor Unit × World Unit
two_feeds = (add_feed any_host (feed 2) (one_feed.0) (one_feed.1)).0

abbrev moved_feed : FeedMonitor Unit × World Unit
moved_feed = remove_feed 1 (two_feeds.0) (two_feeds.1)

second-IsFresh : IsFresh one_feed.1.sockets one_feed.0.slots
unfolding add_feed push_feed create_and_connect_socket open_socket new_connection log_call
second-IsFresh = (λ e. ground (arith, e), tt)

moved_feed-Reach : Reach one_delay any_host (no_feeds, three_sockets) moved_feed
moved_feed-Reach =
    later (later (later start (added (feed 1) tt)) (added (feed 2) second-IsFresh)) (removed 1)

Reach-IsRouted_example : IsRouted (moved_feed.0)
Reach-IsRouted_example = Reach-IsRouted one_delay any_host refl moved_feed-Reach

abbrev slot_of_nine : Slot Unit
slot_of_nine = elim (get_elem? moved_feed.0.slots 0) [ none ↦ healthy_slot | some slot ↦ slot ]

nine_is_held :
    Holds moved_feed.0.slots 0 9 slot_of_nine × (is_failed slot_of_nine.connection.state ≡ false)
unfolding add_feed push_feed create_and_connect_socket open_socket new_connection log_call
    remove_feed remove_slot_at remove_slot fill_gap repoint unwatch close_fd map_put map_erase
nine_is_held = ((refl, refl), refl)

abbrev on_nine : Event
on_nine = record {
  fd = 9;
  socket = record {
    hangup = true;
    writable = false;
    readable = false;
    so_error = 0;
    recvs = Recvs.drained;
  };
  reads = Reads.drained;
  sends = [];
  clock = pos 7;
}

abbrev no_command : OnLine Unit
no_command line r = r

Reach-dispatch_example :
    dispatch one_delay any_host no_command (pos 7) on_nine (moved_feed.0) (moved_feed.1)
    ≡ handle_connection_event one_delay 0 on_nine.socket
        (pos 7)
        (moved_feed.0)
        (record moved_feed.1 { env = record moved_feed.1.env { sends = []; clock = pos 7 } })
unfolding add_feed push_feed create_and_connect_socket open_socket new_connection log_call
    remove_feed remove_slot_at remove_slot fill_gap repoint unwatch close_fd
Reach-dispatch_example =
    Reach-dispatch one_delay any_host no_command (pos 7) on_nine 0 slot_of_nine refl
      moved_feed-Reach nine_is_held.0 nine_is_held.1 (λ e. ground (arith, e))
      (λ e. ground (arith, e)) (λ e. ground (arith, e))

-- Its socket is broken when its PING is due.
abbrev broken_world : World Unit
broken_world = record three_sockets {
  env = record (three_sockets.env) { sends = send_error 32 ∷ [] };
}

abbrev watched : Slot Unit → FeedMonitor Unit
watched slot = record no_feeds { slots = slot ∷ [] }

abbrev no_jitter : ℕ → ℤ → ℤ
no_jitter n delay = delay

abbrev broken_slot : Slot Unit
broken_slot = record healthy_slot {
  connection = record (healthy_slot.connection) { state = ConnectionState.failed };
}

abbrev pinged_slot : Slot Unit
pinged_slot = record healthy_slot {
  connection = (send_ping healthy_slot.connection broken_world.env (pos 7)).0;
  next_ping_due_ns = pos 7 +ℤ to_nanoseconds default_config.heartbeat_interval;
}

pinged :
    get_elem? (tick_slot no_jitter any_host 0 (pos 7) (watched healthy_slot) broken_world).0.slots 0
    ≡ some pinged_slot
pinged =
    ap (λ xs. get_elem? xs 0)
      (tick_slot_pinged no_jitter any_host 0 (pos 7) (watched healthy_slot) broken_world
        healthy_slot refl 32 [] refl (inl refl) refl (omega arith) refl)

tick_slot-broken_example :
    (pinged_slot.connection.state ≡ ConnectionState.failed)
    × (pinged_slot.reconnect_ready_at_ns ≡ negsuc 0)
tick_slot-broken_example =
    tick_slot-broken no_jitter any_host 0 (pos 7) (watched healthy_slot) broken_world healthy_slot
      refl 32 [] pinged_slot refl (inl refl) refl (omega arith) refl pinged

-- A failed feed whose first two retries get no socket.
abbrev waiting_slot : Slot Unit
waiting_slot = record broken_slot { reconnect_ready_at_ns = pos 4000 }

abbrev third_time : World Unit
third_time = record three_sockets { sockets = none ∷ none ∷ some 8 ∷ [] }

tick_times-IsReconnecting_example :
    IsReconnecting 8 0
      (tick_times one_delay any_host 0
        (pos 5000 ∷ pos 6000 ∷ pos 7000 ∷ [])
        (watched waiting_slot)
        third_time).0
unfolding default_config reconnect_delay_ns
tick_times-IsReconnecting_example =
    tick_times-IsReconnecting one_delay any_host 0 (pos 1000) default_config
      (λ n attempts. omega int_laws) 2 8 [] (pos 5000) (pos 6000 ∷ pos 7000 ∷ [])
      (watched waiting_slot) third_time waiting_slot refl refl
      (record { failed = refl; kept_up = refl; scheduled = omega arith; due = omega arith }) refl
      refl (inl (omega arith)) refl refl (omega int_laws)

-- Two attempts are allowed, and no call of `socket` gives a descriptor but the fourth.
abbrev two_attempts : Config
two_attempts = record default_config { max_reconnect_attempts = pos 2 }

abbrev fourth_time : World Unit
fourth_time = record three_sockets { sockets = none ∷ none ∷ none ∷ some 8 ∷ [] }

tick_times-IsGivenUp_example : IsGivenUp 0 (some 8 ∷ []) (
    tick_times one_delay any_host 0
      (pos 5000 ∷ pos 6000 ∷ pos 7000 ∷ pos 8000 ∷ pos 9000 ∷ [])
      (record (watched waiting_slot) { config = two_attempts })
      fourth_time)
unfolding default_config reconnect_delay_ns
tick_times-IsGivenUp_example =
    tick_times-IsGivenUp one_delay any_host 0 (pos 1000) two_attempts (λ n attempts. omega int_laws)
      2 (some 8 ∷ []) (pos 5000) (pos 6000 ∷ pos 7000 ∷ []) (pos 8000 ∷ pos 9000 ∷ [])
      (record (watched waiting_slot) { config = two_attempts }) fourth_time waiting_slot refl refl
      (record { failed = refl; kept_up = refl; scheduled = omega arith; due = omega arith }) refl
      refl refl (omega int_laws)
