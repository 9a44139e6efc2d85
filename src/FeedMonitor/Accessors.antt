-- ===== src/FeedMonitor/Accessors.antt =====
-- What the monitor tells of itself to tests and benchmarks.
use vigil_low_latency_tcp_he.Prelude.{ℕ, none, some, get_elem?}
use vigil_low_latency_tcp_he.Prelude.Int.{ℤ, negsuc}
use vigil_low_latency_tcp_he.FeedMonitor.Types.{FeedMonitor}
use vigil_low_latency_tcp_he.FeedMonitor.Failure.{reconnect_delay_ns}

module _ {S : Type 0} where
  abbrev pub debug_epoll_wait_count : FeedMonitor S → ℕ
  debug_epoll_wait_count m = m.epoll_wait_count

  abbrev pub debug_events_processed_count : FeedMonitor S → ℕ
  debug_events_processed_count m = m.events_processed_count

  abbrev pub debug_reconnect_delay_ns : (ℕ → ℤ → ℤ) → FeedMonitor S → ℕ → ℕ → ℤ
  debug_reconnect_delay_ns jitter m draws attempt = reconnect_delay_ns jitter m.config draws attempt

  -- -1 where the feed is not known; a place past the slots is outside of what C++ defines, and -1 too.
  unfoldable pub debug_reconnect_ready_at_ns : FeedMonitor S → ℕ → ℤ
  debug_reconnect_ready_at_ns m feed_id = elim (m.index_of_feed_id feed_id) [
    | none ↦ negsuc 0
    | some index ↦ elim (get_elem? m.slots index) [
      | none ↦ negsuc 0
      | some slot ↦ slot.reconnect_ready_at_ns
    ]
  ]
