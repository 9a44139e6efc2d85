-- ===== src/Config/Defs.antt =====
-- `FeedEndpoint` and `Config` with their defaults. A `std::chrono::milliseconds` is the integer that
-- it counts.
use vigil_low_latency_tcp_he.Prelude.{ℕ, Bool, true, false, List, []}
use vigil_low_latency_tcp_he.Prelude.Int.{ℤ, pos, negsuc, ◌*ℤ◌}
use vigil_low_latency_tcp_he.Prelude.Text.{Text, text}

pub record FeedEndpoint : Type 0 where
  pub feed_id : ℕ
  pub name : Text
  pub host : Text
  pub port : ℕ

pub record Config : Type 0 where
  pub heartbeat_interval : ℤ
  pub heartbeat_timeout : ℤ
  pub max_missed_heartbeats : ℤ
  pub reconnect_base_delay : ℤ
  pub reconnect_max_delay : ℤ
  pub max_reconnect_attempts : ℤ
  pub epoll_max_events : ℤ
  pub tick_interval : ℤ
  pub tcp_nodelay : Bool
  pub edge_triggered : Bool
  pub feeds : List FeedEndpoint
  pub log_level : Text
  pub help_requested : Bool

unfoldable pub default_config : Config
default_config = record {
  heartbeat_interval = pos 1000;
  heartbeat_timeout = pos 3000;
  max_missed_heartbeats = pos 3;
  reconnect_base_delay = pos 500;
  reconnect_max_delay = pos 30000;
  max_reconnect_attempts = negsuc 0;
  epoll_max_events = pos 256;
  tick_interval = pos 50;
  tcp_nodelay = true;
  edge_triggered = true;
  feeds = [];
  log_level = text "info";
  help_requested = false;
}

-- `duration_cast<nanoseconds>` of milliseconds.
unfoldable pub to_nanoseconds : ℤ → ℤ
to_nanoseconds ms = ms *ℤ pos 1000000
