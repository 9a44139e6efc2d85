-- ===== src/FeedMonitor/Types.antt =====
-- The state of a `FeedMonitor`, its index maps, and what it sees of the operating system.
use vigil_low_latency_tcp_he.Prelude.{
  ℕ, Bool, Option, none, some, List, [], ◌∷◌, set, ◌==◌, if◌then◌else◌,
}
use vigil_low_latency_tcp_he.Prelude.Int.{ℤ}
use vigil_low_latency_tcp_he.Prelude.Text.{Text}
use vigil_low_latency_tcp_he.Stats.{ConnectionStats}
use vigil_low_latency_tcp_he.Config.{Config}
use vigil_low_latency_tcp_he.Connection.{
  Connection, ConnectionState, Env, Syscall, Interest, Recvs, close,
}

-- `reconnect_attempts` only counts up from 0.
pub record Slot (S : Type 0) : Type 0 where
  pub connection : Connection S
  pub name : Text
  pub reconnect_attempts : ℕ
  pub reconnect_ready_at_ns : ℤ
  pub give_up : Bool
  pub next_ping_due_ns : ℤ

-- The two `unordered_map`s are functions.
pub record FeedMonitor (S : Type 0) : Type 0 where
  pub slots : List (Slot S)
  pub index_of_fd : ℕ → Option ℕ
  pub index_of_feed_id : ℕ → Option ℕ
  pub config : Config
  pub timer_fd : ℕ
  pub wake_fd : ℕ
  pub command_fd : Option ℕ
  pub command_line_buffer : Text
  pub stop_requested : Bool
  pub event_batch_size : ℤ
  pub epoll_wait_count : ℕ
  pub events_processed_count : ℕ

unfoldable pub map_put : (ℕ → Option ℕ) → ℕ → ℕ → ℕ → Option ℕ
map_put index key value k = if k == key then some value else index k

unfoldable pub map_erase : (ℕ → Option ℕ) → ℕ → ℕ → Option ℕ
map_erase index key k = if k == key then none else index k

-- What surrounds the monitor: what its connections see, the results of the coming `socket` calls
-- (an exhausted list stands for failure), and how many numbers were drawn from the generator.
pub record World (S : Type 0) : Type 0 where
  pub env : Env S
  pub sockets : List (Option ℕ)
  pub draws : ℕ

-- An event of epoll on a connection's descriptor: its flags, the value of SO_ERROR, and what the
-- `recv` calls will return.
pub record SocketEvent : Type 0 where
  pub hangup : Bool
  pub writable : Bool
  pub readable : Bool
  pub so_error : ℕ
  pub recvs : Recvs

abbrev pub epoll_interest_flags : Bool → Bool → Bool → Interest
epoll_interest_flags readable writable edge_triggered = record {
  readable = readable;
  writable = writable;
  edge_triggered = edge_triggered;
}

pub record FeedSnapshot : Type 0 where
  pub feed_id : ℕ
  pub name : Text
  pub state : ConnectionState
  pub stats : ConnectionStats

pub record AggregateStats : Type 0 where
  pub healthy_count : ℕ
  pub degraded_count : ℕ
  pub failed_count : ℕ
  pub reconnecting_count : ℕ
  pub feeds : List FeedSnapshot

module _ {S : Type 0} where
  unfoldable pub log_call : Syscall → World S → World S
  log_call call w = record w { env = record (w.env) { calls = call ∷ w.env.calls } }

  unfoldable pub put_slot : FeedMonitor S → ℕ → Slot S → FeedMonitor S
  put_slot m index slot = record m { slots = set m.slots index slot }

  -- The result of `socket`, then the test of `inet_pton`. `connect` is called, its result ignored.
  unfoldable pub open_socket : (Text → Bool) → Text → List (Option ℕ) → World S → Option ℕ × World S
  unfolding log_call
  open_socket parses host [] w = (none, w)
  open_socket parses host (none ∷ rest) w = (none, record w { sockets = rest })
  open_socket parses host (some fd ∷ rest) w =
      let w' = record w { sockets = rest } in
      if parses host then (some fd, w') else (none, log_call (close fd) w')

  unfoldable pub create_and_connect_socket : (Text → Bool) → Text → World S → Option ℕ × World S
  create_and_connect_socket parses host w = open_socket parses host w.sockets w
