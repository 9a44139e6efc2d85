-- ===== src/Connection/Types.antt =====
-- The state of a `Connection` and what it sees of the operating system.
use vigil_low_latency_tcp_he.Prelude.{
  ℕ, Bool, true, false, ◌||◌, not, Option, none, some, List, [], ◌∷◌, replicate, if◌then◌else◌,
}
use vigil_low_latency_tcp_he.Prelude.Int.{ℤ, pos}
use vigil_low_latency_tcp_he.Prelude.Text.{Text}
use vigil_low_latency_tcp_he.Stats.{ConnectionStats, new_stats}
use vigil_low_latency_tcp_he.Config.{Config}

pub data Role : Type 0 where
  initiator responder : Role

pub data ConnectionState : Type 0 where
  disconnected connecting handshaking healthy degraded failed reconnecting : ConnectionState

abbrev pub is_initiator : Role → Bool
is_initiator Role.initiator = true
is_initiator Role.responder = false

abbrev pub is_connecting : ConnectionState → Bool
is_connecting ConnectionState.connecting = true
is_connecting _ = false

abbrev pub is_handshaking : ConnectionState → Bool
is_handshaking ConnectionState.handshaking = true
is_handshaking _ = false

abbrev pub is_healthy : ConnectionState → Bool
is_healthy ConnectionState.healthy = true
is_healthy _ = false

abbrev pub is_degraded : ConnectionState → Bool
is_degraded ConnectionState.degraded = true
is_degraded _ = false

abbrev pub is_failed : ConnectionState → Bool
is_failed ConnectionState.failed = true
is_failed _ = false

-- What one `send` returns: a count, or -1 with errno EAGAIN, EINTR or another.
pub data SendResult : Type 0 where
  accepted : ℕ → SendResult
  would_block interrupted : SendResult
  send_error : ℕ → SendResult

-- What the `recv` calls of one wakeup return, up to the one that ends the loop.
pub data Recvs : Type 0 where
  chunk : List ℕ → Recvs → Recvs
  interrupted : Recvs → Recvs
  end_of_file drained : Recvs
  recv_error : ℕ → Recvs

-- `epoll_interest_flags`, with a Boolean for each flag.
pub record Interest : Type 0 where
  pub readable : Bool
  pub writable : Bool
  pub edge_triggered : Bool

-- The calls made on descriptors.
pub data Syscall : Type 0 where
  set_nodelay : Option ℕ → Syscall
  close : ℕ → Syscall
  epoll_add : ℕ → Interest → Syscall
  epoll_mod : Option ℕ → Interest → Syscall
  epoll_del : ℕ → Syscall
  -- `SO_LINGER` with a linger time of 0: the close sends a reset.
  set_linger : ℕ → Syscall
  -- The first expiry and the period.
  set_timer : (fd seconds nanoseconds : ℕ) → Syscall

-- What surrounds a connection while one event is handled: how the coming `send` calls end (an
-- exhausted list stands for a full socket buffer), the bytes that the kernel has taken, the reading
-- of `now_monotonic_ns`, the other calls made (latest first), and the state of type `S` that the
-- PING interceptor of the connection's owner works on.
pub record Env (S : Type 0) : Type 0 where
  pub sends : List SendResult
  pub sent : List ℕ
  pub clock : ℤ
  pub calls : List Syscall
  pub caller : S

-- `PingInterceptor`: false keeps the automatic reply back.
abbrev pub PingInterceptor : Type 0 → Type 0
PingInterceptor S = S → ℕ → ℤ → S × Bool

abbrev pub max_read_accum_bytes : ℕ
max_read_accum_bytes = 65536

abbrev pub max_write_pending_bytes : ℕ
max_write_pending_bytes = 65536

abbrev pub acked_sequence_window : ℕ
acked_sequence_window = 32

-- `fd` is `none` where the `UniqueFd` is empty (-1). The `config_` pointer is an argument of the
-- operations that read through it.
pub record Connection (S : Type 0) : Type 0 where
  pub fd : Option ℕ
  pub role : Role
  pub feed_id : ℕ
  pub host : Text
  pub port : ℕ
  pub state : ConnectionState
  pub state_entered_ns : ℤ
  pub next_sequence : ℕ
  pub consecutive_missed : ℤ
  pub last_liveness_ns : ℤ
  pub acked_sequences : List ℕ
  pub acked_sequences_count : ℕ
  pub acked_sequences_next : ℕ
  pub read_accum : List ℕ
  pub write_pending : List ℕ
  pub stats : ConnectionStats
  pub ping_interceptor : Option (PingInterceptor S)

abbrev pub initial_state : Role → ConnectionState
initial_state Role.initiator = ConnectionState.connecting
initial_state Role.responder = ConnectionState.handshaking

module _ {S : Type 0} where
  unfoldable pub apply_socket_options : Config → Connection S → Env S → Env S
  apply_socket_options config c e =
      if config.tcp_nodelay then record e { calls = set_nodelay c.fd ∷ e.calls } else e

  unfoldable pub new_connection : ℕ → Role → ℕ → Text → ℕ → Config → Env S → Connection S × Env S
  new_connection fd role feed_id host port config e =
      let c : Connection S = record {
        fd = some fd;
        role = role;
        feed_id = feed_id;
        host = host;
        port = port;
        state = initial_state role;
        state_entered_ns = e.clock;
        next_sequence = 0;
        consecutive_missed = pos 0;
        last_liveness_ns = pos 0;
        acked_sequences = replicate acked_sequence_window 0;
        acked_sequences_count = 0;
        acked_sequences_next = 0;
        read_accum = [];
        write_pending = [];
        stats = new_stats;
        ping_interceptor = none;
      } in
      (c, if is_initiator role then e else apply_socket_options config c e)

  unfoldable pub transition_to : Connection S → ConnectionState → ℤ → Connection S
  transition_to c new_state now_ns = record c { state = new_state; state_entered_ns = now_ns }

  -- The three error paths log, each with its own words, and fail the connection.
  unfoldable pub handle_socket_error : Connection S → ℤ → Connection S
  unfolding transition_to
  handle_socket_error c now_ns = transition_to c ConnectionState.failed now_ns

  unfoldable pub handle_peer_closed : Connection S → ℤ → Connection S
  unfolding transition_to
  handle_peer_closed c now_ns = transition_to c ConnectionState.failed now_ns

  unfoldable pub handle_protocol_violation : Connection S → ℤ → Connection S
  unfolding transition_to
  handle_protocol_violation c now_ns = transition_to c ConnectionState.failed now_ns

  unfoldable pub wants_write : Connection S → Bool
  wants_write c =
      is_connecting c.state || not (elim c.write_pending [ [] ↦ true | b ∷ bytes ↦ false ])
