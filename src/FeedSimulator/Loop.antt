-- ===== src/FeedSimulator/Loop.antt =====
-- The simulator's reactor: construction, `run` and `stop`, and the command input.
use vigil_low_latency_tcp_he.Prelude.{
  ℕ, Bool, true, false, Option, none, some, List, [], ◌∷◌, ◌==◌, if◌then◌else◌,
}
use vigil_low_latency_tcp_he.Prelude.Int.{ℤ, pos, max_ℤ}
use vigil_low_latency_tcp_he.Prelude.Text.{Text}
use vigil_low_latency_tcp_he.Config.{Config}
use vigil_low_latency_tcp_he.Connection.{Env, SendResult, epoll_add, epoll_del}
use vigil_low_latency_tcp_he.CommandInput.{Reads, read_lines, run_lines}
use vigil_low_latency_tcp_he.FeedMonitor.{SocketEvent, epoll_interest_flags, arm_periodic_timer}
use vigil_low_latency_tcp_he.FeedSimulator.Types.{FeedSimulator, Faults, Chance}
use vigil_low_latency_tcp_he.FeedSimulator.Clients.{
  Accepts, log_call, accept_new_connections, handle_client_event, on_timer_tick,
}

-- The results of `socket`, `bind`, `listen`, of the port that `getsockname` gives, of
-- `epoll_create1`, `eventfd`, `timerfd_create` and of the three `epoll_ctl`s.
pub record Setup : Type 0 where
  pub listen_fd : Option ℕ
  pub bound : Bool
  pub listening : Bool
  pub bound_port : ℕ
  pub epoll_fd : Option ℕ
  pub wake_fd : Option ℕ
  pub timer_fd : Option ℕ
  pub listen_added : Bool
  pub wake_added : Bool
  pub timer_added : Bool

-- One event of a batch, with what the system calls give while it is handled.
pub record Event : Type 0 where
  pub fd : ℕ
  pub socket : SocketEvent
  pub accepts : Accepts
  pub reads : Reads
  pub sends : List SendResult
  pub clock : ℤ

pub data Wakeup : Type 0 where
  interrupted failed : Wakeup
  ready : (now_ns : ℤ) → List Event → Wakeup

abbrev pub empty_simulator : ℕ → Config → ℕ → ℕ → ℕ → ℕ → FeedSimulator
empty_simulator feed_id config bound_port listen_fd wake_fd timer_fd = record {
  listen_fd = listen_fd;
  wake_fd = wake_fd;
  timer_fd = timer_fd;
  bound_port = bound_port;
  feed_id = feed_id;
  config = config;
  clients = [];
  command_fd = none;
  command_line_buffer = [];
  stop_requested = false;
  event_batch_size = max_ℤ config.epoll_max_events (pos 1);
}

-- `bind`, `listen` and the `epoll_ctl`s throw where they fail.
abbrev pub all_done : Setup → Bool
all_done setup =
    if setup.bound
    then if setup.listening
      then if setup.listen_added
        then if setup.wake_added then setup.timer_added else false
        else false
      else false
    else false

-- `none` is a throw.
unfoldable pub new_feed_simulator :
    ℕ → Config → Setup → Env Faults → Option (FeedSimulator × Env Faults)
new_feed_simulator feed_id config setup e = elim setup.listen_fd [
  | none ↦ none
  | some listen_fd ↦ elim setup.epoll_fd [
    | none ↦ none
    | some epoll_fd ↦ elim setup.wake_fd [
      | none ↦ none
      | some wake_fd ↦ elim setup.timer_fd [
        | none ↦ none
        | some timer_fd ↦
            if all_done setup
            then some (
              empty_simulator feed_id config setup.bound_port listen_fd wake_fd timer_fd,
              log_call (epoll_add timer_fd (epoll_interest_flags true false false)) (
                  log_call (epoll_add wake_fd (epoll_interest_flags true false false)) (
                    log_call
                      (epoll_add listen_fd (epoll_interest_flags true false config.edge_triggered))
                      (log_call (arm_periodic_timer timer_fd config.tick_interval) e))),
            )
            else none
      ]
    ]
  ]
]

unfoldable pub set_command_input : ℕ → FeedSimulator → Env Faults → FeedSimulator × Env Faults
set_command_input fd s e = (
  record s { command_fd = some fd },
  log_call (epoll_add fd (epoll_interest_flags true false s.config.edge_triggered)) e,
)

unfoldable pub stop : FeedSimulator → FeedSimulator
stop s = record s { stop_requested = true }

-- What the calls of one event see: the results of its `send`s and the reading of the clock.
abbrev pub at_event : Event → Env Faults → Env Faults
at_event ev e = record e {
  sends = ev.sends;
  clock = ev.clock;
  caller = record (e.caller) { clock = ev.clock };
}

-- The callback for a command line works on the simulator, and on a state of its own of type `G`.
abbrev pub OnLine : Type 0 → Type 0
OnLine G = Text → (FeedSimulator × Env Faults) × G → (FeedSimulator × Env Faults) × G

module _ {G : Type 0} where
  -- No callback of the program reads the buffer, so it is stored behind the calls.
  unfoldable pub on_command_fd_readable :
      OnLine G → ℕ → Reads → FeedSimulator → Env Faults → G → (FeedSimulator × Env Faults) × G
  on_command_fd_readable on_line fd reads s e g =
      let ((lines, rest), eof) = read_lines reads s.command_line_buffer in
      let ((s', e'), g') = run_lines on_line lines ((s, e), g) in
      if eof
      then (
        (record s' { command_line_buffer = rest; command_fd = none }, log_call (epoll_del fd) e'),
        g',
      )
      else ((record s' { command_line_buffer = rest }, e'), g')

  unfoldable pub dispatch :
      Chance
      → OnLine G
      → ℤ
      → Event
      → FeedSimulator
      → Env Faults
      → G
      → (FeedSimulator × Env Faults) × G
  dispatch chance on_line now_ns ev s e g =
      if ev.fd == s.wake_fd
      then ((s, at_event ev e), g)
      else if ev.fd == s.timer_fd
      then (on_timer_tick s (at_event ev e), g)
      else if ev.fd == s.listen_fd
      then (accept_new_connections chance ev.accepts s (at_event ev e), g)
      else if elim s.command_fd [ none ↦ false | some fd ↦ ev.fd == fd ]
      then on_command_fd_readable on_line ev.fd ev.reads s (at_event ev e) g
      else (handle_client_event ev.fd ev.socket now_ns s (at_event ev e), g)

  unfoldable pub dispatch_all :
      Chance
      → OnLine G
      → ℤ
      → List Event
      → FeedSimulator
      → Env Faults
      → G
      → (FeedSimulator × Env Faults) × G
  dispatch_all chance on_line now_ns [] s e g = ((s, e), g)
  dispatch_all chance on_line now_ns (ev ∷ events) s e g =
      let r = dispatch chance on_line now_ns ev s e g in
      dispatch_all chance on_line now_ns events (r.0.0) (r.0.1) (r.1)

  -- The loop of `run`, up to a stop, a failure of `epoll_wait`, or the end of the wakeups given:
  -- there it waits.
  unfoldable pub run_loop :
      Chance
      → OnLine G
      → List Wakeup
      → FeedSimulator
      → Env Faults
      → G
      → (FeedSimulator × Env Faults) × G
  run_loop chance on_line [] s e g = ((s, e), g)
  run_loop chance on_line (interrupted ∷ wakeups) s e g =
      let rest = run_loop chance on_line wakeups s e g in
      if s.stop_requested then ((s, e), g) else rest
  run_loop chance on_line (failed ∷ wakeups) s e g = ((s, e), g)
  run_loop chance on_line (ready now_ns events ∷ wakeups) s e g =
      let r = dispatch_all chance on_line now_ns events s e g in
      let rest = run_loop chance on_line wakeups (r.0.0) (r.0.1) (r.1) in
      if s.stop_requested then ((s, e), g) else rest

  unfoldable pub run :
      Chance
      → OnLine G
      → List Wakeup
      → FeedSimulator
      → Env Faults
      → G
      → (FeedSimulator × Env Faults) × G
  run chance on_line wakeups s e g =
      run_loop chance on_line wakeups (record s { stop_requested = false }) e g
