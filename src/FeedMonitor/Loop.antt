-- ===== src/FeedMonitor/Loop.antt =====
-- The reactor itself: construction, `run` and `stop`, and the command input.
use vigil_low_latency_tcp_he.Prelude.{
  ℕ, ◌+◌, ◌*◌, ◌/◌, ◌%◌, ◌^◌, Bool, true, false, Option, none, some, List, [], ◌∷◌, length, ◌==◌,
  if◌then◌else◌,
}
use vigil_low_latency_tcp_he.Prelude.Int.{ℤ, pos, pos_part, max_ℤ}
use vigil_low_latency_tcp_he.Prelude.Text.{Text}
use vigil_low_latency_tcp_he.Config.{Config}
use vigil_low_latency_tcp_he.Connection.{SendResult, Syscall, epoll_add, epoll_del, set_timer}
use vigil_low_latency_tcp_he.CommandInput.{Reads, read_lines, run_lines}
use vigil_low_latency_tcp_he.FeedMonitor.Types.{
  FeedMonitor, World, SocketEvent, epoll_interest_flags, log_call,
}
use vigil_low_latency_tcp_he.FeedMonitor.Reactor.{handle_connection_event, on_timer_tick}

-- `arm_periodic_timer`: whole milliseconds as seconds and nanoseconds.
unfoldable pub arm_periodic_timer : ℕ → ℤ → Syscall
arm_periodic_timer timer_fd interval =
    let ms : ℕ = pos_part (max_ℤ interval (pos 1)) in
    set_timer timer_fd (ms / 1000) (ms % 1000 * 1000000)

-- The results of `epoll_create1`, `timerfd_create`, `eventfd` and of the two `epoll_ctl`s.
pub record Setup : Type 0 where
  pub epoll_fd : Option ℕ
  pub timer_fd : Option ℕ
  pub wake_fd : Option ℕ
  pub timer_added : Bool
  pub wake_added : Bool

-- What the loop does with one event. `fd` is the descriptor that it names; `clock` and `sends` are
-- what the clock and the `send`s give while it is handled.
pub record Event : Type 0 where
  pub fd : ℕ
  pub socket : SocketEvent
  pub reads : Reads
  pub sends : List SendResult
  pub clock : ℤ

-- One return of `epoll_wait`.
pub data Wakeup : Type 0 where
  interrupted failed : Wakeup
  ready : (now_ns : ℤ) → List Event → Wakeup

-- The callback for a command line works on the monitor.
abbrev pub OnLine : Type 0 → Type 0
OnLine S = Text → FeedMonitor S × World S → FeedMonitor S × World S

module _ {S : Type 0} where
  -- The monitor that the constructor makes where no call fails.
  abbrev pub empty_monitor : Config → ℕ → ℕ → FeedMonitor S
  empty_monitor config timer_fd wake_fd = record {
    slots = [];
    index_of_fd = λ fd. none;
    index_of_feed_id = λ feed_id. none;
    config = config;
    timer_fd = timer_fd;
    wake_fd = wake_fd;
    command_fd = none;
    command_line_buffer = [];
    stop_requested = false;
    event_batch_size = max_ℤ config.epoll_max_events (pos 1);
    epoll_wait_count = 0;
    events_processed_count = 0;
  }

  -- `none` is a throw.
  unfoldable pub new_feed_monitor : Config → Setup → World S → Option (FeedMonitor S × World S)
  new_feed_monitor config setup w = elim setup.epoll_fd [
    | none ↦ none
    | some epoll_fd ↦ elim setup.timer_fd [
      | none ↦ none
      | some timer_fd ↦ elim setup.wake_fd [
        | none ↦ none
        | some wake_fd ↦
            if setup.timer_added
            then if setup.wake_added
              then some (
                empty_monitor config timer_fd wake_fd,
                log_call (epoll_add wake_fd (epoll_interest_flags true false false)) (
                    log_call (epoll_add timer_fd (epoll_interest_flags true false false))
                      (log_call (arm_periodic_timer timer_fd config.tick_interval) w)),
              )
              else none
            else none
      ]
    ]
  ]

  -- `set_command_input`; the callback is an argument of `run`.
  unfoldable pub set_command_input : ℕ → FeedMonitor S → World S → FeedMonitor S × World S
  set_command_input fd m w = (
    record m { command_fd = some fd },
    log_call (epoll_add fd (epoll_interest_flags true false m.config.edge_triggered)) w,
  )

  -- `stop`; the write to the eventfd only wakes the loop up.
  unfoldable pub stop : FeedMonitor S → FeedMonitor S
  stop m = record m { stop_requested = true }

  -- No callback of the program reads the buffer, so it is stored behind the calls.
  unfoldable pub on_command_fd_readable :
      OnLine S → ℕ → Reads → FeedMonitor S → World S → FeedMonitor S × World S
  on_command_fd_readable on_line fd reads m w =
      let ((lines, rest), eof) = read_lines reads m.command_line_buffer in
      let (m', w') = run_lines on_line lines (m, w) in
      if eof
      then (record m' { command_line_buffer = rest; command_fd = none }, log_call (epoll_del fd) w')
      else (record m' { command_line_buffer = rest }, w')

  -- One event of the batch, in the order of the tests.
  unfoldable pub dispatch :
      (ℕ → ℤ → ℤ)
      → (Text → Bool)
      → OnLine S
      → ℤ
      → Event
      → FeedMonitor S
      → World S
      → FeedMonitor S × World S
  dispatch jitter parses on_line now_ns ev m w =
      let w' = record w { env = record (w.env) { sends = ev.sends; clock = ev.clock } } in
      if ev.fd == m.wake_fd
      then (m, w')
      else if ev.fd == m.timer_fd
      then (on_timer_tick jitter parses m w').0
      else if elim m.command_fd [ none ↦ false | some fd ↦ ev.fd == fd ]
      then on_command_fd_readable on_line ev.fd ev.reads m w'
      else elim (m.index_of_fd ev.fd) [
        | none ↦ (m, w')
        | some index ↦ handle_connection_event jitter index ev.socket now_ns m w'
      ]

  unfoldable pub dispatch_all :
      (ℕ → ℤ → ℤ)
      → (Text → Bool)
      → OnLine S
      → ℤ
      → List Event
      → FeedMonitor S
      → World S
      → FeedMonitor S × World S
  dispatch_all jitter parses on_line now_ns [] m w = (m, w)
  dispatch_all jitter parses on_line now_ns (ev ∷ events) m w =
      let r = dispatch jitter parses on_line now_ns ev m w in
      dispatch_all jitter parses on_line now_ns events (r.0) (r.1)

  -- The counters are uint64_t.
  abbrev pub count_events : ℕ → FeedMonitor S → FeedMonitor S
  count_events n m = record m {
    epoll_wait_count = (m.epoll_wait_count + 1) % 2 ^ 64;
    events_processed_count = (m.events_processed_count + n) % 2 ^ 64;
  }

  -- The loop of `run`, up to a stop, a failure of `epoll_wait`, or the end of the wakeups given:
  -- there it waits. The result also says which wakeups were not looked at.
  unfoldable pub run_loop :
      (ℕ → ℤ → ℤ)
      → (Text → Bool)
      → OnLine S
      → List Wakeup
      → FeedMonitor S
      → World S
      → (FeedMonitor S × World S) × List Wakeup
  run_loop jitter parses on_line [] m w = ((m, w), [])
  run_loop jitter parses on_line (interrupted ∷ wakeups) m w =
      let rest = run_loop jitter parses on_line wakeups m w in
      if m.stop_requested then ((m, w), interrupted ∷ wakeups) else rest
  run_loop jitter parses on_line (failed ∷ wakeups) m w =
      ((m, w), if m.stop_requested then failed ∷ wakeups else wakeups)
  run_loop jitter parses on_line (ready now_ns events ∷ wakeups) m w =
      let r = dispatch_all jitter parses on_line now_ns events (count_events (length events) m) w in
      let rest = run_loop jitter parses on_line wakeups (r.0) (r.1) in
      if m.stop_requested then ((m, w), ready now_ns events ∷ wakeups) else rest

  unfoldable pub run :
      (ℕ → ℤ → ℤ)
      → (Text → Bool)
      → OnLine S
      → List Wakeup
      → FeedMonitor S
      → World S
      → (FeedMonitor S × World S) × List Wakeup
  run jitter parses on_line wakeups m w =
      run_loop jitter parses on_line wakeups (record m { stop_requested = false }) w
