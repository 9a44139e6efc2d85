-- ===== src/Bench/Latency/Defs.antt =====
-- One trial, the repetitions in alternating order, and the printed spread.
use vigil_low_latency_tcp_he.Prelude.{
  ℕ, zero, suc, ◌+◌, ◌%◌, Bool, true, false, ◌&&◌, not, Option, none, some, List, [], ◌∷◌, ◌++◌,
  length, ltb, leb, ◌==◌, if◌then◌else◌,
}
use vigil_low_latency_tcp_he.Prelude.Int.{ℤ, pos}
use vigil_low_latency_tcp_he.Prelude.Text.{Text, text}
use vigil_low_latency_tcp_he.Config.{Config}
use vigil_low_latency_tcp_he.CommandInput.{print_uint}
use vigil_low_latency_tcp_he.CliDisplay.{DoublePrinting, format_duration_ns}
use vigil_low_latency_tcp_he.Connection.{
  Connection, Role, Env, Recvs, SendResult, epoll_mod, is_healthy, new_connection, on_readable,
  on_writable, send_ping, wants_write,
}
use vigil_low_latency_tcp_he.FeedMonitor.{epoll_interest_flags}
use vigil_low_latency_tcp_he.Bench.Common.{PercentileReport, Spread, summarize_spread}

-- The connection has no PING interceptor.
abbrev pub NoCaller : Type 0
NoCaller = Unit

-- One event of `epoll_wait`, with what the calls give while it is handled.
pub record LatencyEvent : Type 0 where
  pub writable : Bool
  pub readable : Bool
  pub so_error : ℕ
  pub recvs : Recvs

-- One return of `epoll_wait`; `ping_clock` is the reading of the clock for a PING, `sends` how the
-- `send` calls of the round end.
pub data LatencyWakeup : Type 0 where
  timed_out : LatencyWakeup
  ready : (now ping_clock : ℤ) (sends : List SendResult) → List LatencyEvent → LatencyWakeup

pub record Latency : Type 0 where
  pub conn : Connection NoCaller
  pub env : Env NoCaller
  pub samples : List ℤ
  pub completed : ℕ
  pub last_acked : ℕ
  pub first_ping_sent : Bool

-- The configuration of both ends.
unfoldable pub latency_config : Config → Bool → Config
latency_config config tcp_nodelay = record config {
  tcp_nodelay = tcp_nodelay;
  heartbeat_timeout = pos 30000;
  max_missed_heartbeats = pos 1000;
}

unfoldable pub start_latency : Config → ℕ → ℕ → Env NoCaller → Latency
start_latency config client_fd port e =
    let (c, e') = new_connection client_fd Role.initiator 1 (text "127.0.0.1") port config e in
    record {
      conn = c;
      env = e';
      samples = [];
      completed = 0;
      last_acked = 0;
      first_ping_sent = false;
    }

-- EPOLLOUT is handled before EPOLLIN.
unfoldable pub latency_event : Config → ℤ → LatencyEvent → Latency → Latency
latency_event config now ev l =
    let (c, e) =
      if ev.writable then on_writable config now ev.so_error l.conn l.env else (l.conn, l.env) in
    let (c', e') = if ev.readable then on_readable config now ev.recvs c e else (c, e) in
    record l { conn = c'; env = e' }

unfoldable pub latency_events : Config → ℤ → List LatencyEvent → Latency → Latency
latency_events config now [] l = l
latency_events config now (ev ∷ events) l =
    latency_events config now events (latency_event config now ev l)

unfoldable pub ping_now : ℤ → Latency → Latency
ping_now clock l = let (c, e) = send_ping l.conn l.env clock in record l { conn = c; env = e }

-- The first PING, once the handshake is complete.
unfoldable pub first_ping : ℤ → Latency → Latency
first_ping clock l =
    if not l.first_ping_sent && is_healthy l.conn.state
    then ping_now clock (record l { first_ping_sent = true })
    else l

-- A fresh PONG: the sample, and the next PING.
unfoldable pub next_ping : ℕ → ℤ → Latency → Latency
next_ping warmup_iters clock l =
    let taken =
      if leb warmup_iters l.completed
      then l.samples ++ l.conn.stats.last_rtt_ns ∷ []
      else l.samples in
    if ltb l.last_acked l.conn.stats.heartbeats_acked
    then ping_now clock (record l {
      last_acked = l.conn.stats.heartbeats_acked;
      samples = taken;
      completed = suc l.completed;
    })
    else l

unfoldable pub rearm : Latency → Latency
rearm l =
    let interest = epoll_interest_flags true (wants_write l.conn) false in
    let calls' = epoll_mod l.conn.fd interest ∷ l.env.calls in
    record l { env = record (l.env) { calls = calls' } }

unfoldable pub latency_round :
    Config → ℕ → ℤ → ℤ → List SendResult → List LatencyEvent → Latency → Latency
latency_round config warmup_iters now clock sends events l =
    let l' =
      latency_events config now events (record l { env = record (l.env) { sends = sends } }) in
    rearm (next_ping warmup_iters clock (first_ping clock l'))

-- The loop ends when enough PONGs have come, or when `epoll_wait` times out. At the end of the list it
-- waits.
unfoldable pub latency_loop : Config → ℕ → ℕ → List LatencyWakeup → Latency → Latency
latency_loop config warmup_iters measured_iters [] l = l
latency_loop config warmup_iters measured_iters (timed_out ∷ wakeups) l = l
latency_loop config warmup_iters measured_iters (ready now clock sends events ∷ wakeups) l =
    let rest =
      latency_loop config warmup_iters measured_iters wakeups
        (latency_round config warmup_iters now clock sends events l) in
    if ltb l.completed (warmup_iters + measured_iters) then rest else l

-- A trial is `run_latency_trial`, on a state of type `S` and with the summary of its samples.
module _ {S : Type 0} (trial : Bool → S → S × PercentileReport) where
  pub record PairedReport : Type 0 where
    pub nodelay_true : PercentileReport
    pub nodelay_false : PercentileReport

  -- One repetition: the option that is on goes first where the counter is even.
  unfoldable pub paired_trial : ℕ → S → S × PairedReport
  paired_trial rep_counter s =
      if rep_counter % 2 == 0
      then (let (s', on) = trial true s in
          let (s'', off) = trial false s' in
          (s'', record { nodelay_true = on; nodelay_false = off }))
      else (let (s', off) = trial false s in
          let (s'', on) = trial true s' in (s'', record { nodelay_true = on; nodelay_false = off }))

  unfoldable pub paired_trials : ℕ → ℕ → S → S × List PairedReport
  paired_trials zero rep_counter s = (s, [])
  paired_trials (suc left) rep_counter s =
      let (s', report) = paired_trial rep_counter s in
      let (s'', reports) = paired_trials left (rep_counter + 1) s' in (s'', report ∷ reports)

infixl 5 ◌>>=◌
abbrev ◌>>=◌ : {A B : Type 0} → Option A → (A → Option B) → Option B
none >>= f = none
some a >>= f = f a

unfoldable pub spread_line : DoublePrinting → Text → Spread → Text
spread_line d name s =
    text "  "
    ++ name
    ++ text ": min="
    ++ format_duration_ns d s.min
    ++ text " median="
    ++ format_duration_ns d s.median
    ++ text " max="
    ++ format_duration_ns d s.max
    ++ text "\n"

-- What `print_spread_report` writes.
unfoldable pub spread_report : DoublePrinting → Text → List PercentileReport → Option Text
spread_report d label reports = do
  p50 ← summarize_spread d reports (λ r. r.p50)
  p90 ← summarize_spread d reports (λ r. r.p90)
  p99 ← summarize_spread d reports (λ r. r.p99)
  some (
      label
      ++ text " across "
      ++ print_uint (length reports)
      ++ text " repetitions:\n"
      ++ spread_line d (text "p50") p50
      ++ spread_line d (text "p90") p90
      ++ spread_line d (text "p99") p99)
