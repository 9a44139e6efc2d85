-- ===== src/Bench/Throughput/Trial.antt =====
-- What one trial computes from the readings that are taken while it runs, and what is printed.
use vigil_low_latency_tcp_he.Prelude.{
  ℕ, zero, suc, ◌+◌, ◌-◌, ◌%◌, ◌^◌, Bool, true, false, ◌&&◌, Option, none, some, List, [], ◌∷◌,
  ◌++◌, ◌==◌, if◌then◌else◌,
}
use vigil_low_latency_tcp_he.Prelude.Int.{ℤ, pos, ◌-ℤ◌}
use vigil_low_latency_tcp_he.Prelude.Double.{Double, decimal, of_int, add, sub, mul, div}
use vigil_low_latency_tcp_he.Prelude.Text.{Text, text}
use vigil_low_latency_tcp_he.Config.{Config, FeedEndpoint}
use vigil_low_latency_tcp_he.CommandInput.{print_uint}
use vigil_low_latency_tcp_he.CliDisplay.{DoublePrinting}
use vigil_low_latency_tcp_he.Bench.Common.{Spread, summarize_spread, current_rss_bytes}

-- `pthread_getcpuclockid` and `clock_gettime` of one thread: seconds and nanoseconds, or a failure.
unfoldable pub thread_cpu_seconds : Option (ℤ × ℤ) → Double
thread_cpu_seconds none = decimal 0 0
thread_cpu_seconds (some (tv_sec, tv_nsec)) =
    add (of_int tv_sec) (div (of_int tv_nsec) (decimal 1000000000 0))

-- The sum over the worker threads.
unfoldable pub total_cpu_seconds : Double → List (Option (ℤ × ℤ)) → Double
total_cpu_seconds sum [] = sum
total_cpu_seconds sum (reading ∷ readings) =
    total_cpu_seconds (add sum (thread_cpu_seconds reading)) readings

-- The feeds that are added to the monitor, from the index `i` on.
unfoldable pub endpoints_from : ℕ → ℕ → ℕ → List FeedEndpoint
endpoints_from port zero i = []
endpoints_from port (suc left) i =
    record {
      feed_id = (i + 1) % 2 ^ 32;
      name = text "F" ++ print_uint (i + 1);
      host = text "127.0.0.1";
      port = port;
    }
    ∷ endpoints_from port left (i + 1)

-- The counts that are polled up to the deadline: whether one of them is the wanted one.
unfoldable pub all_reached : ℕ → List ℕ → Bool
all_reached connection_count [] = false
all_reached connection_count (count ∷ counts) =
    if count == connection_count then true else all_reached connection_count counts

-- The difference of two uint64_t counters.
abbrev pub sub_u64 : ℕ → ℕ → ℕ
sub_u64 a b = (a + 2 ^ 64 - b) % 2 ^ 64

abbrev pub seconds_between : ℤ → ℤ → Double
seconds_between start stop = div (of_int (stop -ℤ start)) (decimal 1000000000 0)

abbrev pub per_second : DoublePrinting → Double → Double → Double
per_second d wall_seconds amount =
    if d.lt (decimal 0 0) wall_seconds then div amount wall_seconds else decimal 0 0

abbrev pub percent_of : DoublePrinting → Double → Double → Double
percent_of d wall_seconds cpu_delta =
    if d.lt (decimal 0 0) wall_seconds
    then mul (div cpu_delta wall_seconds) (decimal 100 0)
    else decimal 0 0

pub record TrialReadings : Type 0 where
  pub setup_start : ℤ
  pub healthy_counts : List ℕ
  pub setup_end : ℤ
  pub cpu_before : List (Option (ℤ × ℤ))
  pub epoll_wait_before : ℕ
  pub events_before : ℕ
  pub window_start : ℤ
  pub cpu_after : List (Option (ℤ × ℤ))
  pub epoll_wait_after : ℕ
  pub events_after : ℕ
  pub window_end : ℤ
  pub status_lines : List Text

pub record ThroughputResult : Type 0 where
  pub connection_count : ℕ
  pub epoll_max_events : ℤ
  pub heartbeat_interval_ms : ℤ
  pub all_healthy : Bool
  pub setup_seconds : Double
  pub cpu_percent : Double
  pub rss_bytes : ℤ
  pub epoll_wait_calls_per_sec : Double
  pub events_per_sec : Double

-- The configuration of the monitor under test.
unfoldable pub trial_config : Config → ℤ → ℤ → ℤ → Config
trial_config config epoll_max_events heartbeat_interval heartbeat_timeout = record config {
  heartbeat_interval = heartbeat_interval;
  heartbeat_timeout = heartbeat_timeout;
  epoll_max_events = epoll_max_events;
}

-- `cpu_before` and `cpu_after` hold the monitor's one thread.
abbrev pub monitor_cpu : List (Option (ℤ × ℤ)) → Double
monitor_cpu [] = decimal 0 0
monitor_cpu (reading ∷ readings) = thread_cpu_seconds reading

unfoldable pub throughput_result : DoublePrinting → ℕ → ℤ → ℤ → TrialReadings → ThroughputResult
throughput_result d connection_count epoll_max_events heartbeat_interval r =
    let wall_seconds = seconds_between r.window_start r.window_end in
    record {
      connection_count = connection_count;
      epoll_max_events = epoll_max_events;
      heartbeat_interval_ms = heartbeat_interval;
      all_healthy = all_reached connection_count r.healthy_counts;
      setup_seconds = seconds_between r.setup_start r.setup_end;
      cpu_percent =
          percent_of d wall_seconds (sub (monitor_cpu r.cpu_after) (monitor_cpu r.cpu_before));
      rss_bytes = current_rss_bytes r.status_lines;
      epoll_wait_calls_per_sec =
          per_second d wall_seconds (of_int (pos (sub_u64 r.epoll_wait_after r.epoll_wait_before)));
      events_per_sec =
          per_second d wall_seconds (of_int (pos (sub_u64 r.events_after r.events_before)));
    }

pub record NaiveThroughputResult : Type 0 where
  pub connection_count : ℕ
  pub all_connected : Bool
  pub setup_seconds : Double
  pub cpu_percent : Double
  pub rss_bytes : ℤ

-- `std::count_if` over the workers' states.
unfoldable pub count_connected : List Bool → ℕ
count_connected [] = 0
count_connected (state ∷ states) =
    let rest = count_connected states in if state then suc rest else rest

-- The workers' states at each poll.
unfoldable pub all_connected_at : ℕ → List (List Bool) → Bool
all_connected_at connection_count [] = false
all_connected_at connection_count (states ∷ polls) =
    if count_connected states == connection_count
    then true
    else all_connected_at connection_count polls

-- `cpu_before` and `cpu_after` hold a reading for each worker; the counters are not read.
unfoldable pub naive_result :
    DoublePrinting → ℕ → List (List Bool) → TrialReadings → NaiveThroughputResult
naive_result d connection_count polls r =
    let wall_seconds = seconds_between r.window_start r.window_end in
    let cpu_before = total_cpu_seconds (decimal 0 0) r.cpu_before in
    let cpu_after = total_cpu_seconds (decimal 0 0) r.cpu_after in
    record {
      connection_count = connection_count;
      all_connected = all_connected_at connection_count polls;
      setup_seconds = seconds_between r.setup_start r.setup_end;
      cpu_percent = percent_of d wall_seconds (sub cpu_after cpu_before);
      rss_bytes = current_rss_bytes r.status_lines;
    }

-- `std::all_of`.
unfoldable pub all_of : {A : Type 0} → (A → Bool) → List A → Bool
all_of test [] = true
all_of test (x ∷ xs) = test x && all_of test xs

-- What is printed of a pair of counts is computed from these: whether every repetition was complete,
-- and the spread of each metric.
pub record RepeatedSummary : Type 0 where
  pub all_complete : Bool
  pub setup : Spread
  pub cpu : Spread
  pub rss : Spread
  pub waits : Spread
  pub events : Spread

infixl 5 ◌>>=◌
abbrev ◌>>=◌ : {A B : Type 0} → Option A → (A → Option B) → Option B
none >>= f = none
some a >>= f = f a

unfoldable pub summarize_repeated : DoublePrinting → List ThroughputResult → Option RepeatedSummary
summarize_repeated d results = do
  setup ← summarize_spread d results (λ r. r.setup_seconds)
  cpu ← summarize_spread d results (λ r. r.cpu_percent)
  rss ← summarize_spread d results (λ r. of_int r.rss_bytes)
  waits ← summarize_spread d results (λ r. r.epoll_wait_calls_per_sec)
  events ← summarize_spread d results (λ r. r.events_per_sec)
  some (record {
    all_complete = all_of (λ r. r.all_healthy) results;
    setup = setup;
    cpu = cpu;
    rss = rss;
    waits = waits;
    events = events;
  })

pub record NaiveSummary : Type 0 where
  pub all_complete : Bool
  pub setup : Spread
  pub cpu : Spread
  pub rss : Spread

unfoldable pub summarize_naive : DoublePrinting → List NaiveThroughputResult → Option NaiveSummary
summarize_naive d results = do
  setup ← summarize_spread d results (λ r. r.setup_seconds)
  cpu ← summarize_spread d results (λ r. r.cpu_percent)
  rss ← summarize_spread d results (λ r. of_int r.rss_bytes)
  some (record {
    all_complete = all_of (λ r. r.all_connected) results;
    setup = setup;
    cpu = cpu;
    rss = rss;
  })
