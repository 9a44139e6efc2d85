-- ===== src/CliDisplay/Defs.antt =====
-- The text of the table, from one snapshot.
use vigil_low_latency_tcp_he.Prelude.{
  ℕ, ◌+◌, ◌-◌, ◌/◌, ◌%◌, Bool, Option, none, some, List, [], ◌∷◌, ◌++◌, length, replicate, ltb,
  ◌==◌, if◌then◌else◌,
}
use vigil_low_latency_tcp_he.Prelude.Int.{ℤ, pos, negsuc, pos_part, ◌+ℤ◌, ◌-ℤ◌, ◌*ℤ◌, leb_ℤ, ltb_ℤ}
use vigil_low_latency_tcp_he.Prelude.Double.{Double, decimal, of_int, div}
use vigil_low_latency_tcp_he.Prelude.Text.{Text, text}
use vigil_low_latency_tcp_he.CommandInput.{print_uint}
use vigil_low_latency_tcp_he.Stats.{RingBuffer, sorted_copy}
use vigil_low_latency_tcp_he.Stats.Percentile.{DoubleTests, percentile}
use vigil_low_latency_tcp_he.Connection.{ConnectionState}
use vigil_low_latency_tcp_he.FeedMonitor.{FeedSnapshot, AggregateStats}

-- `lt` is the test `<`, and `fixed2` prints with two digits behind the point.
pub record DoublePrinting : Type 0 where
  pub lt : Double → Double → Bool
  pub fixed2 : Double → Text
  pub tests : DoubleTests

-- `clock_gettime` gives seconds and nanoseconds.
unfoldable pub now_monotonic_ns : ℤ → ℤ → ℤ
now_monotonic_ns tv_sec tv_nsec = tv_sec *ℤ pos 1000000000 +ℤ tv_nsec

unfoldable pub format_duration_ns : DoublePrinting → Double → Text
format_duration_ns d ns =
    if d.lt ns (decimal 1000 0)
    then d.fixed2 ns ++ text "ns"
    else if d.lt ns (decimal 1000000 0)
    then d.fixed2 (div ns (decimal 1000 0)) ++ text "us"
    else if d.lt ns (decimal 1000000000 0)
    then d.fixed2 (div ns (decimal 1000000 0)) ++ text "ms"
    else d.fixed2 (div ns (decimal 1000000000 0)) ++ text "s"

-- The names of the states.
unfoldable pub to_string : ConnectionState → Text
to_string ConnectionState.disconnected = text "DISCONNECTED"
to_string ConnectionState.connecting = text "CONNECTING"
to_string ConnectionState.handshaking = text "HANDSHAKING"
to_string ConnectionState.healthy = text "HEALTHY"
to_string ConnectionState.degraded = text "DEGRADED"
to_string ConnectionState.failed = text "FAILED"
to_string ConnectionState.reconnecting = text "RECONNECTING"

abbrev pub space : ℕ
space = 32

-- `value` is what `<<` prints for the value.
unfoldable pub pad_field : Text → ℕ → Text
pad_field value width =
    (if ltb (length value) width then value ++ replicate (width - length value) space else value)
    ++ space ∷ []

unfoldable pub format_rtt_or_dash : DoublePrinting → Double → ℕ → Text
format_rtt_or_dash d ns heartbeats_acked =
    if heartbeats_acked == 0 then text "-" else format_duration_ns d ns

-- The division of an int64_t by a positive number, towards zero.
unfoldable pub div_int64 : ℤ → ℕ → ℤ
div_int64 (pos n) k = pos (n / k)
div_int64 (negsuc n) k = pos 0 -ℤ pos ((n + 1) / k)

-- `std::setfill('0') << std::setw(2)`.
unfoldable pub two_digits : ℕ → Text
two_digits n = replicate (2 - length (print_uint n)) 48 ++ print_uint n

abbrev pub clock_text : ℕ → Text
clock_text elapsed_s =
    two_digits (elapsed_s / 3600)
    ++ text ":"
    ++ two_digits (elapsed_s % 3600 / 60)
    ++ text ":"
    ++ two_digits (elapsed_s % 60)

unfoldable pub format_uptime : ℤ → ℤ → Text
format_uptime connected_since_ns now_ns =
    let elapsed_s = div_int64 (now_ns -ℤ connected_since_ns) 1000000000 in
    if leb_ℤ connected_since_ns (pos 0)
    then text "-"
    else clock_text (pos_part (if ltb_ℤ elapsed_s (pos 0) then pos 0 else elapsed_s))

abbrev pub header_row : Text
header_row =
    pad_field (text "FEED") 5
    ++ pad_field (text "NAME") 13
    ++ pad_field (text "STATE") 13
    ++ pad_field (text "LAST_RTT") 11
    ++ pad_field (text "EWMA_RTT") 11
    ++ pad_field (text "P99_RTT") 11
    ++ pad_field (text "MISSED") 7
    ++ pad_field (text "RECONN") 7
    ++ pad_field (text "UPTIME") 9
    ++ text "\n"

-- The row of a feed whose 99th percentile is `p99`.
unfoldable pub row_text : DoublePrinting → ℤ → Double → FeedSnapshot → Text
row_text d now_ns p99 f =
    let acked = f.stats.heartbeats_acked in
    pad_field (print_uint f.feed_id) 5
    ++ pad_field f.name 13
    ++ pad_field (to_string f.state) 13
    ++ pad_field (format_rtt_or_dash d (of_int f.stats.last_rtt_ns) acked) 11
    ++ pad_field (format_rtt_or_dash d f.stats.ewma_rtt_ns acked) 11
    ++ pad_field (format_rtt_or_dash d p99 acked) 11
    ++ pad_field (print_uint f.stats.missed) 7
    ++ pad_field (print_uint f.stats.reconnects) 7
    ++ pad_field (format_uptime f.stats.connected_since_ns now_ns) 9
    ++ text "\n"

-- The 99th percentile of a feed's window. `none` stands for an access outside of an array.
unfoldable pub p99_rtt : DoublePrinting → RingBuffer ℤ → Option Double
p99_rtt d ring = elim (sorted_copy ring) [
  | none ↦ none
  | some samples ↦ percentile d.tests samples (decimal 99 0)
]

-- The loop over the feeds.
unfoldable pub format_rows : DoublePrinting → ℤ → List FeedSnapshot → Option Text
format_rows d now_ns [] = some []
format_rows d now_ns (f ∷ feeds) = elim (p99_rtt d f.stats.rtt_samples_ns) [
  | none ↦ none
  | some p99 ↦ elim (format_rows d now_ns feeds) [
    | none ↦ none
    | some rows ↦ some (row_text d now_ns p99 f ++ rows)
  ]
]

abbrev pub summary : AggregateStats → Text
summary stats =
    text "Low-Latency TCP Heartbeat Monitor -- "
    ++ print_uint (length stats.feeds)
    ++ text " feeds  (healthy="
    ++ print_uint stats.healthy_count
    ++ text " degraded="
    ++ print_uint stats.degraded_count
    ++ text " failed="
    ++ print_uint stats.failed_count
    ++ text " reconnecting="
    ++ print_uint stats.reconnecting_count
    ++ text ")\n\n"

-- Cursor home, and clear to the end of the screen.
abbrev pub ansi_clear : Text
ansi_clear = 27 ∷ text "[H" ++ 27 ∷ text "[J"

unfoldable pub format_table : DoublePrinting → AggregateStats → Bool → ℤ → Option Text
format_table d stats use_ansi now_ns = elim (format_rows d now_ns stats.feeds) [
  | none ↦ none
  | some rows ↦ some ((if use_ansi then ansi_clear else []) ++ summary stats ++ header_row ++ rows)
]
