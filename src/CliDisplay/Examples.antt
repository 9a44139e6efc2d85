-- ===== src/CliDisplay/Examples.antt =====
-- Fields and times on concrete inputs, and the witnesses of the theorems on them.
use vigil_low_latency_tcp_he.Prelude.{
  ℕ, ◌*◌, ◌/◌, ◌^◌, ◌≡◌, refl, Bool, true, false, some, List, [], ◌∷◌, ◌++◌, arith, leb, ◌==◌,
  if◌then◌else◌,
}
use vigil_low_latency_tcp_he.Prelude.Int.{ℤ, pos, ◌-ℤ◌}
use vigil_low_latency_tcp_he.Prelude.Text.{Text, text}
use vigil_low_latency_tcp_he.CommandInput.{print_uint, print_digits}
use vigil_low_latency_tcp_he.Stats.{new_stats, record_pong_received, ConnectionStats}
use vigil_low_latency_tcp_he.Stats.Window.{push_all}
use vigil_low_latency_tcp_he.Prelude.Double.{Double, decimal, mul, div, of_int}
use vigil_low_latency_tcp_he.Connection.{ConnectionState}
use vigil_low_latency_tcp_he.FeedMonitor.{AggregateStats, FeedSnapshot}
use vigil_low_latency_tcp_he.CliDisplay.Defs.{
  DoublePrinting, format_uptime, div_int64, two_digits, format_table, ansi_clear, summary,
  header_row,
}
use vigil_low_latency_tcp_he.CliDisplay.Table.{AreRows, format_table-AreRows}

an_hour : format_uptime (pos 1) (pos 3723000000001) ≡ text "01:02:03"
unfolding format_uptime div_int64 two_digits print_uint print_digits ◌-ℤ◌
an_hour = refl

-- Exact tests and an exact truncation, for the numbers that the table is made of.
abbrev exact : DoublePrinting
exact = record {
  lt = λ a b. false;
  fixed2 = λ d. text "0.00";
  tests = record { le = at_most; truncate = floor };
}
  where
    at_most : Double → Double → Bool
    at_most (decimal n k) (decimal m j) = leb (n * 10 ^ j) (m * 10 ^ k)
    at_most a b = false

    floor : Double → ℕ
    floor (mul (div (decimal n k) (decimal m j)) (of_int (pos size))) =
        n * 10 ^ j * size / (m * 10 ^ k)
    floor d = 0

-- The round trips that each feed has seen.
abbrev trips_of : FeedSnapshot → List ℤ
trips_of f = if f.feed_id == 7 then pos 40 ∷ pos 20 ∷ pos 50 ∷ [] else pos 30 ∷ []

abbrev seen : ConnectionStats → List ℤ → ConnectionStats
seen stats [] = stats
seen stats (trip ∷ trips) = seen (record_pong_received stats trip) trips

abbrev two_feeds : AggregateStats
two_feeds = record {
  healthy_count = 2;
  degraded_count = 0;
  failed_count = 0;
  reconnecting_count = 0;
  feeds =
      record {
        feed_id = 7;
        name = text "nyse";
        state = ConnectionState.healthy;
        stats = seen new_stats (pos 40 ∷ pos 20 ∷ pos 50 ∷ []);
      }
      ∷ record {
        feed_id = 8;
        name = text "lse";
        state = ConnectionState.healthy;
        stats = seen new_stats (pos 30 ∷ []);
      }
      ∷ [];
}

format_table-AreRows_example :
    (rows : Text) × AreRows exact (pos 5) trips_of two_feeds.feeds rows
    × (format_table exact two_feeds true (pos 5)
        ≡ some (ansi_clear ++ summary two_feeds ++ header_row ++ rows))
unfolding record_pong_received new_stats push_all
format_table-AreRows_example =
    format_table-AreRows exact (λ size. omega arith) (pos 5) trips_of two_feeds true
      (refl, (refl, tt))
