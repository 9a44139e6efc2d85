-- ===== src/CliDisplay/Table.antt =====
-- The table as a whole.
use mathlib.Core.List.{Perm}
use vigil_low_latency_tcp_he.Prelude.{
  ℕ, ◌-◌, ◌≤◌, ◌≡◌, refl, ap, ◌∙◌, Bool, some, List, [], ◌∷◌, ◌++◌, arith, All, if◌then◌else◌,
  length,
}
use vigil_low_latency_tcp_he.Prelude.Int.{ℤ, pos}
use vigil_low_latency_tcp_he.Prelude.Double.{Double, decimal}
use vigil_low_latency_tcp_he.Prelude.Text.{Text}
use vigil_low_latency_tcp_he.Stats.{RingBuffer, new_ring, rtt_capacity, sorted_copy}
use vigil_low_latency_tcp_he.Stats.Window.{push_all, keep_last}
use vigil_low_latency_tcp_he.Stats.Order.{IsSorted, sorted_copy-Perm}
use vigil_low_latency_tcp_he.Stats.Percentile.{percentile, percentile-some, rank_of}
use vigil_low_latency_tcp_he.FeedMonitor.{FeedSnapshot, AggregateStats}
use vigil_low_latency_tcp_he.CliDisplay.Defs.{
  DoublePrinting, p99_rtt, format_rows, format_table, row_text, ansi_clear, summary, header_row,
}

-- The ring that is left by round trips, the first one first.
abbrev pub recorded : List ℤ → RingBuffer ℤ
recorded trips = push_all rtt_capacity (new_ring rtt_capacity (pos 0)) trips

-- `p99` is the 99th percentile of the last 256 of the round trips, put in ascending order.
abbrev pub IsP99 : DoublePrinting → List ℤ → Double → Type 0
IsP99 d trips p99 =
    (samples : List ℤ) × IsSorted samples
    × Perm samples (keep_last rtt_capacity trips)
    × (percentile d.tests samples (decimal 99 0) ≡ some p99)

-- One row for each feed, in order, with the percentile of the feed's own round trips.
abbrev pub AreRows :
    DoublePrinting → ℤ → (FeedSnapshot → List ℤ) → List FeedSnapshot → Text → Type 0
AreRows d now history [] rows = rows ≡ []
AreRows d now history (f ∷ feeds) rows =
    (p99 : Double) × (rest : Text) × IsP99 d (history f) p99
    × (rows ≡ row_text d now p99 f ++ rest)
    × AreRows d now history feeds rest

module _ (d : DoublePrinting)
    (small : (size : ℕ) → d.tests.truncate (rank_of size (decimal 99 0)) ≤ size - 1) where
  p99_rtt-some :
      (ring : RingBuffer ℤ) (samples : List ℤ) (p99 : Double)
      → sorted_copy ring ≡ some samples
      → percentile d.tests samples (decimal 99 0) ≡ some p99
      → p99_rtt d ring ≡ some p99
  unfolding p99_rtt
  p99_rtt-some ring samples p99 copied e = rw (p99_rtt, copied) e

  p99_rtt-IsP99 :
      (ring : RingBuffer ℤ) (trips : List ℤ)
      → ring ≡ recorded trips
      → (p99 : Double) × IsP99 d trips p99 × (p99_rtt d ring ≡ some p99)
  p99_rtt-IsP99 ring trips made =
      let (samples, copied, sorted, same) =
        sorted_copy-Perm rtt_capacity (pos 0) trips (omega arith) in
      let (p99, e) =
        percentile-some d.tests samples (decimal 99 0) (λ low high. small (length samples)) in
      (
        p99,
        (samples, sorted, same, e),
        p99_rtt-some ring samples p99 (ap sorted_copy made ∙ copied) e,
      )

  module _ (now : ℤ) (history : FeedSnapshot → List ℤ) where
    format_rows-AreRows :
        (feeds : List FeedSnapshot)
        → All (λ f. f.stats.rtt_samples_ns ≡ recorded (history f)) feeds
        → (rows : Text) × AreRows d now history feeds rows × (format_rows d now feeds ≡ some rows)
    unfolding format_rows
    format_rows-AreRows [] all = ([], refl, refl)
    format_rows-AreRows (f ∷ feeds) all =
        let (p99, is_p99, e) = p99_rtt-IsP99 f.stats.rtt_samples_ns (history f) all.0 in
        let (rows, are, r) = format_rows-AreRows feeds all.1 in
        (row_text d now p99 f ++ rows, (p99, rows, is_p99, refl, are), rw (format_rows, e, r) refl)

    -- If the window of each feed is what the round trips recorded for it have left, the table is made
    -- without a read outside of an array. It is the heading and then one row for each feed, in order,
    -- with the 99th percentile of the last 256 round trips of that feed. Of the arithmetic on doubles it
    -- is assumed that the rank `99 / 100 * (size - 1)` is truncated to at most `size - 1`.
    pub format_table-AreRows :
        (stats : AggregateStats) (use_ansi : Bool)
        → All (λ f. f.stats.rtt_samples_ns ≡ recorded (history f)) stats.feeds
        → (rows : Text) × AreRows d now history stats.feeds rows
          × (format_table d stats use_ansi now
              ≡ some ((if use_ansi then ansi_clear else []) ++ summary stats ++ header_row ++ rows))
    unfolding format_table
    format_table-AreRows stats use_ansi all =
        let (rows, are, r) = format_rows-AreRows stats.feeds all in
        (rows, are, rw (format_table, r) refl)
