-- ===== src/Stats/Examples.antt =====
-- Runs of the ring on concrete inputs, and the witnesses of its theorems.
use vigil_low_latency_tcp_he.Prelude.{some, ◌≡◌, List, ℕ, ◌≡◌, refl, List, [], ◌∷◌, arith, false}
use mathlib.Core.List.{Perm}
use vigil_low_latency_tcp_he.Prelude.{some}
use vigil_low_latency_tcp_he.Prelude.Int.{ℤ, pos}
use vigil_low_latency_tcp_he.Prelude.Double.{Double, decimal}
use vigil_low_latency_tcp_he.Stats.Defs.{new_ring, push, sorted_copy, sort, insert_sorted}
use vigil_low_latency_tcp_he.Stats.Order.{IsSorted, sorted_copy-Perm}
use vigil_low_latency_tcp_he.Stats.Percentile.{DoubleTests, percentile, percentile-some}
use vigil_low_latency_tcp_he.Stats.Window.{contents, keep_last, push_all, contents-new_ring}

-- Five pushes into three places.
abbrev samples : List ℕ
samples = 11 ∷ 12 ∷ 13 ∷ 14 ∷ 15 ∷ []

last_three : keep_last 3 samples ≡ 13 ∷ 14 ∷ 15 ∷ []
last_three = refl

contents-new_ring_example : contents 3 (push_all 3 (new_ring 3 0) samples) ≡ keep_last 3 samples
contents-new_ring_example = contents-new_ring 3 0 samples (omega arith)

-- Five unsorted round trips into three places.
abbrev trips : List ℤ
trips = pos 30 ∷ pos 10 ∷ pos 50 ∷ pos 20 ∷ pos 40 ∷ []

sorted_copy-Perm_example :
    (xs : List ℤ) × (sorted_copy (push_all 3 (new_ring 3 (pos 0)) trips) ≡ some xs)
    × IsSorted xs
    × Perm xs (keep_last 3 trips)
sorted_copy-Perm_example = sorted_copy-Perm 3 (pos 0) trips (omega arith)

three_trips :
    sorted_copy (push_all 3 (new_ring 3 (pos 0)) trips) ≡ some (pos 20 ∷ pos 40 ∷ pos 50 ∷ [])
unfolding sorted_copy push_all push sort insert_sorted
three_trips = refl

-- No test holds, and every rank is truncated to 0.
abbrev low_ranks : DoubleTests
low_ranks = record { le = λ a b. false; truncate = λ d. 0 }

percentile-some_example : (d : Double) × (percentile low_ranks trips (decimal 99 0) ≡ some d)
percentile-some_example = percentile-some low_ranks trips (decimal 99 0) (λ low high. omega arith)
