-- ===== src/Bench/Common/Examples.antt =====
-- Tests of the benchmarks' common code, and its theorems at concrete inputs.
use vigil_low_latency_tcp_he.Prelude.{ℕ, ◌+◌, ◌≡◌, arith, [], refl, ◌∷◌, some, false}
use vigil_low_latency_tcp_he.Prelude.Int.{ℤ, pos, ◌-ℤ◌}
use vigil_low_latency_tcp_he.Stats.Percentile.{DoubleTests}
use vigil_low_latency_tcp_he.Bench.Common.Defs.{
  PercentileReport, summarize, measure, measured_calls, timed_call, repeat_calls,
}
use vigil_low_latency_tcp_he.Bench.Common.Summary.{Reports, summarize-some}

-- A clock that goes on by 5 with every reading, and a count of the calls.
abbrev ticks : ℕ × ℕ → (ℕ × ℕ) × ℤ
ticks (time, calls) = ((time + 5, calls), pos time)

abbrev count_call : ℕ × ℕ → ℕ × ℕ
count_call (time, calls) = (time, calls + 1)

three_samples : measure ticks count_call 2 3 (0, 0) ≡ ((30, 5), pos 5 ∷ pos 5 ∷ pos 5 ∷ [])
unfolding measure measured_calls timed_call repeat_calls ◌-ℤ◌
three_samples = refl

-- Every rank is truncated to 0.
abbrev to_zero : DoubleTests
to_zero = record { le = λ a b. false; truncate = λ a. 0 }

summarize-some_example :
    (r : PercentileReport) × (summarize to_zero (pos 30 ∷ pos 10 ∷ pos 20 ∷ []) ≡ some r)
    × Reports (pos 30 ∷ pos 10 ∷ pos 20 ∷ []) r
summarize-some_example =
    summarize-some to_zero (λ size p above below. omega arith) (pos 30) (pos 10 ∷ pos 20 ∷ [])
