-- ===== src/Bench/Common/Measure.antt =====
-- How often `measure` calls the function, and what its samples are.
use vigil_low_latency_tcp_he.Prelude.{ℕ, zero, suc, ◌+◌, ◌≡◌, List, [], ◌∷◌, arith, length}
use vigil_low_latency_tcp_he.Prelude.Int.{ℤ, pos, ◌+ℤ◌}
use vigil_low_latency_tcp_he.Bench.Common.Defs.{repeat_calls, timed_call, measured_calls, measure}

abbrev pub sum_ℤ : List ℤ → ℤ
sum_ℤ [] = pos 0
sum_ℤ (x ∷ xs) = x +ℤ sum_ℤ xs

module _ {S : Type 0} (now : S → S × ℤ) (fn : S → S) (calls : S → ℕ)
    (called : (s : S) → calls (fn s) ≡ calls s + 1)
    (read : (s : S) → calls (now s).0 ≡ calls s) where
  repeat_calls-count : (n : ℕ) (s : S) → calls (repeat_calls now fn n s) ≡ calls s + n
  unfolding repeat_calls
  repeat_calls-count zero s = omega arith
  repeat_calls-count (suc n) s = omega (arith, repeat_calls-count n (fn s), called s)

  measured_calls-count :
      (n : ℕ) (s : S)
      → (calls (measured_calls now fn n s).0 ≡ calls s + n)
        × (length (measured_calls now fn n s).1 ≡ n)
  unfolding measured_calls timed_call
  measured_calls-count zero s = omega arith
  measured_calls-count (suc n) s = omega (
    arith,
    measured_calls-count n (timed_call now fn s).0,
    read s,
    called (now s).0,
    read (fn (now s).0),
  )

  -- For a function whose calls are counted, by a count that reading the clock leaves as it is:
  -- `measure` calls it once for each warmup iteration and once for each measured one, and returns a
  -- sample for each measured call and none for the warmup.
  pub measure_lem :
      (warmup measured : ℕ) (s : S)
      → (calls (measure now fn warmup measured s).0 ≡ calls s + warmup + measured)
        × (length (measure now fn warmup measured s).1 ≡ measured)
  unfolding measure
  measure_lem warmup measured s = omega (
    arith,
    measured_calls-count measured (repeat_calls now fn warmup s),
    repeat_calls-count warmup s,
  )
