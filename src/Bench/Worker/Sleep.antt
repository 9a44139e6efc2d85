-- ===== src/Bench/Worker/Sleep.antt =====
-- How long the worker sleeps between two PINGs.
use vigil_low_latency_tcp_he.Prelude.{
  ℕ, zero, suc, ◌+◌, ◌-◌, ◌*◌, min, ◌≤◌, ◌<◌, ◌≡◌, Bool, true, false, List, [], ◌∷◌, arith, ltb,
  Bool-cases, inl, inr, All, ap, ◌∙◌,
}
use vigil_low_latency_tcp_he.Prelude.Int.{ℤ, pos_part}
use vigil_low_latency_tcp_he.Bench.Worker.Defs.{sleep_loop, sleep_slices}

abbrev pub sum : List ℕ → ℕ
sum [] = 0
sum (x ∷ xs) = x + sum xs

abbrev pub IsSlice : ℕ → Type 0
IsSlice n = (0 < n) × (n ≤ 50)

sleep_loop-sum :
    (fuel : ℕ) (stops : ℕ → Bool) (i left remaining : ℕ)
    → remaining ≤ fuel
    → ((j : ℕ) → j < i + left → stops j ≡ false)
    → stops (i + left) ≡ true
    → (sum (sleep_loop fuel stops i remaining) ≡ min remaining (50 * left))
      × All IsSlice (sleep_loop fuel stops i remaining)
unfolding sleep_loop
sleep_loop-sum zero stops i left remaining enough before at = (omega arith, tt)
sleep_loop-sum (suc fuel) stops i zero remaining enough before at =
    let here : stops i ≡ true = ap stops (omega arith) ∙ at in ground (arith, here)
sleep_loop-sum (suc fuel) stops i (suc left) remaining enough before at =
    let here : stops i ≡ false = before i (omega arith) in
    let there : stops (i + 1 + left) ≡ true = ap stops (omega arith) ∙ at in
    let slice = min remaining 50 in
    elim (Bool-cases (ltb 0 remaining)) [
      | inr over ↦ ground (arith, over)
      | inl more ↦
          let ih =
            sleep_loop-sum fuel stops (i + 1) left (remaining - slice) (ground (arith, more))
              (λ j h. before j (omega arith)) there in
          rw (more, here, sleep_loop)
            (ground (arith, ih.0, more), ((ground (arith, more), omega arith), ih.1))
    ]

-- The flag is read as not set before each of the first `k` slices, and as set before the next. Then the
-- worker sleeps for the heartbeat interval, or for `50 * k` milliseconds where that is less; for an
-- interval below 0 it does not sleep. Each slice is of 1 to 50 milliseconds.
pub sleep_slices_lem :
    (stops : ℕ → Bool) (k : ℕ) (interval_ms : ℤ)
    → ((j : ℕ) → j < k → stops j ≡ false)
    → stops k ≡ true
    → (sum (sleep_slices stops interval_ms) ≡ min (pos_part interval_ms) (50 * k))
      × All IsSlice (sleep_slices stops interval_ms)
unfolding sleep_slices
sleep_slices_lem stops k interval_ms before at =
    sleep_loop-sum (pos_part interval_ms) stops 0 k (pos_part interval_ms) (omega arith)
      (λ j h. before j (omega arith)) (ap stops (omega arith) ∙ at)
