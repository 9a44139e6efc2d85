-- ===== src/FeedMonitor/Backoff.antt =====
-- The backoff of reconnections in closed form, and its bounds with the jitter.
use native.Mathlib.Nat.{pow-suc, pow-succ', mul_assoc}
use vigil_low_latency_tcp_he.Prelude.{ℕ, zero, suc, ◌*◌, ◌^◌, ◌≤◌, min, ◌≡◌, arith}
use vigil_low_latency_tcp_he.Prelude.Int.{pos, ◌*ℤ◌, min_ℤ}
use vigil_low_latency_tcp_he.FeedMonitor.Failure.{double_delay, backoff_ns}
use vigil_low_latency_tcp_he.Config.{Config, to_nanoseconds}

grows : (d n : ℕ) → d ≤ d * 2 ^ n
grows d zero = omega arith
grows d (suc n) = rw (pow-suc 2 n, ← mul_assoc d (2 ^ n) 2) (omega (arith, grows d n))

doubled : (d n : ℕ) → d * 2 * 2 ^ n ≡ d * 2 ^ suc n
doubled d n = rw (pow-succ' 2 n) (mul_assoc d 2 (2 ^ n))

double_delay_lem :
    (n d x : ℕ) → min_ℤ (double_delay n (pos d) (pos x)) (pos x) ≡ pos (min (d * 2 ^ n) x)
unfolding double_delay ◌*ℤ◌
double_delay_lem zero d x = ground arith
double_delay_lem (suc n) d x =
    ground (arith, double_delay_lem n (d * 2) x, doubled d n, grows d (suc n))

-- With a base delay of `base` and a limit of `limit` nanoseconds, the delay before jitter is `base`
-- doubled once for each attempt, 30 times at most, and cut at `limit`.
pub backoff_ns-min :
    (config : Config) (attempt base limit : ℕ)
    → to_nanoseconds config.reconnect_base_delay ≡ pos base
    → to_nanoseconds config.reconnect_max_delay ≡ pos limit
    → backoff_ns config attempt ≡ pos (min (base * 2 ^ min attempt 30) limit)
unfolding backoff_ns
backoff_ns-min config attempt base limit hb hl =
    rw (hb, hl) (double_delay_lem (min attempt 30) base limit)
