-- ===== src/Bench/Common/Defs.antt =====
-- Measurement, the two summaries and their texts, affinity, and the reading of /proc/self/status.
use vigil_low_latency_tcp_he.Prelude.{
  ℕ, zero, suc, ◌-◌, ◌/◌, ◌^◌, Option, none, some, List, [], ◌∷◌, ◌++◌, map, length, get_elem?,
  take, drop, ltb, leb, if◌then◌else◌,
}
use vigil_low_latency_tcp_he.Prelude.Int.{ℤ, pos, ◌-ℤ◌, ◌*ℤ◌}
use vigil_low_latency_tcp_he.Prelude.Double.{Double, decimal, of_int}
use vigil_low_latency_tcp_he.Prelude.Text.{Text, text, text_eq}
use vigil_low_latency_tcp_he.Config.{skip_space}
use vigil_low_latency_tcp_he.CommandInput.{read_signed, print_uint}
use vigil_low_latency_tcp_he.Stats.{sort}
use vigil_low_latency_tcp_he.Stats.Percentile.{DoubleTests, percentile}
use vigil_low_latency_tcp_he.CliDisplay.{DoublePrinting, format_duration_ns}

-- `fn` and the clock work on a state of type `S`: `now` reads the clock.
module _ {S : Type 0} (now : S → S × ℤ) (fn : S → S) where
  -- The warmup loop.
  unfoldable pub repeat_calls : ℕ → S → S
  repeat_calls zero s = s
  repeat_calls (suc left) s = repeat_calls left (fn s)

  -- One round of the measured loop: the state and the sample.
  unfoldable pub timed_call : S → S × ℤ
  timed_call s = let (s', t0) = now s in let (s'', t1) = now (fn s') in (s'', t1 -ℤ t0)

  unfoldable pub measured_calls : ℕ → S → S × List ℤ
  measured_calls zero s = (s, [])
  measured_calls (suc left) s =
      let (s', sample) = timed_call s in
      let (s'', samples) = measured_calls left s' in (s'', sample ∷ samples)

  unfoldable pub measure : ℕ → ℕ → S → S × List ℤ
  measure warmup_iters measured_iters s =
      measured_calls measured_iters (repeat_calls warmup_iters s)

-- The results of `n` calls, in their order.
unfoldable pub repeat_trials : {S R : Type 0} → (S → S × R) → ℕ → S → S × List R
repeat_trials fn zero s = (s, [])
repeat_trials fn (suc left) s =
    let (s', result) = fn s in
    let (s'', results) = repeat_trials fn left s' in (s'', result ∷ results)

pub record PercentileReport : Type 0 where
  pub count : ℕ
  pub min : ℤ
  pub p50 : Double
  pub p90 : Double
  pub p99 : Double
  pub p999 : Double
  pub max : Double

abbrev pub empty_report : PercentileReport
empty_report = record {
  count = 0;
  min = pos 0;
  p50 = decimal 0 0;
  p90 = decimal 0 0;
  p99 = decimal 0 0;
  p999 = decimal 0 0;
  max = decimal 0 0;
}

infixl 5 ◌>>=◌
abbrev ◌>>=◌ : {A B : Type 0} → Option A → (A → Option B) → Option B
none >>= f = none
some a >>= f = f a

-- `front` and `back` of a vector.
unfoldable pub front : {A : Type 0} → List A → Option A
front xs = get_elem? xs 0

unfoldable pub back : {A : Type 0} → List A → Option A
back xs = get_elem? xs (length xs - 1)

-- The report of sorted samples. `none` stands for an access outside of the vector.
unfoldable pub report_of : DoubleTests → List ℤ → Option PercentileReport
report_of t [] = some empty_report
report_of t (x ∷ xs) = do
  least ← front (x ∷ xs)
  greatest ← back (x ∷ xs)
  p50 ← percentile t (x ∷ xs) (decimal 50 0)
  p90 ← percentile t (x ∷ xs) (decimal 90 0)
  p99 ← percentile t (x ∷ xs) (decimal 99 0)
  p999 ← percentile t (x ∷ xs) (decimal 999 1)
  some (record {
    count = length (x ∷ xs);
    min = least;
    p50 = p50;
    p90 = p90;
    p99 = p99;
    p999 = p999;
    max = of_int greatest;
  })

unfoldable pub summarize : DoubleTests → List ℤ → Option PercentileReport
summarize t samples = report_of t (sort samples)

-- What `print_report` writes to the standard output.
unfoldable pub report_text : DoublePrinting → Text → PercentileReport → Text
report_text d label r =
    label
    ++ text " ("
    ++ print_uint r.count
    ++ text " samples)\n"
    ++ text "  min="
    ++ format_duration_ns d (of_int r.min)
    ++ text "  p50="
    ++ format_duration_ns d r.p50
    ++ text "  p90="
    ++ format_duration_ns d r.p90
    ++ text "  p99="
    ++ format_duration_ns d r.p99
    ++ text "  p99.9="
    ++ format_duration_ns d r.p999
    ++ text "  max="
    ++ format_duration_ns d r.max
    ++ text "\n"

pub record Spread : Type 0 where
  pub min : Double
  pub median : Double
  pub max : Double

abbrev pub no_spread : Spread
no_spread = record { min = decimal 0 0; median = decimal 0 0; max = decimal 0 0 }

-- `std::sort` of doubles by the hardware's `<`.
unfoldable pub insert_double : DoublePrinting → Double → List Double → List Double
insert_double d x [] = x ∷ []
insert_double d x (y ∷ ys) = if d.lt y x then y ∷ insert_double d x ys else x ∷ y ∷ ys

unfoldable pub sort_doubles : DoublePrinting → List Double → List Double
sort_doubles d [] = []
sort_doubles d (x ∷ xs) = insert_double d x (sort_doubles d xs)

unfoldable pub spread_of : List Double → Option Spread
spread_of [] = some no_spread
spread_of (x ∷ xs) = do
  least ← front (x ∷ xs)
  greatest ← back (x ∷ xs)
  median ← get_elem? (x ∷ xs) (length (x ∷ xs) / 2)
  some (record { min = least; median = median; max = greatest })

unfoldable pub summarize_spread :
    {T : Type 0} → DoublePrinting → List T → (T → Double) → Option Spread
summarize_spread d results extract = spread_of (sort_doubles d (map extract results))

-- `line.rfind(prefix, 0) == 0`: what follows the prefix.
unfoldable pub after_prefix : Text → Text → Option Text
after_prefix prefix line =
    if text_eq (take (length prefix) line) prefix then some (drop (length prefix) line) else none

-- `>> int64_t`: 0 where there is no number, the nearest end of the range where it does not fit.
unfoldable pub read_int64 : Text → ℤ
read_int64 s = elim (read_signed (skip_space s)) [
  | none ↦ pos 0
  | some (negative, n) ↦
      if negative
      then pos 0 -ℤ pos (if leb n (2 ^ 63) then n else 2 ^ 63)
      else pos (if ltb n (2 ^ 63) then n else 2 ^ 63 - 1)
]

-- The lines are those of /proc/self/status, none where it cannot be opened.
unfoldable pub current_rss_bytes : List Text → ℤ
current_rss_bytes [] = pos 0
current_rss_bytes (line ∷ lines) = elim (after_prefix (text "VmRSS:") line) [
  | none ↦ current_rss_bytes lines
  | some rest ↦ read_int64 rest *ℤ pos 1024
]
