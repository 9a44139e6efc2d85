-- ===== src/Bench/Throughput/Options.antt =====
-- The arguments of `main`, and the trials that it runs.
use vigil_low_latency_tcp_he.Prelude.{
  ℕ, zero, suc, ◌-◌, ◌^◌, Bool, true, false, ◌&&◌, Option, none, some, List, [], ◌∷◌, ◌++◌, map,
  length, get_elem?, ltb, ◌==◌, if◌then◌else◌,
}
use vigil_low_latency_tcp_he.Prelude.Int.{ℤ, pos, ◌*ℤ◌}
use vigil_low_latency_tcp_he.Prelude.Text.{Text, text, text_eq}
use vigil_low_latency_tcp_he.Config.{skip_space}
use vigil_low_latency_tcp_he.CommandInput.{read_signed}
use vigil_low_latency_tcp_he.Heartbeat.{to_bits64}
use vigil_low_latency_tcp_he.Bench.Common.{read_int64, back}

pub record Flags : Type 0 where
  pub naive_mode : Bool
  pub naive_only : Bool
  pub positional : List Text

-- One argument of the loop.
unfoldable pub strip_flag : Text → Flags → Flags
strip_flag arg f =
    if text_eq arg (text "--naive")
    then record f { naive_mode = true }
    else if text_eq arg (text "--naive-only")
    then record f { naive_mode = true; naive_only = true }
    else record f { positional = f.positional ++ arg ∷ [] }

unfoldable pub strip_flags : List Text → Flags → Flags
strip_flags [] f = f
strip_flags (arg ∷ args) f = strip_flags args (strip_flag arg f)

abbrev pub no_flags : Flags
no_flags = record { naive_mode = false; naive_only = false; positional = [] }

-- `std::stoul`; `none` is its exception, which nothing catches. A minus sign negates modulo 2 ^ 64.
unfoldable pub stoul : Text → Option ℕ
stoul s = elim (read_signed (skip_space s)) [
  | none ↦ none
  | some (negative, n) ↦
      if ltb n (2 ^ 64) then some (if negative && ltb 0 n then 2 ^ 64 - n else n) else none
]

abbrev pub comma : ℕ
comma = 44

-- `arg.find(',', pos)`: the text before the next comma, and what follows the comma if there is one.
unfoldable pub until_comma : Text → Text × Option Text
until_comma [] = ([], none)
until_comma (c ∷ s) =
    let more = until_comma s in if c == comma then ([], some s) else (c ∷ more.0, more.1)

-- The loop over the list of counts; `rest` is the text from `pos` on. Each round but the last takes a
-- comma, so one round for each character is enough.
unfoldable pub counts_loop : ℕ → Text → Option (List ℕ)
counts_loop fuel [] = some []
counts_loop zero (c ∷ rest) = some []
counts_loop (suc fuel) (c ∷ rest) = elim (stoul (until_comma (c ∷ rest)).0) [
  | none ↦ none
  | some n ↦ elim ((until_comma (c ∷ rest)).1) [
    | none ↦ some (n ∷ [])
    | some rest' ↦ elim (counts_loop fuel rest') [ none ↦ none | some counts ↦ some (n ∷ counts) ]
  ]
]

unfoldable pub parse_counts : Text → Option (List ℕ)
parse_counts arg = counts_loop (length arg) arg

-- `static_cast<size_t>(std::atoll(…))`.
unfoldable pub atoll_size : Text → ℕ
atoll_size s = to_bits64 (read_int64 s)

-- What is run: a trial of the monitor with a count and a batch size, or of the workers with a count.
pub data Trial : Type 0 where
  monitor_trial : ℕ → ℤ → Trial
  naive_trial : ℕ → Trial

pub record Plan : Type 0 where
  pub heartbeat_interval : ℤ
  pub heartbeat_timeout : ℤ
  pub repetitions : ℕ
  pub trials : List Trial

abbrev pub default_counts : List ℕ
default_counts = 10 ∷ 100 ∷ 500 ∷ 1000 ∷ []

unfoldable pub counts_of : List Text → Option (List ℕ)
counts_of positional = elim (get_elem? positional 0) [
  | none ↦ some default_counts
  | some arg ↦ parse_counts arg
]

unfoldable pub interval_of : List Text → ℤ
interval_of positional = elim (get_elem? positional 1) [
  | none ↦ pos 1000
  | some arg ↦ read_int64 arg
]

unfoldable pub repetitions_of : List Text → ℕ
repetitions_of positional = elim (get_elem? positional 2) [ none ↦ 3 | some arg ↦ atoll_size arg ]

-- The two sections of the monitor. `none` stands for `back` of an empty vector.
unfoldable pub monitor_trials : List ℕ → Option (List Trial)
monitor_trials counts = elim (back counts) [
  | none ↦ none
  | some last ↦ some (
      map (λ n. monitor_trial n (pos 256)) counts
      ++ map (λ batch. monitor_trial last (pos batch)) (16 ∷ 64 ∷ 256 ∷ 1024 ∷ []))
]

unfoldable pub trials_of : Flags → List ℕ → Option (List Trial)
trials_of f counts =
    let naive = if f.naive_mode then map naive_trial counts else [] in
    if f.naive_only
    then some naive
    else elim (monitor_trials counts) [ none ↦ none | some trials ↦ some (trials ++ naive) ]

-- `none` where an exception ends the program, or `back` is called on no counts.
unfoldable pub plan_of : Flags → Option Plan
plan_of f = elim (counts_of f.positional) [
  | none ↦ none
  | some counts ↦ elim (trials_of f counts) [
    | none ↦ none
    | some trials ↦ some (record {
      heartbeat_interval = interval_of f.positional;
      heartbeat_timeout = interval_of f.positional *ℤ pos 3;
      repetitions = repetitions_of f.positional;
      trials = trials;
    })
  ]
]

unfoldable pub main_plan : List Text → Option Plan
main_plan args = plan_of (strip_flags args no_flags)
