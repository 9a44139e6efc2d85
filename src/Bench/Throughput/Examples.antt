-- ===== src/Bench/Throughput/Examples.antt =====
-- Tests of the arguments of throughput_bench, and the theorems at concrete inputs.
use vigil_low_latency_tcp_he.Prelude.{◌≡◌, refl, [], ◌∷◌, none}
use vigil_low_latency_tcp_he.Prelude.Text.{text, text_eq}
use vigil_low_latency_tcp_he.Bench.Common.{back}
use vigil_low_latency_tcp_he.CommandInput.{read_signed, read_digits, leading_digits}
use vigil_low_latency_tcp_he.Config.{skip_space}
use vigil_low_latency_tcp_he.Bench.Throughput.Options.{
  parse_counts, counts_loop, main_plan, plan_of, strip_flags, counts_of, stoul, strip_flag,
  trials_of, monitor_trials, until_comma,
}

-- An empty list of counts: `counts.back()` has no last element.
no_counts : main_plan (text "" ∷ []) ≡ none
unfolding main_plan plan_of counts_of strip_flags strip_flag text_eq parse_counts counts_loop
    trials_of monitor_trials back
no_counts = refl

-- An empty count is not a number.
empty_count : parse_counts (text "1,,2") ≡ none
unfolding parse_counts counts_loop stoul read_signed skip_space until_comma read_digits
    leading_digits
empty_count = refl
