-- ===== src/SimulatorMain/Options.antt =====
-- The options of the simulator.
use vigil_low_latency_tcp_he.Prelude.{
  ℕ, ◌-◌, ◌%◌, ◌^◌, Bool, true, false, ◌||◌, Option, none, some, List, [], ◌∷◌, ltb, leb, ◌==◌,
  if◌then◌else◌,
}
use vigil_low_latency_tcp_he.Prelude.Int.{ℤ, pos, negsuc, ◌-ℤ◌}
use vigil_low_latency_tcp_he.Prelude.Double.{Double, decimal}
use vigil_low_latency_tcp_he.Prelude.Text.{Text, text, text_eq}
use vigil_low_latency_tcp_he.Config.{Config, default_config, skip_space, magnitude}
use vigil_low_latency_tcp_he.FeedSimulator.{FaultConfig}

unfoldable pub parse_bool_flag : Text → Bool
parse_bool_flag value = text_eq value (text "true") || text_eq value (text "1")

-- `std::strtoll` behind the spaces, where it reads all of the text and the value is in range.
unfoldable pub strtoll_all : Text → Option ℤ
strtoll_all [] = none
strtoll_all (c ∷ s) =
    if c == 45
    then elim (magnitude s) [
      | none ↦ none
      | some n ↦ if leb n (2 ^ 63) then some (pos 0 -ℤ pos n) else none
    ]
    else elim (magnitude (if c == 43 then s else c ∷ s)) [
      | none ↦ none
      | some n ↦ if ltb n (2 ^ 63) then some (pos n) else none
    ]

unfoldable pub parse_int_arg : Text → Option ℤ
parse_int_arg [] = none
parse_int_arg (c ∷ s) = strtoll_all (skip_space (c ∷ s))

-- `strtod` gives what the library's function reads where it reads all of the text, in range.
unfoldable pub parse_double_arg : (Text → Option Double) → Text → Option Double
parse_double_arg strtod [] = none
parse_double_arg strtod (c ∷ s) = strtod (c ∷ s)

-- `static_cast` of a long long to an unsigned type of `w` bits.
unfoldable pub to_unsigned : ℕ → ℤ → ℕ
to_unsigned w (pos n) = n % 2 ^ w
to_unsigned w (negsuc n) = 2 ^ w - 1 - n % 2 ^ w

-- What `getopt_long` returns, with the argument of the option.
pub data SimulatorOption : Type 0 where
  port feed_id tcp_nodelay edge_triggered : Text → SimulatorOption
  drop_rate extra_latency_ms jitter : Text → SimulatorOption
  help unrecognized : SimulatorOption

-- The local variables of `main`.
pub record Settings : Type 0 where
  pub port : ℕ
  pub port_set : Bool
  pub feed_id : ℕ
  pub config : Config
  pub faults : FaultConfig

abbrev pub no_faults : FaultConfig
no_faults = record { drop_probability = decimal 0 0; extra_latency = pos 0; jitter = false }

abbrev pub initial_settings : Settings
initial_settings = record {
  port = 0;
  port_set = false;
  feed_id = 1;
  config = default_config;
  faults = no_faults;
}

-- `main` goes on with the settings, or returns a status.
pub data Parsed : Type 0 where
  proceed : Settings → Parsed
  exit : (status : ℕ) → Parsed

abbrev pub set_with : {A : Type 0} → Option A → (A → Settings) → Parsed
set_with none set = exit 1
set_with (some value) set = proceed (set value)

-- One round of the loop.
unfoldable pub apply_option : (Text → Option Double) → SimulatorOption → Settings → Parsed
apply_option strtod (SimulatorOption.port raw) o =
    set_with (parse_int_arg raw) (λ v. record o { port = to_unsigned 16 v; port_set = true })
apply_option strtod (SimulatorOption.feed_id raw) o =
    set_with (parse_int_arg raw) (λ v. record o { feed_id = to_unsigned 32 v })
apply_option strtod (SimulatorOption.tcp_nodelay raw) o =
    proceed (record o { config = record (o.config) { tcp_nodelay = parse_bool_flag raw } })
apply_option strtod (SimulatorOption.edge_triggered raw) o =
    proceed (record o { config = record (o.config) { edge_triggered = parse_bool_flag raw } })
apply_option strtod (SimulatorOption.drop_rate raw) o =
    set_with (parse_double_arg strtod raw)
      (λ v. record o { faults = record (o.faults) { drop_probability = v } })
apply_option strtod (SimulatorOption.extra_latency_ms raw) o =
    set_with (parse_int_arg raw)
      (λ v. record o { faults = record (o.faults) { extra_latency = v } })
apply_option strtod (SimulatorOption.jitter raw) o =
    proceed (record o { faults = record (o.faults) { jitter = parse_bool_flag raw } })
apply_option strtod SimulatorOption.help o = exit 0
apply_option strtod SimulatorOption.unrecognized o = exit 1

-- The loop, and the check behind it.
unfoldable pub parse_options : (Text → Option Double) → List SimulatorOption → Settings → Parsed
parse_options strtod [] o = if o.port_set then proceed o else exit 1
parse_options strtod (option ∷ options) o = elim (apply_option strtod option o) [
  | exit status ↦ exit status
  | proceed o' ↦ parse_options strtod options o'
]
