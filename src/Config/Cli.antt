-- ===== src/Config/Cli.antt =====
-- The command line: `apply_cli_overrides`.
use vigil_low_latency_tcp_he.Prelude.{true, Option, none, some, List, [], ◌∷◌}
use vigil_low_latency_tcp_he.Prelude.Text.{Text}
use vigil_low_latency_tcp_he.Config.Defs.{Config}
use vigil_low_latency_tcp_he.Config.Settings.{Setting, apply_setting}
use vigil_low_latency_tcp_he.Config.Parse.{split_on, validate_and_add_feed, parse_config_file}

-- What `getopt_long` returns, with the argument of the option.
pub data CliOption : Type 0 where
  config_file : Text → CliOption
  help : CliOption
  setting : Setting → Text → CliOption
  feed : Text → CliOption
  unrecognized : CliOption

unfoldable pub split_feed_spec : Text → Option (Text × Text × Text × Text)
split_feed_spec spec = elim (split_on 58 spec) [
  | id ∷ name ∷ host ∷ port ∷ [] ↦ some (id, name, host, port)
  | _ ↦ none
]

-- The first pass: `--config` only.
unfoldable pub load_files : (Text → Option Text) → List CliOption → Config → Config
load_files read [] config = config
load_files read (config_file path ∷ options) config = elim (parse_config_file (read path)) [
  | none ↦ load_files read options config
  | some loaded ↦ load_files read options loaded
]
load_files read (option ∷ options) config = load_files read options config

unfoldable pub apply_option : CliOption → Config → Config
apply_option (config_file path) config = config
apply_option help config = record config { help_requested = true }
apply_option (setting s value) config = apply_setting s value config
apply_option (feed spec) config = elim (split_feed_spec spec) [
  | none ↦ config
  | some (id, name, host, port) ↦
      validate_and_add_feed config (some id) (some name) (some host) (some port)
]
apply_option unrecognized config = config

unfoldable pub apply_options : List CliOption → Config → Config
apply_options [] config = config
apply_options (option ∷ options) config = apply_options options (apply_option option config)

-- `read` gives the content of a file, `options` is what `getopt_long` finds in `argv`.
unfoldable pub apply_cli_overrides : (Text → Option Text) → List CliOption → Config → Config
apply_cli_overrides read options base = apply_options options (load_files read options base)
