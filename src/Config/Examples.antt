-- ===== src/Config/Examples.antt =====
-- Runs of the parsers on concrete inputs, and the witnesses of their theorems.
use vigil_low_latency_tcp_he.Prelude.{◌≡◌, refl, none, some, List, [], ◌∷◌}
use vigil_low_latency_tcp_he.Prelude.Int.{pos, ◌-ℤ◌, ◌+ℤ◌, negsuc}
use vigil_low_latency_tcp_he.Prelude.Text.{text}
use vigil_low_latency_tcp_he.Config.Defs.{default_config}
use vigil_low_latency_tcp_he.Config.Values.{
  skip_space, drop_end_space, trim, digits_from, magnitude, try_parse_int, to_int,
}
use vigil_low_latency_tcp_he.Config.Settings.{Setting}
use vigil_low_latency_tcp_he.Config.Cli.{CliOption, feed, setting, config_file, apply_cli_overrides}
use vigil_low_latency_tcp_he.Config.Feeds.{IsUsable, apply_cli_overrides-IsUsable}

trims : trim (text "  a b\t") ≡ text "a b"
unfolding trim skip_space drop_end_space
trims = refl

forty_two : try_parse_int (text "-42") ≡ some (negsuc 41)
unfolding try_parse_int magnitude digits_from ◌-ℤ◌ ◌+ℤ◌
forty_two = refl

-- The cast to int after the test of the lower bound.
cut : to_int (pos 4294967296) ≡ pos 0
unfolding to_int
cut = refl

abbrev two_feeds : List CliOption
two_feeds =
    feed (text "1:nyse:127.0.0.1:9001")
    ∷ config_file (text "missing.conf")
    ∷ feed (text "1:again:127.0.0.1:9002")
    ∷ setting Setting.max_missed (text "5")
    ∷ []

default_config-IsUsable : IsUsable default_config
unfolding default_config
default_config-IsUsable = (tt, tt)

apply_cli_overrides-IsUsable_example :
    IsUsable (apply_cli_overrides (λ path. none) two_feeds default_config)
apply_cli_overrides-IsUsable_example =
    apply_cli_overrides-IsUsable (λ path. none) two_feeds default_config default_config-IsUsable
