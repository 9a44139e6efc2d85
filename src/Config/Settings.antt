-- ===== src/Config/Settings.antt =====
-- One setting at a time: `apply_global_key` and the flags that share its tests.
use vigil_low_latency_tcp_he.Prelude.{Option, none, some, if◌then◌else◌}
use vigil_low_latency_tcp_he.Prelude.Int.{ℤ, pos, negsuc}
use vigil_low_latency_tcp_he.Prelude.Text.{Text, text, text_eq}
use vigil_low_latency_tcp_he.Config.Defs.{Config}
use vigil_low_latency_tcp_he.Config.Values.{
  try_parse_bool, is_valid_log_level, require_int_at_least, to_int,
}

-- The settings that a key of the file or a flag of the command line names.
pub data Setting : Type 0 where
  heartbeat_interval_ms heartbeat_timeout_ms max_missed reconnect_base_delay_ms : Setting
  reconnect_max_delay_ms max_attempts max_events tick_interval_ms : Setting
  nodelay edge level : Setting

-- The smallest value that the code lets pass: -1 stands for no limit of attempts.
abbrev pub least : Setting → ℤ
least Setting.max_attempts = negsuc 0
least _ = pos 1

unfoldable pub store_int : Setting → ℤ → Config → Config
store_int Setting.heartbeat_interval_ms v c = record c { heartbeat_interval = v }
store_int Setting.heartbeat_timeout_ms v c = record c { heartbeat_timeout = v }
store_int Setting.max_missed v c = record c { max_missed_heartbeats = to_int v }
store_int Setting.reconnect_base_delay_ms v c = record c { reconnect_base_delay = v }
store_int Setting.reconnect_max_delay_ms v c = record c { reconnect_max_delay = v }
store_int Setting.max_attempts v c = record c { max_reconnect_attempts = to_int v }
store_int Setting.max_events v c = record c { epoll_max_events = to_int v }
store_int Setting.tick_interval_ms v c = record c { tick_interval = v }
store_int _ v c = c

-- One setting from its text. An invalid value keeps what is there.
unfoldable pub apply_setting : Setting → Text → Config → Config
apply_setting Setting.nodelay value c = elim (try_parse_bool value) [
  | none ↦ c
  | some v ↦ record c { tcp_nodelay = v }
]
apply_setting Setting.edge value c = elim (try_parse_bool value) [
  | none ↦ c
  | some v ↦ record c { edge_triggered = v }
]
apply_setting Setting.level value c =
    if is_valid_log_level value then record c { log_level = value } else c
apply_setting s value c = elim (require_int_at_least value (least s)) [
  | none ↦ c
  | some v ↦ store_int s v c
]

unfoldable pub setting_of_key : Text → Option Setting
setting_of_key key =
    if text_eq key (text "heartbeat_interval_ms")
    then some Setting.heartbeat_interval_ms
    else if text_eq key (text "heartbeat_timeout_ms")
    then some Setting.heartbeat_timeout_ms
    else if text_eq key (text "max_missed_heartbeats")
    then some Setting.max_missed
    else if text_eq key (text "reconnect_base_delay_ms")
    then some Setting.reconnect_base_delay_ms
    else if text_eq key (text "reconnect_max_delay_ms")
    then some Setting.reconnect_max_delay_ms
    else if text_eq key (text "max_reconnect_attempts")
    then some Setting.max_attempts
    else if text_eq key (text "epoll_max_events")
    then some Setting.max_events
    else if text_eq key (text "tick_interval_ms")
    then some Setting.tick_interval_ms
    else if text_eq key (text "tcp_nodelay")
    then some Setting.nodelay
    else if text_eq key (text "edge_triggered")
    then some Setting.edge
    else if text_eq key (text "log_level")
    then some Setting.level
    else none

unfoldable pub apply_global_key : Config → Text → Text → Config
apply_global_key config key value = elim (setting_of_key key) [
  | none ↦ config
  | some s ↦ apply_setting s value config
]
