-- ===== src/MonitorMain/Commands.antt =====
-- The commands that name a feed, as they are typed.
use vigil_low_latency_tcp_he.Prelude.{ℕ, ◌^◌, ◌<◌, ◌≡◌, ◌∷◌, ◌++◌, arith}
use vigil_low_latency_tcp_he.Prelude.Int.{ℤ}
use vigil_low_latency_tcp_he.Prelude.Text.{Text, text, text_eq}
use vigil_low_latency_tcp_he.CommandInput.{print_uint}
use vigil_low_latency_tcp_he.CommandInput.Numbers.{read_uint32-print_uint, read_word_before_blank}
use vigil_low_latency_tcp_he.FeedMonitor.{FeedMonitor, World, force_disconnect, force_reconnect}
use vigil_low_latency_tcp_he.MonitorMain.{handle_command_line, run_command}

-- What an operator types for a feed.
pub feed_command : Text → ℕ → Text
feed_command word feed_id = word ++ 32 ∷ print_uint feed_id

module _ {S : Type 0} (jitter : ℕ → ℤ → ℤ) (feed_id : ℕ) (h : feed_id < 2 ^ 32) where
  disconnect_lem :
      (m : FeedMonitor S) (w : World S)
      → handle_command_line jitter (feed_command (text "disconnect") feed_id) (m, w)
        ≡ force_disconnect jitter feed_id m w
  unfolding handle_command_line run_command feed_command text_eq force_disconnect force_reconnect
  disconnect_lem m w = rw (
    read_word_before_blank 100 (text "isconnect") (print_uint feed_id) (ground arith),
    read_uint32-print_uint feed_id h,
  )

  reconnect_lem :
      (m : FeedMonitor S) (w : World S)
      → handle_command_line jitter (feed_command (text "reconnect") feed_id) (m, w)
        ≡ (force_reconnect feed_id m, w)
  unfolding handle_command_line run_command feed_command text_eq force_disconnect force_reconnect
  reconnect_lem m w = rw (
    read_word_before_blank 114 (text "econnect") (print_uint feed_id) (ground arith),
    read_uint32-print_uint feed_id h,
  )

  -- The line `disconnect <feed_id>` forces a disconnect of just that feed, and `reconnect <feed_id>` a
  -- reconnect, for every feed id below 2 ^ 32 in its decimal digits.
  pub feed_commands_lem :
      (m : FeedMonitor S) (w : World S)
      → (handle_command_line jitter (feed_command (text "disconnect") feed_id) (m, w)
          ≡ force_disconnect jitter feed_id m w)
        × (handle_command_line jitter (feed_command (text "reconnect") feed_id) (m, w)
            ≡ (force_reconnect feed_id m, w))
  feed_commands_lem m w = (disconnect_lem m w, reconnect_lem m w)
