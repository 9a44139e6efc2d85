-- ===== src/CommandInput/Examples.antt =====
-- Runs of the command input on concrete texts, and the witnesses of its theorems.
use vigil_low_latency_tcp_he.Prelude.{◌≡◌, refl, List, [], ◌∷◌, ◌++◌, arith, true}
use vigil_low_latency_tcp_he.Prelude.Text.{Text, text}
use vigil_low_latency_tcp_he.CommandInput.Defs.{
  split_lines, push_front, strip_returns, strip_return, last_line, read_lines, read_loop,
}
use vigil_low_latency_tcp_he.CommandInput.Words.{print_uint, print_digits}
use vigil_low_latency_tcp_he.CommandInput.Lines.{lines_of_pieces, join_pieces, lines_of_pieces_lem}

abbrev pieces : List Text
pieces = text "recon" ∷ text "nect 3\r\nqu" ∷ text "it" ∷ []

two_commands : lines_of_pieces pieces [] ≡ text "reconnect 3" ∷ text "quit" ∷ []
unfolding lines_of_pieces read_lines read_loop split_lines push_front strip_returns strip_return
    last_line
two_commands = refl

lines_of_pieces_example :
    lines_of_pieces pieces []
    ≡ strip_returns (split_lines (join_pieces pieces)).0
      ++ last_line true (split_lines (join_pieces pieces)).1
lines_of_pieces_example = lines_of_pieces_lem pieces [] (omega arith)

printed : print_uint 4207 ≡ text "4207"
unfolding print_uint print_digits
printed = refl
