-- ===== src/CommandInput/Defs.antt =====
-- The two loops of `on_command_fd_readable`.
use vigil_low_latency_tcp_he.Prelude.{
  ℕ, Bool, true, false, List, [], ◌∷◌, ◌++◌, length, ltb, ◌==◌, if◌then◌else◌,
}
use vigil_low_latency_tcp_he.Prelude.Text.{Text}

abbrev pub max_command_line_buffer_bytes : ℕ
max_command_line_buffer_bytes = 65536

-- What the `read` calls of one wakeup return, up to the one that ends the loop.
pub data Reads : Type 0 where
  chunk : Text → Reads → Reads
  interrupted : Reads → Reads
  end_of_file drained failed : Reads

-- The loop over `read`: the buffer after it, and whether it met the end of the file.
unfoldable pub read_loop : Reads → Text → Text × Bool
read_loop (chunk bytes more) buffer =
    let appended = buffer ++ bytes in
    read_loop more (if ltb max_command_line_buffer_bytes (length appended) then [] else appended)
read_loop (interrupted more) buffer = read_loop more buffer
read_loop end_of_file buffer = (buffer, true)
read_loop drained buffer = (buffer, false)
read_loop failed buffer = (buffer, false)

-- A character in front of what is split already: it joins the first line, or the rest.
unfoldable pub push_front : ℕ → List Text × Text → List Text × Text
push_front c ([], rest) = ([], c ∷ rest)
push_front c (line ∷ lines, rest) = ((c ∷ line) ∷ lines, rest)

abbrev pub newline : ℕ
newline = 10

-- The loop over `find('\n')`: the lines in front of a newline, and what is left in the buffer.
unfoldable pub split_lines : Text → List Text × Text
split_lines [] = ([], [])
split_lines (c ∷ s) =
    let split = split_lines s in
    if c == newline then ([] ∷ split.0, split.1) else push_front c split

-- `if (!line.empty() && line.back() == '\r') line.pop_back();`
unfoldable pub strip_return : Text → Text
strip_return [] = []
strip_return (c ∷ []) = if c == 13 then [] else c ∷ []
strip_return (c ∷ d ∷ s) = c ∷ strip_return (d ∷ s)

unfoldable pub strip_returns : List Text → List Text
strip_returns [] = []
strip_returns (line ∷ lines) = strip_return line ∷ strip_returns lines

-- What is left at the end of the file is a line of its own.
unfoldable pub last_line : Bool → Text → List Text
last_line false rest = []
last_line true [] = []
last_line true (c ∷ s) = (c ∷ s) ∷ []

-- One wakeup: the lines handed to the callback, the buffer left, and whether the file has ended.
unfoldable pub read_lines : Reads → Text → (List Text × Text) × Bool
read_lines reads buffer =
    let (bytes, eof) = read_loop reads buffer in
    let (lines, rest) = split_lines bytes in
    ((strip_returns lines ++ last_line eof rest, if eof then [] else rest), eof)

-- The callback is called for one line after the other; `W` is what it works on.
unfoldable pub run_lines : {W : Type 0} → (Text → W → W) → List Text → W → W
run_lines on_line [] w = w
run_lines on_line (line ∷ lines) w = run_lines on_line lines (on_line line w)
