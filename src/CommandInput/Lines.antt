-- ===== src/CommandInput/Lines.antt =====
-- The lines that reach the callback do not depend on how the bytes arrive.
use mathlib.Core.List.{append-nil, append_assoc}
use vigil_low_latency_tcp_he.Prelude.{
  ℕ, ◌≤◌, ◌≡◌, refl, ap, ◌∙◌, inl, inr, true, false, List, [], ◌∷◌, ◌++◌, arith, ◌==◌, Bool-cases,
  length, length-append,
}
use vigil_low_latency_tcp_he.Prelude.Text.{Text}
use vigil_low_latency_tcp_he.CommandInput.Defs.{
  max_command_line_buffer_bytes, chunk, end_of_file, drained, read_loop, push_front, newline,
  split_lines, strip_return, strip_returns, last_line, read_lines, run_lines,
}

-- Lines in front of lines that are split already.
abbrev pub after_lines : List Text → List Text × Text → List Text × Text
after_lines lines split = (lines ++ split.0, split.1)

push_front_step :
    (c : ℕ) (b : Text) (split : List Text × Text)
    → (c == newline) ≡ false
    → push_front c (after_lines split.0 (split_lines (split.1 ++ b)))
      ≡ after_lines (push_front c split).0 (split_lines ((push_front c split).1 ++ b))
unfolding push_front split_lines
push_front_step c b ([], rest) inside = rw inside
push_front_step c b (line ∷ lines, rest) inside = refl

-- Splitting a text is splitting its first part, and going on with what that leaves.
pub split_lines-append :
    (a b : Text)
    → split_lines (a ++ b) ≡ after_lines (split_lines a).0 (split_lines ((split_lines a).1 ++ b))
unfolding split_lines
split_lines-append [] b = refl
split_lines-append (c ∷ a) b = elim (Bool-cases (c == newline)) [
  | inl ends ↦ rw (ends, split_lines-append a b)
  | inr inside ↦ rw (inside, split_lines-append a b) (push_front_step c b (split_lines a) inside)
]

strip_returns-append :
    (xs ys : List Text) → strip_returns (xs ++ ys) ≡ strip_returns xs ++ strip_returns ys
unfolding strip_returns
strip_returns-append [] ys = refl
strip_returns-append (x ∷ xs) ys = ap (◌∷◌ (strip_return x)) (strip_returns-append xs ys)

split_lines-shrinks : (s : Text) → length (split_lines s).1 ≤ length s
unfolding split_lines push_front
split_lines-shrinks [] = omega arith
split_lines-shrinks (c ∷ s) = ground (arith, split_lines-shrinks s)

abbrev pub join_pieces : List Text → Text
join_pieces [] = []
join_pieces (piece ∷ pieces) = piece ++ join_pieces pieces

-- Wakeups that read one piece each, and one that meets the end of the file: the lines handed over.
unfoldable pub lines_of_pieces : List Text → Text → List Text
lines_of_pieces [] buffer = (read_lines end_of_file buffer).0.0
lines_of_pieces (piece ∷ pieces) buffer =
    let r = read_lines (chunk piece drained) buffer in (r.0).0 ++ lines_of_pieces pieces (r.0).1

-- One wakeup that does not overrun the buffer, and does not meet the end.
read_lines-chunk :
    (piece buffer : Text)
    → length (buffer ++ piece) ≤ max_command_line_buffer_bytes
    → (read_lines (chunk piece drained) buffer).0
      ≡ (strip_returns (split_lines (buffer ++ piece)).0, (split_lines (buffer ++ piece)).1)
unfolding read_lines read_loop last_line
read_lines-chunk piece buffer h =
    ground (arith, append-nil (strip_returns (split_lines (buffer ++ piece)).0))

lines_of_pieces-nil :
    (buffer : Text)
    → lines_of_pieces [] buffer
      ≡ strip_returns (split_lines buffer).0 ++ last_line true (split_lines buffer).1
unfolding lines_of_pieces read_lines read_loop
lines_of_pieces-nil buffer = refl

lines_of_pieces-cons :
    (piece : Text) (pieces : List Text) (buffer : Text)
    → length (buffer ++ piece) ≤ max_command_line_buffer_bytes
    → lines_of_pieces (piece ∷ pieces) buffer
      ≡ strip_returns (split_lines (buffer ++ piece)).0
        ++ lines_of_pieces pieces (split_lines (buffer ++ piece)).1
unfolding lines_of_pieces
lines_of_pieces-cons piece pieces buffer h = rw (read_lines-chunk piece buffer h)

-- If the bytes fit the buffer, the lines that reach the callback are those of the whole text, an
-- unfinished last one included, in whatever pieces the bytes come.
pub lines_of_pieces_lem :
    (pieces : List Text) (buffer : Text)
    → length (buffer ++ join_pieces pieces) ≤ max_command_line_buffer_bytes
    → lines_of_pieces pieces buffer
      ≡ strip_returns (split_lines (buffer ++ join_pieces pieces)).0
        ++ last_line true (split_lines (buffer ++ join_pieces pieces)).1
lines_of_pieces_lem [] buffer h = rw append-nil (lines_of_pieces-nil buffer)
lines_of_pieces_lem (piece ∷ pieces) buffer h =
    let split = split_lines (buffer ++ piece) in
    let whole : split_lines (buffer ++ (piece ++ join_pieces pieces))
        ≡ after_lines split.0 (split_lines (split.1 ++ join_pieces pieces)) =
      rw (← append_assoc buffer piece (join_pieces pieces))
        (split_lines-append (buffer ++ piece) (join_pieces pieces)) in
    rw (whole, lines_of_pieces-cons piece pieces buffer fits)
      (ap (◌++◌ (strip_returns split.0)) (lines_of_pieces_lem pieces split.1 rest_fits)
        ∙ rw (strip_returns-append, append_assoc))
  where
    fits : length (buffer ++ piece) ≤ max_command_line_buffer_bytes
    fits = omega (
      arith,
      length-append buffer (piece ++ join_pieces pieces),
      length-append piece (join_pieces pieces),
      length-append buffer piece,
    )

    rest_fits :
        length ((split_lines (buffer ++ piece)).1 ++ join_pieces pieces)
        ≤ max_command_line_buffer_bytes
    rest_fits = omega (
      arith,
      length-append buffer (piece ++ join_pieces pieces),
      length-append piece (join_pieces pieces),
      length-append buffer piece,
      split_lines-shrinks (buffer ++ piece),
      length-append (split_lines (buffer ++ piece)).1 (join_pieces pieces),
    )

-- What the callback keeps, a run of it keeps.
pub run_lines_rule :
    {W : Type 0} (on_line : Text → W → W) (P : W → Type 0)
    → ((line : Text) (w : W) → P w → P (on_line line w))
    → (lines : List Text) (w : W) → P w
    → P (run_lines on_line lines w)
unfolding run_lines
run_lines_rule on_line P keeps [] w p = p
run_lines_rule on_line P keeps (line ∷ lines) w p =
    run_lines_rule on_line P keeps lines (on_line line w) (keeps line w p)
