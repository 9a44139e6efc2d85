-- ===== src/CommandInput/Words.antt =====
-- `std::istringstream` in the C locale: `>> std::string`, `>> uint32_t` and `>> int`.
use vigil_low_latency_tcp_he.Prelude.{
  ℕ, zero, suc, ◌+◌, ◌-◌, ◌*◌, ◌/◌, ◌%◌, ◌^◌, Bool, true, false, ◌&&◌, Option, none, some, [], ◌∷◌,
  leb, ltb, ◌==◌, if◌then◌else◌,
}
use vigil_low_latency_tcp_he.Prelude.Int.{ℤ, pos, ◌-ℤ◌}
use vigil_low_latency_tcp_he.Prelude.Text.{Text}
use vigil_low_latency_tcp_he.Config.{is_space, skip_space}

-- The characters up to the next space, and those from it on.
unfoldable pub word_from : Text → Text × Text
word_from [] = ([], [])
word_from (c ∷ s) =
    let more = word_from s in if is_space c then ([], c ∷ s) else (c ∷ more.0, more.1)

unfoldable pub read_word : Text → Text × Text
read_word s = word_from (skip_space s)

abbrev pub is_digit : ℕ → Bool
is_digit c = leb 48 c && leb c 57

-- The digits at the front, on top of the value so far; what follows them is left in the stream.
unfoldable pub leading_digits : ℕ → Text → ℕ
leading_digits value [] = value
leading_digits value (c ∷ s) =
    let more = leading_digits (value * 10 + (c - 48)) s in if is_digit c then more else value

-- At least one digit.
unfoldable pub read_digits : Text → Option ℕ
read_digits [] = none
read_digits (c ∷ s) = if is_digit c then some (leading_digits 0 (c ∷ s)) else none

-- The sign and the magnitude.
unfoldable pub read_signed : Text → Option (Bool × ℕ)
read_signed [] = none
read_signed (c ∷ s) =
    if c == 45
    then elim (read_digits s) [ none ↦ none | some n ↦ some (true, n) ]
    else if c == 43
    then elim (read_digits s) [ none ↦ none | some n ↦ some (false, n) ]
    else elim (read_digits (c ∷ s)) [ none ↦ none | some n ↦ some (false, n) ]

-- A magnitude that does not fit fails the stream. A minus sign negates modulo 2 ^ 32.
unfoldable pub read_uint32 : Text → Option ℕ
read_uint32 s = elim (read_signed (skip_space s)) [
  | none ↦ none
  | some (negative, n) ↦
      if ltb n (2 ^ 32) then some (if negative && ltb 0 n then 2 ^ 32 - n else n) else none
]

unfoldable pub read_int : Text → Option ℤ
read_int s = elim (read_signed (skip_space s)) [
  | none ↦ none
  | some (negative, n) ↦
      if negative
      then (if leb n (2 ^ 31) then some (pos 0 -ℤ pos n) else none)
      else (if ltb n (2 ^ 31) then some (pos n) else none)
]

-- What `<<` prints for an unsigned number in front of `rest`. A number below 10 ^ fuel needs no more
-- rounds than `fuel`; 20 are enough for 64 bits.
unfoldable pub print_digits : ℕ → ℕ → Text → Text
print_digits zero n rest = rest
print_digits (suc fuel) n rest =
    let more = print_digits fuel (n / 10) ((48 + n % 10) ∷ rest) in
    if ltb n 10 then (48 + n) ∷ rest else more

unfoldable pub print_uint : ℕ → Text
print_uint n = print_digits 20 n []
