-- ===== src/Config/Values.antt =====
-- The values of src/config.cpp: trimming, integers, booleans and log levels.
use vigil_low_latency_tcp_he.Prelude.{
  ℕ, ◌+◌, ◌-◌, ◌*◌, ◌%◌, ◌^◌, Bool, true, false, ◌&&◌, ◌||◌, Option, none, some, [], ◌∷◌, ltb, leb,
  ◌==◌, if◌then◌else◌,
}
use vigil_low_latency_tcp_he.Prelude.Int.{ℤ, pos, negsuc, ◌-ℤ◌, leb_ℤ}
use vigil_low_latency_tcp_he.Prelude.Text.{Text, text, text_eq}

-- `std::isspace` in the C locale.
abbrev pub is_space : ℕ → Bool
is_space c = c == 32 || (leb 9 c && leb c 13)

unfoldable pub skip_space : Text → Text
skip_space [] = []
skip_space (c ∷ s) = let rest = skip_space s in if is_space c then rest else c ∷ s

abbrev pub is_empty : Text → Bool
is_empty [] = true
is_empty (c ∷ s) = false

unfoldable pub drop_end_space : Text → Text
drop_end_space [] = []
drop_end_space (c ∷ s) =
    let rest = drop_end_space s in if is_space c && is_empty rest then [] else c ∷ rest

unfoldable pub trim : Text → Text
trim s = drop_end_space (skip_space s)

-- What `std::from_chars` reads as digits, where it reads all of the text.
unfoldable pub digits_from : ℕ → Text → Option ℕ
digits_from value [] = some value
digits_from value (c ∷ s) =
    let rest = digits_from (value * 10 + (c - 48)) s in if leb 48 c && leb c 57 then rest else none

unfoldable pub magnitude : Text → Option ℕ
magnitude [] = none
magnitude (c ∷ s) = digits_from 0 (c ∷ s)

-- A value out of the range of long long is refused.
unfoldable pub try_parse_int : Text → Option ℤ
try_parse_int [] = none
try_parse_int (c ∷ s) =
    if c == 45
    then elim (magnitude s) [
      | none ↦ none
      | some n ↦ if leb n (2 ^ 63) then some (pos 0 -ℤ pos n) else none
    ]
    else elim (magnitude (c ∷ s)) [
      | none ↦ none
      | some n ↦ if ltb n (2 ^ 63) then some (pos n) else none
    ]

unfoldable pub try_parse_bool : Text → Option Bool
try_parse_bool s =
    if text_eq s (text "true") || (text_eq s (text "1") || text_eq s (text "yes"))
    then some true
    else if text_eq s (text "false") || (text_eq s (text "0") || text_eq s (text "no"))
    then some false
    else none

unfoldable pub is_valid_log_level : Text → Bool
is_valid_log_level s =
    text_eq s (text "trace")
    || (text_eq s (text "debug")
        || (text_eq s (text "info") || (text_eq s (text "warn") || text_eq s (text "error"))))

unfoldable pub require_int_at_least : Text → ℤ → Option ℤ
require_int_at_least raw min_value = elim (try_parse_int raw) [
  | none ↦ none
  | some v ↦ if leb_ℤ min_value v then some v else none
]

-- `static_cast<int>` of a long long keeps the low 32 bits.
abbrev pub int_of_bits : ℕ → ℤ
int_of_bits r = if ltb r (2 ^ 31) then pos r else negsuc (2 ^ 32 - 1 - r)

unfoldable pub to_int : ℤ → ℤ
to_int (pos n) = int_of_bits (n % 2 ^ 32)
to_int (negsuc n) = int_of_bits (2 ^ 32 - 1 - n % 2 ^ 32)
