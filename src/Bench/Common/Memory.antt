-- ===== src/Bench/Common/Memory.antt =====
-- `current_rss_bytes` finds the line of the resident set.
use vigil_low_latency_tcp_he.Prelude.{
  ℕ, zero, suc, ◌+◌, ◌*◌, ◌/◌, ◌%◌, ◌^◌, ◌<◌, ◌≡◌, refl, ap, ◌∙◌, inl, inr, true, false, none, some,
  List, [], ◌∷◌, ◌++◌, arith, ltb, Bool-cases, All,
}
use vigil_low_latency_tcp_he.Prelude.Int.{ℤ, pos, ◌*ℤ◌}
use vigil_low_latency_tcp_he.Prelude.Text.{Text, text, text_eq}
use vigil_low_latency_tcp_he.Config.{is_space, skip_space}
use vigil_low_latency_tcp_he.CommandInput.{
  read_signed, read_digits, leading_digits, print_digits, print_uint, is_digit,
}
use vigil_low_latency_tcp_he.CommandInput.Numbers.{
  StartsWithDigit, leading_digits-print_digits, print_digits-StartsWithDigit,
}
use vigil_low_latency_tcp_he.Bench.Common.Defs.{after_prefix, read_int64, current_rss_bytes}

-- The label of the line.
abbrev pub vm_rss : Text
vm_rss = text "VmRSS:"

-- What follows a printed number does not start with a digit.
abbrev pub EndsNumber : Text → Type 0
EndsNumber [] = Unit
EndsNumber (c ∷ s) = is_digit c ≡ false

print_digits-append :
    (fuel n : ℕ) (a b : Text) → print_digits fuel n a ++ b ≡ print_digits fuel n (a ++ b)
unfolding print_digits
print_digits-append zero n a b = refl
print_digits-append (suc fuel) n a b = elim (Bool-cases (ltb n 10)) [
  | inl small ↦ rw small refl
  | inr more ↦ rw more (print_digits-append fuel (n / 10) ((48 + n % 10) ∷ a) b)
]

leading_digits-end : (n : ℕ) (rest : Text) → EndsNumber rest → leading_digits n rest ≡ n
unfolding leading_digits
leading_digits-end n [] h = refl
leading_digits-end n (c ∷ s) h = rw h refl

read_int64-digit :
    (s : Text) (n : ℕ)
    → StartsWithDigit s
    → leading_digits 0 s ≡ n
    → n < 2 ^ 63
    → read_int64 s ≡ pos n
unfolding read_int64 read_signed read_digits skip_space StartsWithDigit
read_int64-digit [] n p e h = absurd p
read_int64-digit (c ∷ s) n p e h = ground (arith, p, e, h)

read_int64-space : (c : ℕ) (s : Text) → is_space c ≡ true → read_int64 (c ∷ s) ≡ read_int64 s
unfolding read_int64
read_int64-space c s h = rw (skipped c s h, read_int64)
  where
    skipped : (c : ℕ) (s : Text) → is_space c ≡ true → skip_space (c ∷ s) ≡ skip_space s
    skipped c s h = unfold skip_space in ground (arith, h)

-- Blanks in front of a number.
read_int64-blanks :
    (blanks s : Text)
    → All (λ (c : ℕ). is_space c ≡ true) blanks
    → read_int64 (blanks ++ s) ≡ read_int64 s
read_int64-blanks [] s h = refl
read_int64-blanks (c ∷ blanks) s h =
    read_int64-space c (blanks ++ s) h.0 ∙ read_int64-blanks blanks s h.1

read_int64-print_uint :
    (n : ℕ) (rest : Text)
    → 0 < n
    → n < 2 ^ 63
    → EndsNumber rest
    → read_int64 (print_uint n ++ rest) ≡ pos n
unfolding print_uint
read_int64-print_uint n rest big h over =
    ap read_int64 (print_digits-append 20 n [] rest)
    ∙ read_int64-digit (print_digits 20 n rest) n
        (print_digits-StartsWithDigit 20 n rest (omega arith) (inl big))
        (leading_digits-print_digits 20 n rest (omega arith) ∙ leading_digits-end n rest over) h

after_prefix-vm_rss : (s : Text) → after_prefix vm_rss (vm_rss ++ s) ≡ some s
unfolding after_prefix text_eq
after_prefix-vm_rss s = refl

rss_line :
    (line rest : Text) (lines : List Text)
    → after_prefix vm_rss line ≡ some rest
    → current_rss_bytes (line ∷ lines) ≡ read_int64 rest *ℤ pos 1024
unfolding current_rss_bytes
rss_line line rest lines h = rw (h, current_rss_bytes)

other_line :
    (line : Text) (lines : List Text)
    → after_prefix vm_rss line ≡ none
    → current_rss_bytes (line ∷ lines) ≡ current_rss_bytes lines
unfolding current_rss_bytes
other_line line lines h = rw (h, current_rss_bytes)

kilobytes : (n : ℕ) → pos n *ℤ pos 1024 ≡ pos (n * 1024)
unfolding ◌*ℤ◌
kilobytes n = ground arith

-- Where /proc/self/status has, behind lines without the label, the line "VmRSS:" with blanks, a number
-- `kb` and text that does not start with a digit, the result is `kb * 1024`; later lines are not looked
-- at. Without such a label in any line the result is 0.
pub current_rss_bytes_lem :
    (others : List Text) (blanks unit : Text) (kb : ℕ) (later : List Text)
    → All (λ (line : Text). after_prefix vm_rss line ≡ none) others
    → All (λ (c : ℕ). is_space c ≡ true) blanks
    → EndsNumber unit
    → 0 < kb
    → kb < 2 ^ 53
    → (current_rss_bytes (others ++ (vm_rss ++ (blanks ++ (print_uint kb ++ unit))) ∷ later)
        ≡ pos (kb * 1024))
      × (current_rss_bytes others ≡ pos 0)
unfolding current_rss_bytes
current_rss_bytes_lem [] blanks unit kb later h spaces over big fits =
    let tail = blanks ++ (print_uint kb ++ unit) in
    (
      rss_line (vm_rss ++ tail) tail later (after_prefix-vm_rss tail)
          ∙ ap (λ (v : ℤ). v *ℤ pos 1024)
              (read_int64-blanks blanks (print_uint kb ++ unit) spaces
                ∙ read_int64-print_uint kb unit big (omega arith) over)
          ∙ kilobytes kb,
      refl,
    )
current_rss_bytes_lem (line ∷ others) blanks unit kb later h spaces over big fits =
    let ih = current_rss_bytes_lem others blanks unit kb later h.1 spaces over big fits in
    (
      other_line line (others ++ (vm_rss ++ (blanks ++ (print_uint kb ++ unit))) ∷ later) h.0
          ∙ ih.0,
      other_line line others h.0 ∙ ih.1,
    )
