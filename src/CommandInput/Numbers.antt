-- ===== src/CommandInput/Numbers.antt =====
-- A number that was printed is read back.
use vigil_low_latency_tcp_he.Prelude.{
  ℕ, zero, suc, ◌+◌, ◌-◌, ◌*◌, ◌/◌, ◌%◌, ◌^◌, ◌<◌, ◌≡◌, refl, ◌∙◌, ◌⊎◌, inl, inr, true, false, some,
  [], ◌∷◌, ◌++◌, arith, ltb, Bool-cases, All,
}
use native.Mathlib.Nat.{pow-suc}
use vigil_low_latency_tcp_he.Prelude.Text.{Text}
use vigil_low_latency_tcp_he.Config.{is_space, skip_space}
use vigil_low_latency_tcp_he.CommandInput.Words.{
  is_digit, leading_digits, read_digits, read_signed, read_uint32, print_digits, print_uint,
  word_from, read_word,
}

digit_below : (n : ℕ) → n < 10 → is_digit (48 + n) ≡ true
digit_below n h = ground (arith, h)

digit_of : (n : ℕ) → is_digit (48 + n % 10) ≡ true
digit_of n = digit_below (n % 10) (omega arith)

regrouped : (n : ℕ) → n / 10 * 10 + (48 + n % 10 - 48) ≡ n
regrouped n = omega arith

pub leading_digits-print_digits :
    (fuel n : ℕ) (rest : Text)
    → n < 10 ^ fuel
    → leading_digits 0 (print_digits fuel n rest) ≡ leading_digits n rest
unfolding print_digits leading_digits
leading_digits-print_digits zero n rest h = let e : n ≡ 0 = omega arith in rw e
leading_digits-print_digits (suc fuel) n rest h = elim (Bool-cases (ltb n 10)) [
  | inl small ↦ ground (arith, small)
  | inr more ↦ rw more (
      leading_digits-print_digits fuel (n / 10) ((48 + n % 10) ∷ rest)
        (omega (arith, h, pow-suc 10 fuel))
      ∙ rw (digit_of n, regrouped n))
]

-- What a printed number starts with.
unfoldable pub StartsWithDigit : Text → Type 0
StartsWithDigit [] = ⊥
StartsWithDigit (c ∷ s) = is_digit c ≡ true

pub print_digits-StartsWithDigit :
    (fuel n : ℕ) (rest : Text)
    → n < 10 ^ fuel
    → (0 < n) ⊎ StartsWithDigit rest
    → StartsWithDigit (print_digits fuel n rest)
unfolding print_digits StartsWithDigit
print_digits-StartsWithDigit zero n rest h (inl p) = absurd (omega arith)
print_digits-StartsWithDigit zero n rest h (inr p) = p
print_digits-StartsWithDigit (suc fuel) n rest h p = elim (Bool-cases (ltb n 10)) [
  | inl small ↦ rw small (digit_below n (ground (arith, small)))
  | inr more ↦ rw more (
      print_digits-StartsWithDigit fuel (n / 10) ((48 + n % 10) ∷ rest)
        (omega (arith, h, pow-suc 10 fuel)) (inr (digit_of n)))
]

-- A digit is no space and no sign.
read_uint32-digit :
    (s : Text) (n : ℕ)
    → StartsWithDigit s
    → leading_digits 0 s ≡ n
    → n < 2 ^ 32
    → read_uint32 s ≡ some n
unfolding read_uint32 read_signed read_digits skip_space StartsWithDigit
read_uint32-digit [] n p e h = absurd p
read_uint32-digit (c ∷ s) n p e h = ground (arith, p, e, h)

pub print_uint-StartsWithDigit : (n : ℕ) → n < 10 ^ 20 → StartsWithDigit (print_uint n)
unfolding print_uint print_digits StartsWithDigit
print_uint-StartsWithDigit zero h = refl
print_uint-StartsWithDigit (suc n) h =
    print_digits-StartsWithDigit 20 (suc n) [] h (inl (omega arith))

-- A feed id that is printed behind a blank is read back.
pub read_uint32-print_uint : (n : ℕ) → n < 2 ^ 32 → read_uint32 (32 ∷ print_uint n) ≡ some n
unfolding print_uint read_uint32 skip_space leading_digits
read_uint32-print_uint n h =
    skipped (print_uint n)
    ∙ read_uint32-digit (print_uint n) n (print_uint-StartsWithDigit n (omega arith))
        (leading_digits-print_digits 20 n [] (omega arith)) h
  where
    skipped : (s : Text) → read_uint32 (32 ∷ s) ≡ read_uint32 s
    skipped s = refl

-- A word without spaces is read up to the blank behind it.
pub read_word_before_blank :
    (c : ℕ) (word rest : Text)
    → All (λ (d : ℕ). is_space d ≡ false) (c ∷ word)
    → read_word ((c ∷ word) ++ 32 ∷ rest) ≡ (c ∷ word, 32 ∷ rest)
unfolding read_word skip_space word_from
read_word_before_blank c word rest h = rw h.0 (word_from_lem (c ∷ word) h)
  where
    word_from_lem :
        (w : Text)
        → All (λ (d : ℕ). is_space d ≡ false) w
        → word_from (w ++ 32 ∷ rest) ≡ (w, 32 ∷ rest)
    word_from_lem [] p = refl
    word_from_lem (d ∷ w) p = rw (p.0, word_from_lem w p.1)
