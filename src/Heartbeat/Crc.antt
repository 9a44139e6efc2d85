-- ===== src/Heartbeat/Crc.antt =====
-- The table-driven checksum computes the bit-at-a-time CRC.
use native.Mathlib.Nat.{pow-suc, mul_assoc, add-zero}
use vigil_low_latency_tcp_he.Prelude.{
  ℕ, zero, suc, ◌+◌, ◌*◌, ◌/◌, ◌%◌, ◌^◌, ◌<◌, ◌≡◌, refl, sym, ap, ◌∙◌, ◌⊎◌, inl, inr, List, [], ◌∷◌,
  get_or, bit_xor, arith,
}
use vigil_low_latency_tcp_he.Prelude.Bits.{
  bit_xor_half, bit_xor_parity, bit_xor_comm, bit_xor_assoc, bit_xor_shift, bit_xor_fields,
  bit_xor-zero, bit_xor-lt, bit_xor_left_comm, bit_xor_both,
}
use vigil_low_latency_tcp_he.Heartbeat.Defs.{
  crc_bit, crc_bits, crc_polynomial, table_from, crc32_table, crc_update, crc_loop, crc32_ieee,
}
use vigil_low_latency_tcp_he.Heartbeat.Words.{IsBytes}

-- CRC-32 as its definition has it: each byte is added to the remainder, which is then divided by
-- the polynomial one bit at a time.
unfoldable pub crc_reference : ℕ → List ℕ → ℕ
crc_reference crc [] = crc
crc_reference crc (b ∷ bytes) = crc_reference (crc_bits 8 (bit_xor crc b)) bytes

pub crc_bit_odd : (c : ℕ) → c % 2 ≡ 1 → crc_bit c ≡ bit_xor crc_polynomial (c / 2)
unfolding crc_bit
crc_bit_odd c h = ground arith

pub crc_bit_even : (c : ℕ) → c % 2 ≡ 0 → crc_bit c ≡ c / 2
unfolding crc_bit
crc_bit_even c h = ground arith

pub parity : (n : ℕ) → (n % 2 ≡ 0) ⊎ (n % 2 ≡ 1)
parity n = omega arith

module _ (a b : ℕ) where
  xor_odd :
      (a % 2 + b % 2) % 2 ≡ 1
      → crc_bit (bit_xor a b) ≡ bit_xor crc_polynomial (bit_xor (a / 2) (b / 2))
  xor_odd h = rw (← bit_xor_half a b) (crc_bit_odd (bit_xor a b) (bit_xor_parity a b ∙ h))

  xor_even : (a % 2 + b % 2) % 2 ≡ 0 → crc_bit (bit_xor a b) ≡ bit_xor (a / 2) (b / 2)
  xor_even h = rw (← bit_xor_half a b) (crc_bit_even (bit_xor a b) (bit_xor_parity a b ∙ h))

  crc_bit_cases :
      (a % 2 ≡ 0) ⊎ (a % 2 ≡ 1)
      → (b % 2 ≡ 0) ⊎ (b % 2 ≡ 1)
      → crc_bit (bit_xor a b) ≡ bit_xor (crc_bit a) (crc_bit b)
  crc_bit_cases (inl ha) (inl hb) =
      rw (crc_bit_even a ha, crc_bit_even b hb) (xor_even (omega arith))
  crc_bit_cases (inr ha) (inl hb) =
      rw (crc_bit_odd a ha, crc_bit_even b hb)
        (xor_odd (omega arith) ∙ sym (bit_xor_assoc crc_polynomial (a / 2) (b / 2)))
  crc_bit_cases (inl ha) (inr hb) =
      rw (crc_bit_even a ha, crc_bit_odd b hb)
        (xor_odd (omega arith) ∙ bit_xor_left_comm crc_polynomial (a / 2) (b / 2))
  crc_bit_cases (inr ha) (inr hb) =
      rw (crc_bit_odd a ha, crc_bit_odd b hb)
        (xor_even (omega arith) ∙ sym (bit_xor_both crc_polynomial (a / 2) (b / 2)))

-- Division by the polynomial is linear over exclusive or.
pub crc_bit-bit_xor : (a b : ℕ) → crc_bit (bit_xor a b) ≡ bit_xor (crc_bit a) (crc_bit b)
crc_bit-bit_xor a b = crc_bit_cases a b (parity a) (parity b)

pub crc_bits-bit_xor :
    (n a b : ℕ) → crc_bits n (bit_xor a b) ≡ bit_xor (crc_bits n a) (crc_bits n b)
unfolding crc_bits
crc_bits-bit_xor zero a b = refl
crc_bits-bit_xor (suc n) a b = rw (crc_bit-bit_xor a b) (crc_bits-bit_xor n (crc_bit a) (crc_bit b))

crc_bit_double : (y : ℕ) → crc_bit (y * 2) ≡ y
crc_bit_double y = crc_bit_even (y * 2) (omega arith) ∙ omega arith

-- Zero bits only shift.
crc_bits_shift : (n y : ℕ) → crc_bits n (y * 2 ^ n) ≡ y
unfolding crc_bits
crc_bits_shift zero y = omega arith
crc_bits_shift (suc n) y = rw (pow-suc, ← mul_assoc, crc_bit_double) (crc_bits_shift n y)

get_or-table_from : (left i k : ℕ) → k < left → get_or (table_from left i) k 0 ≡ crc_bits 8 (i + k)
unfolding table_from
get_or-table_from zero i k h = absurd (omega arith)
get_or-table_from (suc left) i zero h = rw add-zero
get_or-table_from (suc left) i (suc k) h =
    get_or-table_from left (i + 1) k (omega arith) ∙ ap (crc_bits 8) (omega arith)

-- An entry of the table is the division of its index.
pub get_or-crc32_table : (k : ℕ) → k < 256 → get_or crc32_table k 0 ≡ crc_bits 8 k
unfolding crc32_table
get_or-crc32_table k h = get_or-table_from 256 0 k h ∙ ap (crc_bits 8) (omega arith)

crc_bits_split : (x : ℕ) → crc_bits 8 x ≡ bit_xor (crc_bits 8 (x % 256)) (x / 256)
crc_bits_split x =
    ap (crc_bits 8) (sym fields)
    ∙ crc_bits-bit_xor 8 (x / 256 * 2 ^ 8) (x % 256)
    ∙ ap (λ (t : ℕ). bit_xor t (crc_bits 8 (x % 256))) (crc_bits_shift 8 (x / 256))
    ∙ bit_xor_comm (x / 256) (crc_bits 8 (x % 256))
  where
    fields : bit_xor (x / 256 * 2 ^ 8) (x % 256) ≡ x
    fields = bit_xor_fields 8 (x / 256) (x % 256) (omega arith) ∙ omega arith

shift_past : (crc b : ℕ) → b < 256 → bit_xor crc b / 256 ≡ crc / 256
shift_past crc b h =
    bit_xor_shift 8 crc b
    ∙ ap (λ (t : ℕ). bit_xor (crc / 256) t) (omega arith)
    ∙ bit_xor-zero (crc / 256)

-- One table step is eight bit steps.
pub crc_update_lem : (crc b : ℕ) → b < 256 → crc_update crc b ≡ crc_bits 8 (bit_xor crc b)
unfolding crc_update
crc_update_lem crc b h =
    rw (get_or-crc32_table (bit_xor crc b % 256) (omega arith), ← shift_past crc b h)
      (sym (crc_bits_split (bit_xor crc b)))

pub crc_loop-crc_reference :
    (crc : ℕ) (bytes : List ℕ) → IsBytes bytes → crc_loop crc bytes ≡ crc_reference crc bytes
unfolding crc_loop crc_reference
crc_loop-crc_reference crc [] h = refl
crc_loop-crc_reference crc (b ∷ bytes) h =
    rw (crc_update_lem crc b h.0) (crc_loop-crc_reference (crc_bits 8 (bit_xor crc b)) bytes h.1)

-- For any list of bytes, the table-driven `crc32_ieee` is the CRC-32 that divides by the polynomial
-- one bit at a time, with the all-ones start and end.
pub crc32_ieee-crc_reference :
    (bytes : List ℕ)
    → IsBytes bytes
    → crc32_ieee bytes ≡ bit_xor (crc_reference 0xFFFFFFFF bytes) 0xFFFFFFFF
unfolding crc32_ieee
crc32_ieee-crc_reference bytes h =
    ap (λ (t : ℕ). bit_xor t 0xFFFFFFFF) (crc_loop-crc_reference 0xFFFFFFFF bytes h)

pub crc_bit-lt : (c : ℕ) → c < 2 ^ 32 → crc_bit c < 2 ^ 32
unfolding crc_bit
crc_bit-lt c h = ground (arith, bit_xor-lt 32 crc_polynomial (c / 2))

pub crc_bits-lt : (n c : ℕ) → c < 2 ^ 32 → crc_bits n c < 2 ^ 32
unfolding crc_bits
crc_bits-lt zero c h = h
crc_bits-lt (suc n) c h = crc_bits-lt n (crc_bit c) (crc_bit-lt c h)

pub crc_reference-lt :
    (crc : ℕ) (bytes : List ℕ) → IsBytes bytes → crc < 2 ^ 32 → crc_reference crc bytes < 2 ^ 32
unfolding crc_reference
crc_reference-lt crc [] h lt = lt
crc_reference-lt crc (b ∷ bytes) h lt =
    crc_reference-lt (crc_bits 8 (bit_xor crc b)) bytes h.1
      (crc_bits-lt 8 (bit_xor crc b) (bit_xor-lt 32 crc b lt (omega arith)))

-- The checksum of bytes fits its uint32_t.
pub crc32_ieee-lt : (bytes : List ℕ) → IsBytes bytes → crc32_ieee bytes < 2 ^ 32
crc32_ieee-lt bytes h = rw (crc32_ieee-crc_reference bytes h) (
    bit_xor-lt 32 (crc_reference 0xFFFFFFFF bytes) 0xFFFFFFFF
      (crc_reference-lt 0xFFFFFFFF bytes h (omega arith)) (omega arith))
