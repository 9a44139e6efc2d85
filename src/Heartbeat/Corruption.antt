-- ===== src/Heartbeat/Corruption.antt =====
-- What the checksum catches: it is injective in its starting value and in each single byte.
use vigil_low_latency_tcp_he.Prelude.{
  ℕ, zero, suc, ◌/◌, ◌%◌, ◌^◌, ◌<◌, ◌≡◌, ◌≢◌, sym, ap, ◌∙◌, ◌⊎◌, inl, inr, List, [], ◌∷◌, ◌++◌,
  bit_xor, arith, length, get_or, set, subst, All-set,
}
use vigil_low_latency_tcp_he.Prelude.Edits.{IsSplit, IsSplit-at, All-before}
use vigil_low_latency_tcp_he.Prelude.Bits.{
  bit_xor_comm, bit_xor_shift, bit_xor-lt, bit_xor_injective,
}
use vigil_low_latency_tcp_he.Heartbeat.Defs.{crc_bit, crc_bits, crc_polynomial, crc32_ieee}
use vigil_low_latency_tcp_he.Heartbeat.Words.{IsBytes}
use vigil_low_latency_tcp_he.Heartbeat.Crc.{
  crc_bit_odd, crc_bit_even, parity, crc_bit-lt, crc_bits-lt, crc_reference,
  crc32_ieee-crc_reference,
}

-- The top bit of the remainder tells whether the polynomial was added.
crc_bit_top : (c : ℕ) → c < 2 ^ 32 → (c % 2 ≡ 0) ⊎ (c % 2 ≡ 1) → crc_bit c / 2 ^ 31 ≡ c % 2
crc_bit_top c h (inl e) = rw (crc_bit_even c e, e) (omega arith)
crc_bit_top c h (inr e) =
    rw (crc_bit_odd c e, e, bit_xor_shift 31 crc_polynomial (c / 2))
      (ap (λ (t : ℕ). bit_xor 1 t) top)
  where
    top : c / 2 / 2 ^ 31 ≡ 0
    top = omega arith

halves :
    (a b : ℕ) → crc_bit a ≡ crc_bit b → (a % 2 ≡ 0) ⊎ (a % 2 ≡ 1) → b % 2 ≡ a % 2 → a / 2 ≡ b / 2
halves a b e (inl p) q = sym (crc_bit_even a p) ∙ e ∙ crc_bit_even b (q ∙ p)
halves a b e (inr p) q =
    bit_xor_injective crc_polynomial (a / 2) (b / 2)
      (sym (crc_bit_odd a p) ∙ e ∙ crc_bit_odd b (q ∙ p))

crc_bit_injective : (a b : ℕ) → a < 2 ^ 32 → b < 2 ^ 32 → crc_bit a ≡ crc_bit b → a ≡ b
crc_bit_injective a b ha hb e =
    let same : b % 2 ≡ a % 2 =
      sym (crc_bit_top b hb (parity b))
      ∙ ap (λ (t : ℕ). t / 2 ^ 31) (sym e)
      ∙ crc_bit_top a ha (parity a) in
    omega (arith, halves a b e (parity a) same, same)

crc_bits_injective : (n a b : ℕ) → a < 2 ^ 32 → b < 2 ^ 32 → crc_bits n a ≡ crc_bits n b → a ≡ b
unfolding crc_bits
crc_bits_injective zero a b ha hb e = e
crc_bits_injective (suc n) a b ha hb e =
    crc_bit_injective a b ha hb
      (crc_bits_injective n (crc_bit a) (crc_bit b) (crc_bit-lt a ha) (crc_bit-lt b hb) e)

xor_right_injective : (a b c : ℕ) → bit_xor a c ≡ bit_xor b c → a ≡ b
xor_right_injective a b c e = bit_xor_injective c a b (bit_xor_comm c a ∙ e ∙ bit_xor_comm b c)

-- A difference in the running remainder never goes away.
crc_reference_injective :
    (a b : ℕ) (bytes : List ℕ)
    → IsBytes bytes
    → a < 2 ^ 32
    → b < 2 ^ 32
    → crc_reference a bytes ≡ crc_reference b bytes
    → a ≡ b
unfolding crc_reference
crc_reference_injective a b [] h ha hb e = e
crc_reference_injective a b (x ∷ bytes) h ha hb e = xor_right_injective a b x (
    crc_bits_injective 8 (bit_xor a x) (bit_xor b x) (fits a ha) (fits b hb) (
      crc_reference_injective (crc_bits 8 (bit_xor a x)) (crc_bits 8 (bit_xor b x)) bytes h.1
        (crc_bits-lt 8 _ (fits a ha)) (crc_bits-lt 8 _ (fits b hb)) e))
  where
    fits : (c : ℕ) → c < 2 ^ 32 → bit_xor c x < 2 ^ 32
    fits c hc = bit_xor-lt 32 c x hc (omega arith)

module _ (b b' : ℕ) (after : List ℕ) (ne : b ≢ b') (hb : b < 256) (hb' : b' < 256)
    (ha : IsBytes after) where
  reference_differs :
      (crc : ℕ) (before : List ℕ)
      → crc < 2 ^ 32
      → IsBytes before
      → crc_reference crc (before ++ (b ∷ after)) ≢ crc_reference crc (before ++ (b' ∷ after))
  unfolding crc_reference
  reference_differs crc [] lt h e = ne (
      bit_xor_injective crc b b' (
        crc_bits_injective 8 (bit_xor crc b) (bit_xor crc b') (fits b hb) (fits b' hb') (
          crc_reference_injective _ _ after ha (crc_bits-lt 8 _ (fits b hb))
            (crc_bits-lt 8 _ (fits b' hb')) e)))
    where
      fits : (x : ℕ) → x < 256 → bit_xor crc x < 2 ^ 32
      fits x hx = bit_xor-lt 32 crc x lt (omega arith)
  reference_differs crc (x ∷ before) lt h e =
      reference_differs (crc_bits 8 (bit_xor crc x)) before
        (crc_bits-lt 8 _ (bit_xor-lt 32 crc x lt (omega arith))) h.1 e

-- The checksum of bytes changes when one of them does.
pub crc32_ieee-set :
    (bytes : List ℕ) (i v : ℕ)
    → IsBytes bytes
    → i < length bytes
    → v < 256
    → get_or bytes i 0 ≢ v
    → crc32_ieee bytes ≢ crc32_ieee (set bytes i v)
crc32_ieee-set bytes i v h hi hv ne e =
    reference_differs (get_or bytes i 0) v s.after ne parts.1.0 hv parts.1.1 0xFFFFFFFF s.before
      (omega arith) parts.0
      (ap (crc_reference 0xFFFFFFFF) (sym s.old) ∙ same ∙ ap (crc_reference 0xFFFFFFFF) s.new)
  where
    s : IsSplit bytes i (get_or bytes i 0) v
    s = IsSplit-at bytes i v 0 hi

    parts : IsBytes s.before × IsBytes (get_or bytes i 0 ∷ s.after)
    parts = All-before _ s.before (get_or bytes i 0 ∷ s.after) (subst IsBytes s.old h)

    same : crc_reference 0xFFFFFFFF bytes ≡ crc_reference 0xFFFFFFFF (set bytes i v)
    same = xor_right_injective _ _ 0xFFFFFFFF (
        sym (crc32_ieee-crc_reference bytes h)
        ∙ e
        ∙ crc32_ieee-crc_reference (set bytes i v) (All-set _ bytes i v h hv))
