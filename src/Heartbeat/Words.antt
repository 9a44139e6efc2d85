-- ===== src/Heartbeat/Words.antt =====
-- Big-endian words and the bits of an int64_t go to bytes and back.
use vigil_low_latency_tcp_he.Prelude.{
  ℕ, ◌^◌, ◌<◌, ◌≡◌, ap, ap₂, ◌∙◌, List, [], ◌∷◌, ◌++◌, All, length, take, drop, take-append-drop,
  All-take, All-drop, arith, length-take, length-drop,
}
use vigil_low_latency_tcp_he.Prelude.Int.{ℤ, pos, negsuc}
use vigil_low_latency_tcp_he.Heartbeat.Defs.{
  to_be16, to_be32, to_be64, from_be16, from_be32, from_be64, to_bits64, from_bits64,
}

abbrev pub IsBytes : List ℕ → Type 0
IsBytes = All (λ (b : ℕ). b < 256)

-- The values of an int64_t.
abbrev pub IsInt64 : ℤ → Type 0
IsInt64 (pos n) = n < 2 ^ 63
IsInt64 (negsuc n) = n < 2 ^ 63

pub from_be16-to_be16 : (n : ℕ) → n < 2 ^ 16 → from_be16 (to_be16 n) ≡ n
unfolding from_be16 to_be16
from_be16-to_be16 n h = omega arith

pub from_be32-to_be32 : (n : ℕ) → n < 2 ^ 32 → from_be32 (to_be32 n) ≡ n
unfolding from_be32 to_be32
from_be32-to_be32 n h = omega arith

pub from_be64-to_be64 : (n : ℕ) → n < 2 ^ 64 → from_be64 (to_be64 n) ≡ n
unfolding from_be64 to_be64
from_be64-to_be64 n h = omega arith

pub from_bits64-to_bits64 : (z : ℤ) → IsInt64 z → from_bits64 (to_bits64 z) ≡ z
unfolding from_bits64 to_bits64
from_bits64-to_bits64 (pos n) h = ground arith
from_bits64-to_bits64 (negsuc n) h = ground arith

pub to_bits64-lt : (z : ℤ) → IsInt64 z → to_bits64 z < 2 ^ 64
unfolding to_bits64
to_bits64-lt (pos n) h = omega arith
to_bits64-lt (negsuc n) h = omega arith

pub to_bits64-from_bits64 : (n : ℕ) → n < 2 ^ 64 → to_bits64 (from_bits64 n) ≡ n
unfolding from_bits64 to_bits64
to_bits64-from_bits64 n h = ground arith

pub from_bits64-IsInt64 : (n : ℕ) → n < 2 ^ 64 → IsInt64 (from_bits64 n)
unfolding from_bits64
from_bits64-IsInt64 n h = ground arith

pub to_be16-IsBytes : (n : ℕ) → IsBytes (to_be16 n)
unfolding to_be16
to_be16-IsBytes n = omega arith

pub to_be32-IsBytes : (n : ℕ) → IsBytes (to_be32 n)
unfolding to_be32
to_be32-IsBytes n = omega arith

pub to_be64-IsBytes : (n : ℕ) → IsBytes (to_be64 n)
unfolding to_be64
to_be64-IsBytes n = omega arith

-- Reading two bytes: in range, and written back as they were.
pub to_be16-from_be16 :
    (bytes : List ℕ)
    → length bytes ≡ 2
    → IsBytes bytes
    → (to_be16 (from_be16 bytes) ≡ bytes) × (from_be16 bytes < 2 ^ 16)
unfolding from_be16 to_be16
to_be16-from_be16 [] e h = absurd (omega arith)
to_be16-from_be16 (a ∷ []) e h = absurd (omega arith)
to_be16-from_be16 (a ∷ b ∷ []) e h =
    (ap₂ (λ x y. x ∷ y ∷ []) (omega arith) (omega arith), omega arith)
to_be16-from_be16 (a ∷ b ∷ c ∷ bytes) e h = absurd (omega arith)

module _ (bytes : List ℕ) (h : IsBytes bytes) where
  low : (n : ℕ) → IsBytes (take n bytes)
  low n = All-take _ n bytes h

  high : (n : ℕ) → IsBytes (drop n bytes)
  high n = All-drop _ n bytes h

  pub to_be32-from_be32 :
      length bytes ≡ 4 → (to_be32 (from_be32 bytes) ≡ bytes) × (from_be32 bytes < 2 ^ 32)
  unfolding from_be32 to_be32
  to_be32-from_be32 e =
      let hi = to_be16-from_be16 (take 2 bytes) (omega (arith, length-take 2 bytes)) (low 2) in
      let lo = to_be16-from_be16 (drop 2 bytes) (omega (arith, length-drop 2 bytes)) (high 2) in
      (
        ap₂ ◌++◌ (ap to_be16 (omega (arith, hi.1, lo.1)) ∙ hi.0)
              (ap to_be16 (omega (arith, hi.1, lo.1)) ∙ lo.0)
            ∙ take-append-drop 2 bytes,
        omega (arith, hi.1, lo.1),
      )

pub to_be64-from_be64 :
    (bytes : List ℕ)
    → IsBytes bytes
    → length bytes ≡ 8
    → (to_be64 (from_be64 bytes) ≡ bytes) × (from_be64 bytes < 2 ^ 64)
unfolding from_be64 to_be64
to_be64-from_be64 bytes h e =
    let hi =
      to_be32-from_be32 (take 4 bytes) (low bytes h 4) (omega (arith, length-take 4 bytes)) in
    let lo =
      to_be32-from_be32 (drop 4 bytes) (high bytes h 4) (omega (arith, length-drop 4 bytes)) in
    (
      ap₂ ◌++◌ (ap to_be32 (omega (arith, hi.1, lo.1)) ∙ hi.0)
            (ap to_be32 (omega (arith, hi.1, lo.1)) ∙ lo.0)
          ∙ take-append-drop 4 bytes,
      omega (arith, hi.1, lo.1),
    )
