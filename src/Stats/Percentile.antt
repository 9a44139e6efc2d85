-- ===== src/Stats/Percentile.antt =====
-- `percentile` of src/stats.cpp.
use vigil_low_latency_tcp_he.Prelude.{
  ℕ, ◌+◌, ◌-◌, min, ◌≤◌, ◌<◌, ◌≡◌, refl, Bool, false, inl, inr, Option, none, some, List, [], ◌∷◌,
  arith, length, get_elem?, get_elem?-in_range, if◌then◌else◌, Bool-cases,
}
use vigil_low_latency_tcp_he.Prelude.Int.{ℤ, pos}
use vigil_low_latency_tcp_he.Prelude.Double.{Double, decimal, of_int, add, sub, mul, div}

-- What the hardware does with doubles: the test `<=`, and `static_cast<size_t>`.
pub record DoubleTests : Type 0 where
  pub le : Double → Double → Bool
  pub truncate : Double → ℕ

-- `none` stands for an access outside of the vector.
unfoldable pub interpolate : List ℤ → ℕ → ℕ → Double → Option Double
interpolate samples lo hi frac = elim (get_elem? samples lo) [
  | none ↦ none
  | some x ↦ elim (get_elem? samples hi) [
    | none ↦ none
    | some y ↦ some (add (mul (of_int x) (sub (decimal 1 0) frac)) (mul (of_int y) frac))
  ]
]

abbrev pub rank_of : ℕ → Double → Double
rank_of size p = mul (div p (decimal 100 0)) (of_int (pos (size - 1)))

unfoldable pub percentile : DoubleTests → List ℤ → Double → Option Double
percentile t [] p = some (decimal 0 0)
percentile t (x ∷ xs) p =
    let samples = x ∷ xs in
    let last : ℕ = length samples - 1 in
    let rank = rank_of (length samples) p in
    let lo = t.truncate rank in
    let hi : ℕ = min (lo + 1) last in
    if t.le p (decimal 0 0)
    then some (of_int x)
    else if t.le (decimal 100 0) p
    then elim (get_elem? samples last) [ none ↦ none | some y ↦ some (of_int y) ]
    else interpolate samples lo hi (sub rank (of_int (pos lo)))

interpolate-some :
    (samples : List ℤ) (lo hi : ℕ) (frac : Double)
    → lo < length samples
    → hi < length samples
    → (d : Double) × (interpolate samples lo hi frac ≡ some d)
unfolding interpolate
interpolate-some samples lo hi frac l h =
    let (x, at) = get_elem?-in_range samples lo l in
    let (y, there) = get_elem?-in_range samples hi h in
    (
      add (mul (of_int x) (sub (decimal 1 0) frac)) (mul (of_int y) frac),
      rw (interpolate, at, there) refl,
    )

-- `percentile` gives a value and reads no place outside of the vector, if for a `p` between 0 and 100 the
-- rank `p / 100 * (size - 1)` is truncated to at most `size - 1`.
pub percentile-some :
    (t : DoubleTests) (samples : List ℤ) (p : Double)
    → (t.le p (decimal 0 0) ≡ false
        → t.le (decimal 100 0) p ≡ false
        → t.truncate (rank_of (length samples) p) ≤ length samples - 1)
    → (d : Double) × (percentile t samples p ≡ some d)
unfolding percentile
percentile-some t [] p small = (decimal 0 0, refl)
percentile-some t (x ∷ xs) p small = elim (Bool-cases (t.le p (decimal 0 0))) [
  | inl low ↦ (of_int x, rw low refl)
  | inr positive ↦ elim (Bool-cases (t.le (decimal 100 0) p)) [
    | inl high ↦
        let (y, at) = get_elem?-in_range (x ∷ xs) (length (x ∷ xs) - 1) (omega arith) in
        (of_int y, rw (positive, high, at) refl)
    | inr below ↦
        let size : ℕ = length (x ∷ xs) in
        let lo = t.truncate (rank_of size p) in
        let le : lo ≤ size - 1 = small positive below in
        let (d, e) =
          interpolate-some (x ∷ xs) lo (min (lo + 1) (size - 1))
            (sub (rank_of size p) (of_int (pos lo))) (omega (arith, le)) (omega (arith, le)) in
        (d, rw (positive, below) e)
  ]
]
