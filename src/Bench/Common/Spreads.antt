-- ===== src/Bench/Common/Spreads.antt =====
-- The spread of repeated results is always found.
use vigil_low_latency_tcp_he.Prelude.{
  ◌/◌, ◌≡◌, refl, some, List, [], ◌∷◌, arith, length, get_elem?-in_range, map,
}
use vigil_low_latency_tcp_he.Prelude.Double.{Double}
use vigil_low_latency_tcp_he.CliDisplay.{DoublePrinting}
use vigil_low_latency_tcp_he.Bench.Common.Defs.{
  Spread, no_spread, front, sort_doubles, spread_of, summarize_spread,
}
use vigil_low_latency_tcp_he.Bench.Common.Summary.{back-nonempty}

spread_of-some : (xs : List Double) → (s : Spread) × (spread_of xs ≡ some s)
unfolding spread_of front
spread_of-some [] = (no_spread, refl)
spread_of-some (x ∷ xs) =
    let (greatest, at) = back-nonempty x xs in
    let (median, middle) = get_elem?-in_range (x ∷ xs) (length (x ∷ xs) / 2) (omega arith) in
    (record { min = x; median = median; max = greatest }, rw (at, middle) refl)

pub summarize_spread-some :
    {T : Type 0} (d : DoublePrinting) (results : List T) (extract : T → Double)
    → (s : Spread) × (summarize_spread d results extract ≡ some s)
unfolding summarize_spread
summarize_spread-some d results extract = spread_of-some (sort_doubles d (map extract results))
