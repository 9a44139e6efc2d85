-- ===== src/Bench/Common/Summary.antt =====
-- What the report says of the samples.
use mathlib.Core.List.{Mem, Perm, not-mem-nil, mem-cons, mem-cons_self, mem-cons_of_mem}
use mathlib.Core.List.Perm
use mathlib.Core.Logic.Or
use native.Mathlib.Bridge.{le_prop}
use vigil_low_latency_tcp_he.Prelude.{
  ℕ, suc, ◌+◌, ◌-◌, ◌≤◌, ◌≡◌, refl, sym, ap, ◌∙◌, false, some, List, [], ◌∷◌, arith, length,
  get_elem?, get_elem?-in_range, All, subst,
}
use vigil_low_latency_tcp_he.Prelude.Int.{ℤ, ◌≤ℤ◌, pos_part, neg_part}
use vigil_low_latency_tcp_he.Prelude.Double.{Double, decimal, of_int}
use vigil_low_latency_tcp_he.Stats.{sort, insert_sorted}
use vigil_low_latency_tcp_he.Stats.Order.{IsSorted, sort-IsSorted, sort-Perm}
use vigil_low_latency_tcp_he.Stats.Percentile.{DoubleTests, rank_of, percentile-some}
use vigil_low_latency_tcp_he.Bench.Common.Defs.{PercentileReport, front, back, report_of, summarize}

back-cons : {A : Type 0} (x y : A) (ys : List A) → back (x ∷ y ∷ ys) ≡ back (y ∷ ys)
unfolding back
back-cons x y ys =
    ap (get_elem? (x ∷ y ∷ ys))
      (let e : length (x ∷ y ∷ ys) - 1 ≡ suc (length (y ∷ ys) - 1) = omega arith in e)

pub back-nonempty : {A : Type 0} (x : A) (xs : List A) → (g : A) × (back (x ∷ xs) ≡ some g)
unfolding back
back-nonempty x xs = get_elem?-in_range (x ∷ xs) (length (x ∷ xs) - 1) (omega arith)

Mem-back : (x : ℤ) (xs : List ℤ) (g : ℤ) → back (x ∷ xs) ≡ some g → Mem g (x ∷ xs)
Mem-back x [] g h =
    let e : x ≡ g = unfold back in cc in subst (λ (k : ℤ). Mem k (x ∷ [])) e mem-cons_self
Mem-back x (y ∷ ys) g h = mem-cons_of_mem x (Mem-back y ys g (sym (back-cons x y ys) ∙ h))

All-back :
    (x : ℤ) (xs : List ℤ) (g : ℤ)
    → IsSorted (x ∷ xs)
    → back (x ∷ xs) ≡ some g
    → All (λ y. y ≤ℤ g) (x ∷ xs)
All-back x [] g sorted h =
    let e : x ≡ g = unfold back in cc in (omega (arith, ap pos_part e, ap neg_part e), tt)
All-back x (y ∷ ys) g sorted h =
    let later = All-back y ys g sorted.1 (sym (back-cons x y ys) ∙ h) in
    (omega (arith, sorted.0.0, later.0), later)

le_of_mem : (g x : ℤ) (xs : List ℤ) → All (λ y. y ≤ℤ g) xs → Mem x xs → x ≤ℤ g
le_of_mem g x [] h m = absurd (not-mem-nil m)
le_of_mem g x (y ∷ ys) h m = Or.elim le_prop (mem-cons.0 m) (λ e. rw e h.0) (le_of_mem g x ys h.1)

ge_of_mem : (l x : ℤ) (xs : List ℤ) → All (λ y. l ≤ℤ y) xs → Mem x xs → l ≤ℤ x
ge_of_mem l x [] h m = absurd (not-mem-nil m)
ge_of_mem l x (y ∷ ys) h m = Or.elim le_prop (mem-cons.0 m) (λ e. rw e h.0) (ge_of_mem l x ys h.1)

length-insert_sorted : (x : ℤ) (xs : List ℤ) → length (insert_sorted x xs) ≡ length xs + 1
unfolding insert_sorted
length-insert_sorted x [] = omega arith
length-insert_sorted x (y ∷ ys) = ground (arith, length-insert_sorted x ys)

length-sort : (xs : List ℤ) → length (sort xs) ≡ length xs
unfolding sort
length-sort [] = refl
length-sort (x ∷ xs) = omega (arith, length-insert_sorted x (sort xs), length-sort xs)

-- What the report of samples is to say: their number, and the least and the greatest of them.
pub record Reports (samples : List ℤ) (r : PercentileReport) : Type 0 where
  pub counted : r.count ≡ length samples
  pub min_is_sample : Mem r.min samples
  pub min_is_least : (y : ℤ) → Mem y samples → r.min ≤ℤ y
  pub greatest : ℤ
  pub max_is_greatest : r.max ≡ of_int greatest
  pub greatest_is_sample : Mem greatest samples
  pub greatest_bounds : (y : ℤ) → Mem y samples → y ≤ℤ greatest

module _ (t : DoubleTests)
    (small : (size : ℕ) (p : Double)
      → t.le p (decimal 0 0) ≡ false
      → t.le (decimal 100 0) p ≡ false
      → t.truncate (rank_of size p) ≤ size - 1) where
  report_of-some :
      (x : ℤ) (xs : List ℤ)
      → IsSorted (x ∷ xs)
      → (r : PercentileReport) × (report_of t (x ∷ xs) ≡ some r) × Reports (x ∷ xs) r
  unfolding report_of front
  report_of-some x xs sorted =
      let samples = x ∷ xs in
      let (g, at) = back-nonempty x xs in
      let (p50, e50) =
        percentile-some t samples (decimal 50 0) (small (length samples) (decimal 50 0)) in
      let (p90, e90) =
        percentile-some t samples (decimal 90 0) (small (length samples) (decimal 90 0)) in
      let (p99, e99) =
        percentile-some t samples (decimal 99 0) (small (length samples) (decimal 99 0)) in
      let (p999, e999) =
        percentile-some t samples (decimal 999 1) (small (length samples) (decimal 999 1)) in
      let r : PercentileReport = record {
        count = length samples;
        min = x;
        p50 = p50;
        p90 = p90;
        p99 = p99;
        p999 = p999;
        max = of_int g;
      } in
      (
        r,
        rw (at, e50, e90, e99, e999) refl,
        record {
          counted = refl;
          min_is_sample = mem-cons_self;
          min_is_least = λ y m. ge_of_mem x y samples (omega arith, sorted.0) m;
          greatest = g;
          max_is_greatest = refl;
          greatest_is_sample = Mem-back x xs g at;
          greatest_bounds = λ y m. le_of_mem g y samples (All-back x xs g sorted at) m;
        },
      )

  Reports-perm :
      (xs ys : List ℤ) (r : PercentileReport)
      → Perm xs ys
      → length xs ≡ length ys
      → Reports xs r
      → Reports ys r
  Reports-perm xs ys r p same h = record {
    counted = h.counted ∙ same;
    min_is_sample = (Perm.mem_iff p).0 h.min_is_sample;
    min_is_least = λ y m. h.min_is_least y ((Perm.mem_iff p).1 m);
    greatest = h.greatest;
    max_is_greatest = h.max_is_greatest;
    greatest_is_sample = (Perm.mem_iff p).0 h.greatest_is_sample;
    greatest_bounds = λ y m. h.greatest_bounds y ((Perm.mem_iff p).1 m);
  }

  -- For any samples but none, in any order, `summarize` gives a report and reads no place outside of the
  -- vector, if for a `p` between 0 and 100 the rank `p / 100 * (size - 1)` is truncated to at most
  -- `size - 1`. The report has the number of the samples; its `min` is a sample and at most any other,
  -- its `max` is a sample, as a double, and at least any other.
  pub summarize-some :
      (x : ℤ) (xs : List ℤ)
      → (r : PercentileReport) × (summarize t (x ∷ xs) ≡ some r) × Reports (x ∷ xs) r
  unfolding summarize
  summarize-some x xs =
      by_sorted (sort (x ∷ xs)) (sort-IsSorted (x ∷ xs)) (sort-Perm (x ∷ xs)) (length-sort (x ∷ xs))
    where
      by_sorted :
          (s : List ℤ)
          → IsSorted s
          → Perm s (x ∷ xs)
          → length s ≡ length (x ∷ xs)
          → (r : PercentileReport) × (report_of t s ≡ some r) × Reports (x ∷ xs) r
      by_sorted [] sorted p same = absurd (omega arith)
      by_sorted (y ∷ ys) sorted p same =
          let (r, e, h) = report_of-some y ys sorted in
          (r, e, Reports-perm (y ∷ ys) (x ∷ xs) r p same h)
