-- ===== src/Bench/Throughput/Counts.antt =====
-- The list of counts is read back from its text, and the flags may stand anywhere.
use vigil_low_latency_tcp_he.Prelude.{
  ℕ, zero, suc, ◌+◌, ◌/◌, ◌%◌, ◌^◌, ◌<◌, ◌≡◌, refl, sym, ap, ◌∙◌, inl, inr, true, false, none, some,
  List, [], ◌∷◌, ◌++◌, arith, ltb, ◌==◌, length, length-append, Bool-cases, All,
}
use vigil_low_latency_tcp_he.Prelude.Text.{Text, text, text_eq}
use vigil_low_latency_tcp_he.Config.{skip_space}
use vigil_low_latency_tcp_he.CommandInput.{
  read_signed, read_digits, leading_digits, is_digit, print_digits, print_uint,
}
use vigil_low_latency_tcp_he.CommandInput.Numbers.{
  StartsWithDigit, leading_digits-print_digits, print_uint-StartsWithDigit,
}
use vigil_low_latency_tcp_he.Bench.Throughput.Options.{
  Flags, strip_flag, strip_flags, no_flags, stoul, comma, until_comma, counts_loop, parse_counts,
  plan_of, main_plan,
}

abbrev AreDigits : Text → Type 0
AreDigits = All (λ (c : ℕ). is_digit c ≡ true)

print_digits-AreDigits :
    (fuel n : ℕ) (rest : Text) → AreDigits rest → AreDigits (print_digits fuel n rest)
unfolding print_digits
print_digits-AreDigits zero n rest h = h
print_digits-AreDigits (suc fuel) n rest h = elim (Bool-cases (ltb n 10)) [
  | inl small ↦ rw small (ground (arith, small), h)
  | inr more ↦
      rw more (print_digits-AreDigits fuel (n / 10) ((48 + n % 10) ∷ rest) (ground arith, h))
]

until_comma_digits :
    (ds rest : Text) → AreDigits ds → until_comma (ds ++ comma ∷ rest) ≡ (ds, some rest)
unfolding until_comma
until_comma_digits [] rest h = refl
until_comma_digits (c ∷ ds) rest h =
    let other : (c == comma) ≡ false = ground (arith, h.0) in
    rw (until_comma_digits ds rest h.1, other) refl

until_comma_end : (ds : Text) → AreDigits ds → until_comma ds ≡ (ds, none)
unfolding until_comma
until_comma_end [] h = refl
until_comma_end (c ∷ ds) h =
    let other : (c == comma) ≡ false = ground (arith, h.0) in
    rw (until_comma_end ds h.1, other) refl

stoul_digit :
    (s : Text) (n : ℕ) → StartsWithDigit s → leading_digits 0 s ≡ n → n < 2 ^ 64 → stoul s ≡ some n
unfolding stoul read_signed read_digits skip_space StartsWithDigit
stoul_digit [] n p e h = absurd p
stoul_digit (c ∷ s) n p e h = ground (arith, p, e, h)

stoul-print_uint : (n : ℕ) → n < 2 ^ 64 → stoul (print_uint n) ≡ some n
unfolding print_uint leading_digits
stoul-print_uint n h =
    stoul_digit (print_uint n) n (print_uint-StartsWithDigit n (omega arith))
      (leading_digits-print_digits 20 n [] (omega arith)) h

-- The numbers with commas between them.
abbrev pub joined : List ℕ → Text
joined [] = []
joined (n ∷ []) = print_uint n
joined (n ∷ m ∷ ns) = print_uint n ++ comma ∷ joined (m ∷ ns)

StartsWithDigit-append : (s t : Text) → StartsWithDigit s → StartsWithDigit (s ++ t)
unfolding StartsWithDigit
StartsWithDigit-append [] t h = absurd h
StartsWithDigit-append (c ∷ s) t h = h

counts_last :
    (fuel : ℕ) (s ds : Text) (n : ℕ)
    → StartsWithDigit s
    → until_comma s ≡ (ds, none)
    → stoul ds ≡ some n
    → counts_loop (suc fuel) s ≡ some (n ∷ [])
unfolding counts_loop StartsWithDigit
counts_last fuel [] ds n p u e = absurd p
counts_last fuel (c ∷ s) ds n p u e = ground (arith, u, e)

counts_next :
    (fuel : ℕ) (s ds rest : Text) (n : ℕ) (ns : List ℕ)
    → StartsWithDigit s
    → until_comma s ≡ (ds, some rest)
    → stoul ds ≡ some n
    → counts_loop fuel rest ≡ some ns
    → counts_loop (suc fuel) s ≡ some (n ∷ ns)
unfolding counts_loop StartsWithDigit
counts_next fuel [] ds rest n ns p u e more = absurd p
counts_next fuel (c ∷ s) ds rest n ns p u e more = ground (arith, u, e, more)

abbrev pub IsCount : ℕ → Type 0
IsCount n = n < 2 ^ 64

counts_loop-joined :
    (fuel n : ℕ) (ns : List ℕ)
    → length ns < fuel
    → All IsCount (n ∷ ns)
    → counts_loop fuel (joined (n ∷ ns)) ≡ some (n ∷ ns)
counts_loop-joined zero n ns h fits = absurd (omega arith)
counts_loop-joined (suc fuel) n [] h fits =
    counts_last fuel (print_uint n) (print_uint n) n
      (print_uint-StartsWithDigit n (omega (arith, fits.0)))
      (until_comma_end (print_uint n) (unfold print_uint in print_digits-AreDigits 20 n [] tt))
      (stoul-print_uint n fits.0)
counts_loop-joined (suc fuel) n (m ∷ ns) h fits =
    counts_next fuel (joined (n ∷ m ∷ ns)) (print_uint n) (joined (m ∷ ns)) n (m ∷ ns)
      (StartsWithDigit-append (print_uint n) (comma ∷ joined (m ∷ ns))
        (print_uint-StartsWithDigit n (omega (arith, fits.0))))
      (until_comma_digits (print_uint n) (joined (m ∷ ns))
        (unfold print_uint in print_digits-AreDigits 20 n [] tt))
      (stoul-print_uint n fits.0) (counts_loop-joined fuel m ns (omega (arith, h)) fits.1)

length-StartsWithDigit : (s : Text) → StartsWithDigit s → 0 < length s
unfolding StartsWithDigit
length-StartsWithDigit [] h = absurd h
length-StartsWithDigit (c ∷ s) h = omega arith

length-joined : (n : ℕ) (ns : List ℕ) → All IsCount (n ∷ ns) → length ns < length (joined (n ∷ ns))
length-joined n [] fits =
    length-StartsWithDigit (print_uint n) (print_uint-StartsWithDigit n (omega (arith, fits.0)))
length-joined n (m ∷ ns) fits = omega (
  arith,
  length-append (print_uint n) (comma ∷ joined (m ∷ ns)),
  length-StartsWithDigit (print_uint n) (print_uint-StartsWithDigit n (omega (arith, fits.0))),
  length-joined m ns fits.1,
)

-- One or more counts below 2 ^ 64, printed with commas between them, are parsed as they were.
pub parse_counts-joined :
    (n : ℕ) (ns : List ℕ) → All IsCount (n ∷ ns) → parse_counts (joined (n ∷ ns)) ≡ some (n ∷ ns)
unfolding parse_counts
parse_counts-joined n ns fits =
    counts_loop-joined (length (joined (n ∷ ns))) n ns (length-joined n ns fits) fits

-- The two flags of the naive baseline.
pub data IsFlag : Text → Type 0 where
  naive : IsFlag (text "--naive")
  naive_only : IsFlag (text "--naive-only")

abbrev set_mode : Flags → Flags
set_mode f = record f { naive_mode = true }

abbrev set_only : Flags → Flags
set_only f = record f { naive_mode = true; naive_only = true }

strip_flag_naive : (f : Flags) → strip_flag (text "--naive") f ≡ set_mode f
unfolding strip_flag text_eq
strip_flag_naive f = refl

strip_flag_only : (f : Flags) → strip_flag (text "--naive-only") f ≡ set_only f
unfolding strip_flag text_eq
strip_flag_only f = refl

strip_flag-set_mode :
    (arg : Text) (f : Flags) → strip_flag arg (set_mode f) ≡ set_mode (strip_flag arg f)
unfolding strip_flag
strip_flag-set_mode arg f = ground arith

strip_flag-set_only :
    (arg : Text) (f : Flags) → strip_flag arg (set_only f) ≡ set_only (strip_flag arg f)
unfolding strip_flag
strip_flag-set_only arg f = ground arith

strip_flag_comm :
    {flag : Text} (arg : Text) (f : Flags)
    → IsFlag flag
    → strip_flag arg (strip_flag flag f) ≡ strip_flag flag (strip_flag arg f)
strip_flag_comm arg f naive =
    ap (strip_flag arg) (strip_flag_naive f)
    ∙ strip_flag-set_mode arg f
    ∙ sym (strip_flag_naive (strip_flag arg f))
strip_flag_comm arg f naive_only =
    ap (strip_flag arg) (strip_flag_only f)
    ∙ strip_flag-set_only arg f
    ∙ sym (strip_flag_only (strip_flag arg f))

strip_flags-middle :
    {flag : Text} (before after : List Text) (f : Flags)
    → IsFlag flag
    → strip_flags (before ++ flag ∷ after) f ≡ strip_flags (flag ∷ before ++ after) f
unfolding strip_flags
strip_flags-middle [] after f h = refl
strip_flags-middle (arg ∷ before) after f h =
    strip_flags-middle before after (strip_flag arg f) h
    ∙ ap (strip_flags (before ++ after)) (sym (strip_flag_comm arg f h))

-- Where `--naive` or `--naive-only` stands among the arguments makes no difference to what is run: the
-- list of counts, the interval and the repetitions keep their meaning by position.
pub main_plan-flag :
    {flag : Text} (before after : List Text)
    → IsFlag flag
    → main_plan (before ++ flag ∷ after) ≡ main_plan (flag ∷ before ++ after)
unfolding main_plan
main_plan-flag before after h = ap plan_of (strip_flags-middle before after no_flags h)
