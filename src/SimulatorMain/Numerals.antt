-- ===== src/SimulatorMain/Numerals.antt =====
-- What `strtoll` takes for a number: spaces, a sign, and decimal digits.
use mathlib.Core.Option.{some_inj}
use vigil_low_latency_tcp_he.Prelude.{
  ℕ, zero, suc, ◌+◌, ◌^◌, ◌<◌, ◌≡◌, refl, sym, ap, ◌∙◌, Bool, true, false, inl, inr, Option, none,
  some, List, [], ◌∷◌, ◌++◌, leb, ltb, ◌==◌, if◌then◌else◌, All, arith, Bool-cases, subst,
  Option-cases, ==_iff,
}
use vigil_low_latency_tcp_he.Prelude.Int.{ℤ, pos, negsuc, ◌-ℤ◌}
use vigil_low_latency_tcp_he.Prelude.Text.{Text}
use vigil_low_latency_tcp_he.Config.{is_space, skip_space, magnitude}
use vigil_low_latency_tcp_he.Heartbeat.Words.{IsInt64}
use vigil_low_latency_tcp_he.SimulatorMain.Digits.{
  decimal_value, digits_text, magnitude-IsMagnitude, magnitude-digits_text,
}
use vigil_low_latency_tcp_he.SimulatorMain.Options.{strtoll_all, parse_int_arg}

pub data Sign : Type 0 where
  unsigned plus minus : Sign

abbrev pub sign_text : Sign → Text
sign_text Sign.unsigned = []
sign_text Sign.plus = 43 ∷ []
sign_text Sign.minus = 45 ∷ []

abbrev pub signed : Sign → ℕ → ℤ
signed Sign.unsigned n = pos n
signed Sign.plus n = pos n
signed Sign.minus zero = pos 0
signed Sign.minus (suc n) = negsuc n

-- The text is `v`, a long long, written out in full.
pub record IsNumeral (raw : Text) (v : ℤ) : Type 0 where
  pub spaces : Text
  pub sign : Sign
  pub first : ℕ
  pub others : List ℕ
  pub are_spaces : All (λ (c : ℕ). is_space c ≡ true) spaces
  pub are_digits : All (λ (d : ℕ). d < 10) (first ∷ others)
  pub written : raw ≡ spaces ++ (sign_text sign ++ digits_text (first ∷ others))
  pub value : v ≡ signed sign (decimal_value (first ∷ others))
  pub fits : IsInt64 v

negated : (n : ℕ) → pos 0 -ℤ pos n ≡ signed Sign.minus n
unfolding ◌-ℤ◌
negated zero = refl
negated (suc n) = ground arith

-- The two ends of `strtoll_all`.
abbrev below_zero : Option ℕ → Option ℤ
below_zero none = none
below_zero (some n) = if leb n (2 ^ 63) then some (pos 0 -ℤ pos n) else none

abbrev not_below_zero : Option ℕ → Option ℤ
not_below_zero none = none
not_below_zero (some n) = if ltb n (2 ^ 63) then some (pos n) else none

abbrev at_end : Sign → Option ℕ → Option ℤ
at_end Sign.minus = below_zero
at_end Sign.plus = not_below_zero
at_end Sign.unsigned = not_below_zero

below_zero_ok : (n : ℕ) → leb n (2 ^ 63) ≡ true → IsInt64 (signed Sign.minus n)
below_zero_ok zero h = omega arith
below_zero_ok (suc n) h = ground (arith, h)

minus_fits : (n : ℕ) → IsInt64 (signed Sign.minus n) → leb n (2 ^ 63) ≡ true
minus_fits zero h = refl
minus_fits (suc n) h = ground (arith, h)

at_end-some :
    (sign : Sign) (n : ℕ) → IsInt64 (signed sign n) → at_end sign (some n) ≡ some (signed sign n)
at_end-some Sign.minus n h = rw (minus_fits n h) (ap some (negated n))
at_end-some Sign.plus n h = ground (arith, h)
at_end-some Sign.unsigned n h = ground (arith, h)

below_zero_back :
    (n : ℕ) (v : ℤ) → below_zero (some n) ≡ some v → (v ≡ signed Sign.minus n) × IsInt64 v
below_zero_back n v h = elim (Bool-cases (leb n (2 ^ 63))) [
  | inr large ↦ let e : ◌≡◌ {A = Option ℤ} none (some v) = sym (ap choose large) ∙ h in cc
  | inl small ↦
      let e : v ≡ signed Sign.minus n = sym (some_inj.0 (sym (ap choose small) ∙ h)) ∙ negated n in
      (e, subst IsInt64 (sym e) (below_zero_ok n small))
]
  where
    choose : Bool → Option ℤ
    choose b = if b then some (pos 0 -ℤ pos n) else none

not_below_zero_back : (n : ℕ) (v : ℤ) → not_below_zero (some n) ≡ some v → (v ≡ pos n) × IsInt64 v
not_below_zero_back n v h = elim (Bool-cases (ltb n (2 ^ 63))) [
  | inr large ↦ let e : ◌≡◌ {A = Option ℤ} none (some v) = sym (ap choose large) ∙ h in cc
  | inl small ↦
      let e : v ≡ pos n = sym (some_inj.0 (sym (ap choose small) ∙ h)) in
      (e, subst IsInt64 (sym e) (ground (arith, small)))
]
  where
    choose : Bool → Option ℤ
    choose b = if b then some (pos n) else none

at_end_back :
    (sign : Sign) (n : ℕ) (v : ℤ) → at_end sign (some n) ≡ some v → (v ≡ signed sign n) × IsInt64 v
at_end_back Sign.minus n v h = below_zero_back n v h
at_end_back Sign.plus n v h = not_below_zero_back n v h
at_end_back Sign.unsigned n v h = not_below_zero_back n v h

at_end_refused : (sign : Sign) (v : ℤ) → at_end sign none ≡ some v → ⊥
at_end_refused Sign.minus v h = cc
at_end_refused Sign.plus v h = cc
at_end_refused Sign.unsigned v h = cc

-- `IsNumeral` without spaces in front.
record IsSigned (s : Text) (v : ℤ) : Type 0 where
  sign : Sign
  first : ℕ
  others : List ℕ
  are_digits : All (λ (d : ℕ). d < 10) (first ∷ others)
  written : s ≡ sign_text sign ++ digits_text (first ∷ others)
  value : v ≡ signed sign (decimal_value (first ∷ others))
  fits : IsInt64 v

digits-IsSigned :
    (sign : Sign) (s t : Text) (v : ℤ)
    → t ≡ sign_text sign ++ s
    → at_end sign (magnitude s) ≡ some v
    → IsSigned t v
digits-IsSigned sign s t v begins h = elim (Option-cases (magnitude s)) [
  | inl bad ↦ absurd (at_end_refused sign v (sym (ap (at_end sign) bad) ∙ h))
  | inr (n, good) ↦
      let m = magnitude-IsMagnitude s n good in
      let e = at_end_back sign n v (sym (ap (at_end sign) good) ∙ h) in
      record {
        sign = sign;
        first = m.first;
        others = m.others;
        are_digits = m.all;
        written = begins ∙ ap (λ (x : Text). sign_text sign ++ x) m.spelled;
        value = e.0 ∙ ap (signed sign) m.total;
        fits = e.1;
      }
]

strtoll_all-IsSigned : (s : Text) (v : ℤ) → strtoll_all s ≡ some v → IsSigned s v
unfolding strtoll_all
strtoll_all-IsSigned [] v h = cc
strtoll_all-IsSigned (c ∷ s) v h = by_first (c == 45) refl h
  where
    rest : Bool → Text
    rest b = if b then s else c ∷ s

    by_plus :
        (b : Bool)
        → (c == 43) ≡ b
        → not_below_zero (magnitude (rest b)) ≡ some v
        → IsSigned (c ∷ s) v
    by_plus true p h =
        digits-IsSigned Sign.plus s (c ∷ s) v (ap (λ (x : ℕ). x ∷ s) ((==_iff c 43).0 p)) h
    by_plus false p h = digits-IsSigned Sign.unsigned (c ∷ s) (c ∷ s) v refl h

    by_first :
        (b : Bool)
        → (c == 45) ≡ b
        → (if b then below_zero (magnitude s) else not_below_zero (magnitude (rest (c == 43))))
          ≡ some v
        → IsSigned (c ∷ s) v
    by_first true p h =
        digits-IsSigned Sign.minus s (c ∷ s) v (ap (λ (x : ℕ). x ∷ s) ((==_iff c 45).0 p)) h
    by_first false p h = by_plus (c == 43) refl h

strtoll_all-signed :
    (sign : Sign) (d : ℕ) (ds : List ℕ)
    → strtoll_all (sign_text sign ++ digits_text (d ∷ ds))
      ≡ at_end sign (magnitude (digits_text (d ∷ ds)))
unfolding strtoll_all
strtoll_all-signed Sign.minus d ds = refl
strtoll_all-signed Sign.plus d ds = refl
strtoll_all-signed Sign.unsigned d ds =
    let no_minus : (48 + d == 45) ≡ false = ground arith in
    let no_plus : (48 + d == 43) ≡ false = ground arith in rw (no_minus, no_plus) refl

skip_space-split :
    (s : Text)
    → (spaces : Text) × All (λ (c : ℕ). is_space c ≡ true) spaces × (s ≡ spaces ++ skip_space s)
unfolding skip_space
skip_space-split [] = ([], tt, refl)
skip_space-split (c ∷ s) = elim (Bool-cases (is_space c)) [
  | inr other ↦ ([], tt, rw other refl)
  | inl space ↦
      let (spaces, all, e) = skip_space-split s in
      (c ∷ spaces, (space, all), rw space (ap (λ (x : Text). c ∷ x) e))
]

skip_space-append :
    (spaces s : Text)
    → All (λ (c : ℕ). is_space c ≡ true) spaces
    → skip_space (spaces ++ s) ≡ skip_space s
unfolding skip_space
skip_space-append [] s all = refl
skip_space-append (c ∷ spaces) s all = rw all.0 (skip_space-append spaces s all.1)

skip_space-signed :
    (sign : Sign) (d : ℕ) (ds : List ℕ)
    → skip_space (sign_text sign ++ digits_text (d ∷ ds)) ≡ sign_text sign ++ digits_text (d ∷ ds)
unfolding skip_space
skip_space-signed Sign.minus d ds = refl
skip_space-signed Sign.plus d ds = refl
skip_space-signed Sign.unsigned d ds =
    let no_space : is_space (48 + d) ≡ false = ground arith in rw no_space refl

parse_int_arg_skipped : (raw : Text) → parse_int_arg raw ≡ strtoll_all (skip_space raw)
unfolding parse_int_arg strtoll_all skip_space
parse_int_arg_skipped [] = refl
parse_int_arg_skipped (c ∷ s) = refl

-- `parse_int_arg` reads exactly the numerals, each as its value.
pub parse_int_arg-IsNumeral : (raw : Text) (v : ℤ) → parse_int_arg raw ≡ some v → IsNumeral raw v
parse_int_arg-IsNumeral raw v h =
    let (spaces, all, e) = skip_space-split raw in
    let r = strtoll_all-IsSigned (skip_space raw) v (sym (parse_int_arg_skipped raw) ∙ h) in
    record {
      spaces = spaces;
      sign = r.sign;
      first = r.first;
      others = r.others;
      are_spaces = all;
      are_digits = r.are_digits;
      written = e ∙ ap (λ (x : Text). spaces ++ x) r.written;
      value = r.value;
      fits = r.fits;
    }

pub IsNumeral-parse_int_arg : (raw : Text) (v : ℤ) → IsNumeral raw v → parse_int_arg raw ≡ some v
IsNumeral-parse_int_arg raw v n =
    let value : ℕ = decimal_value (n.first ∷ n.others) in
    parse_int_arg_skipped raw
    ∙ ap (λ (x : Text). strtoll_all (skip_space x)) n.written
    ∙ ap strtoll_all (
        skip_space-append n.spaces (sign_text n.sign ++ digits_text (n.first ∷ n.others))
          n.are_spaces
        ∙ skip_space-signed n.sign n.first n.others)
    ∙ strtoll_all-signed n.sign n.first n.others
    ∙ ap (at_end n.sign) (magnitude-digits_text n.first n.others n.are_digits)
    ∙ at_end-some n.sign value (subst IsInt64 n.value n.fits)
    ∙ ap some (sym n.value)
