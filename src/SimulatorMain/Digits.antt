-- ===== src/SimulatorMain/Digits.antt =====
-- Decimal digits and what `magnitude` reads of them.
use mathlib.Core.Option.{some_inj}
use native.Mathlib.Nat.{pow-suc}
use vigil_low_latency_tcp_he.Prelude.{
  ℕ, ◌+◌, ◌-◌, ◌*◌, ◌^◌, ◌<◌, ◌≡◌, refl, sym, ap, ap₂, ◌∙◌, Bool, true, ◌&&◌, inl, inr, Option,
  none, some, List, [], ◌∷◌, map, length, leb, if◌then◌else◌, All, arith, Bool-cases,
}
use vigil_low_latency_tcp_he.Prelude.Text.{Text}
use vigil_low_latency_tcp_he.Config.{magnitude, digits_from}

-- The digits of a decimal number stand for their value times a power of ten.
abbrev pub decimal_value : List ℕ → ℕ
decimal_value [] = 0
decimal_value (d ∷ ds) = d * 10 ^ length ds + decimal_value ds

abbrev pub digits_text : List ℕ → Text
digits_text ds = map (λ (d : ℕ). 48 + d) ds

shifted : (v d p x : ℕ) → (v * 10 + d) * p + x ≡ v * (p * 10) + (d * p + x)
shifted v d p x = omega arith

digits_from-digits_text :
    (value : ℕ) (ds : List ℕ)
    → All (λ (d : ℕ). d < 10) ds
    → digits_from value (digits_text ds) ≡ some (value * 10 ^ length ds + decimal_value ds)
unfolding digits_from
digits_from-digits_text value [] all = ap some (omega arith)
digits_from-digits_text value (d ∷ ds) all =
    let is_digit : (leb 48 (48 + d) && leb (48 + d) 57) ≡ true = ground (arith, all.0) in
    let back : 48 + d - 48 ≡ d = omega arith in
    rw (is_digit, back)
      (digits_from-digits_text (value * 10 + d) ds all.1
        ∙ ap some (
            shifted value d (10 ^ length ds) (decimal_value ds)
            ∙ ap (λ (p : ℕ). value * p + (d * 10 ^ length ds + decimal_value ds))
                (sym (pow-suc 10 (length ds)))))

-- What was read as digits are digits.
record AreDigits (value : ℕ) (s : Text) (n : ℕ) : Type 0 where
  digits : List ℕ
  all : All (λ (d : ℕ). d < 10) digits
  spelled : s ≡ digits_text digits
  total : n ≡ value * 10 ^ length digits + decimal_value digits

digits_from-AreDigits :
    (value : ℕ) (s : Text) (n : ℕ) → digits_from value s ≡ some n → AreDigits value s n
unfolding digits_from
digits_from-AreDigits value [] n h = record {
  digits = [];
  all = tt;
  spelled = refl;
  total = omega (arith, some_inj.0 h);
}
digits_from-AreDigits value (c ∷ s) n h = elim (Bool-cases (leb 48 c && leb c 57)) [
  | inr no_digit ↦ let e : ◌≡◌ {A = Option ℕ} none (some n) = sym (ap choose no_digit) ∙ h in cc
  | inl digit ↦
      let r = digits_from-AreDigits (value * 10 + (c - 48)) s n (sym (ap choose digit) ∙ h) in
      record {
        digits = (c - 48) ∷ r.digits;
        all = (ground (arith, digit), r.all);
        spelled = ap₂ (λ (x : ℕ) (t : Text). x ∷ t) (ground (arith, digit)) r.spelled;
        total =
            r.total
            ∙ shifted value (c - 48) (10 ^ length r.digits) (decimal_value r.digits)
            ∙ ap (λ (p : ℕ). value * p + ((c - 48) * 10 ^ length r.digits + decimal_value r.digits))
                (sym (pow-suc 10 (length r.digits)));
      }
]
  where
    choose : Bool → Option ℕ
    choose b = if b then digits_from (value * 10 + (c - 48)) s else none

-- A text of digits, at least one.
pub record IsMagnitude (s : Text) (n : ℕ) : Type 0 where
  pub first : ℕ
  pub others : List ℕ
  pub all : All (λ (d : ℕ). d < 10) (first ∷ others)
  pub spelled : s ≡ digits_text (first ∷ others)
  pub total : n ≡ decimal_value (first ∷ others)

pub magnitude-IsMagnitude : (s : Text) (n : ℕ) → magnitude s ≡ some n → IsMagnitude s n
unfolding magnitude
magnitude-IsMagnitude [] n h = cc
magnitude-IsMagnitude (c ∷ s) n h =
    let r = digits_from-AreDigits 0 (c ∷ s) n h in nonempty r.digits r.all r.spelled r.total
  where
    nonempty :
        (ds : List ℕ)
        → All (λ (d : ℕ). d < 10) ds
        → c ∷ s ≡ digits_text ds
        → n ≡ 0 * 10 ^ length ds + decimal_value ds
        → IsMagnitude (c ∷ s) n
    nonempty [] all spelled total = cc
    nonempty (d ∷ ds) all spelled total = record {
      first = d;
      others = ds;
      all = all;
      spelled = spelled;
      total = total ∙ omega arith;
    }

pub magnitude-digits_text :
    (d : ℕ) (ds : List ℕ)
    → All (λ (d : ℕ). d < 10) (d ∷ ds)
    → magnitude (digits_text (d ∷ ds)) ≡ some (decimal_value (d ∷ ds))
unfolding magnitude
magnitude-digits_text d ds all = digits_from-digits_text 0 (d ∷ ds) all ∙ ap some (omega arith)
