-- ===== src/CliDisplay/Fields.antt =====
-- Columns stay apart, and the uptime is the time that has passed.
use mathlib.Core.List.{append_assoc}
use vigil_low_latency_tcp_he.Prelude.{
  ℕ, zero, suc, ◌+◌, ◌-◌, ◌*◌, ◌/◌, ◌%◌, ◌<◌, max, ◌≡◌, refl, ap, ◌∙◌, false, inl, inr, [], ◌∷◌,
  ◌++◌, length, replicate, length-append, length-replicate, arith, Bool-cases, ltb, if◌then◌else◌,
}
use vigil_low_latency_tcp_he.Prelude.Int.{
  ℤ, pos, negsuc, pos_part, ◌≤ℤ◌, ◌<ℤ◌, ◌-ℤ◌, leb_ℤ, ltb_ℤ, int_laws,
}
use vigil_low_latency_tcp_he.Prelude.Text.{Text, text}
use vigil_low_latency_tcp_he.CliDisplay.Defs.{
  space, pad_field, div_int64, format_uptime, two_digits,
}

replicate-snoc : (n : ℕ) → replicate n space ++ space ∷ [] ≡ replicate (suc n) space
replicate-snoc zero = refl
replicate-snoc (suc n) = ap (◌∷◌ space) (replicate-snoc n)

-- A field is its value and then spaces, at least one of them, up to one place behind the width of the
-- column: so neighbouring columns never run together, however long a value is.
pub pad_field_lem :
    (value : Text) (width : ℕ)
    → (n : ℕ) × (pad_field value width ≡ value ++ replicate (suc n) space)
      × (length (pad_field value width) ≡ max (length value) width + 1)
unfolding pad_field
pad_field_lem value width = elim (Bool-cases (ltb (length value) width)) [
  | inl short ↦
      let n : ℕ = width - length value in
      (
        n,
        rw short (
            append_assoc value (replicate n space) (space ∷ [])
            ∙ ap (λ s. value ++ s) (replicate-snoc n)),
        rw short (
            ground (
              arith,
              short,
              length-append (value ++ replicate n space) (space ∷ []),
              length-append value (replicate n space),
              length-replicate n space,
            )),
      )
  | inr long ↦ (0, rw long refl, rw long (ground (arith, long, length-append value (space ∷ []))))
]

-- A feed that is connected since a time after 0 shows, at a later time, hours, minutes and seconds: both
-- of the latter are below 60, and together they are the whole seconds that have passed.
pub format_uptime_lem :
    (since now : ℤ)
    → pos 0 <ℤ since
    → since ≤ℤ now
    → (h : ℕ) × (m : ℕ) × (s : ℕ) × (format_uptime since now
        ≡ two_digits h ++ text ":" ++ two_digits m ++ text ":" ++ two_digits s)
      × (m < 60)
      × (s < 60)
      × ((h * 60 + m) * 60 + s ≡ pos_part (now -ℤ since) / 1000000000)
unfolding format_uptime div_int64
format_uptime_lem since now started later =
    let e : ℕ = pos_part (now -ℤ since) / 1000000000 in
    (
      e / 3600,
      e % 3600 / 60,
      e % 60,
      rw (not_before, elapsed) refl,
      omega arith,
      omega arith,
      omega arith,
    )
  where
    not_before : leb_ℤ since (pos 0) ≡ false
    not_before = ground (arith, started)

    whole :
        (d : ℤ)
        → pos 0 ≤ℤ d
        → (if ltb_ℤ (div_int64 d 1000000000) (pos 0) then pos 0 else div_int64 d 1000000000)
          ≡ pos (pos_part d / 1000000000)
    whole (pos n) h = ground arith
    whole (negsuc n) h = absurd (omega (arith, h))

    elapsed :
        (if ltb_ℤ (div_int64 (now -ℤ since) 1000000000) (pos 0)
          then pos 0
          else div_int64 (now -ℤ since) 1000000000)
        ≡ pos (pos_part (now -ℤ since) / 1000000000)
    elapsed = whole (now -ℤ since) (omega (int_laws, later))
