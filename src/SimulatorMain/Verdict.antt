-- ===== src/SimulatorMain/Verdict.antt =====
-- When the simulator's options let it start.
use native.Mathlib.Nat.{mod-lt}
use vigil_low_latency_tcp_he.Prelude.{
  sym, subst, ◌≢◌, All, if◌then◌else◌, ℕ, ◌^◌, ◌<◌, ◌≡◌, refl, ◌∙◌, Bool, true, false, inl, inr,
  Option, none, some, List, [], ◌∷◌, arith, Option-cases,
}
use vigil_low_latency_tcp_he.Prelude.Int.{ℤ, pos, negsuc}
use vigil_low_latency_tcp_he.Prelude.Double.{Double}
use vigil_low_latency_tcp_he.Prelude.Text.{Text}
use vigil_low_latency_tcp_he.SimulatorMain.Numerals.{
  IsNumeral, parse_int_arg-IsNumeral, IsNumeral-parse_int_arg,
}
use vigil_low_latency_tcp_he.SimulatorMain.Options.{
  SimulatorOption, Settings, Parsed, proceed, exit, parse_int_arg, parse_double_arg, to_unsigned,
  apply_option, parse_options, initial_settings,
}

-- The argument of the option is what it takes, and the option is neither `--help` nor unknown.
abbrev pub IsAccepted : (Text → Option Double) → SimulatorOption → Type 0
IsAccepted strtod (SimulatorOption.port raw) = (v : ℤ) × IsNumeral raw v
IsAccepted strtod (SimulatorOption.feed_id raw) = (v : ℤ) × IsNumeral raw v
IsAccepted strtod (SimulatorOption.tcp_nodelay raw) = Unit
IsAccepted strtod (SimulatorOption.edge_triggered raw) = Unit
IsAccepted strtod (SimulatorOption.drop_rate raw) =
    (raw ≢ []) × (rate : Double) × (strtod raw ≡ some rate)
IsAccepted strtod (SimulatorOption.extra_latency_ms raw) = (v : ℤ) × IsNumeral raw v
IsAccepted strtod (SimulatorOption.jitter raw) = Unit
IsAccepted strtod SimulatorOption.help = ⊥
IsAccepted strtod SimulatorOption.unrecognized = ⊥

-- The text of the last `--port`.
abbrev pub next_port : Option Text → SimulatorOption → Option Text
next_port was (SimulatorOption.port raw) = some raw
next_port was option = was

abbrev pub last_port : Option Text → List SimulatorOption → Option Text
last_port was [] = was
last_port was (option ∷ options) = last_port (next_port was option) options

-- The settings fit the types of the source.
abbrev pub IsFitting : Settings → Type 0
IsFitting o = (o.port < 2 ^ 16) × (o.feed_id < 2 ^ 32)

-- The port is the low 16 bits of the number that the text is.
abbrev pub IsPort : Text → Settings → Type 0
IsPort raw o = (v : ℤ) × IsNumeral raw v × (o.port ≡ to_unsigned 16 v)

to_unsigned-lt : (w : ℕ) (z : ℤ) → 0 < 2 ^ w → to_unsigned w z < 2 ^ w
unfolding to_unsigned
to_unsigned-lt w (pos n) h = mod-lt n h
to_unsigned-lt w (negsuc n) h = omega (arith, h)

-- What the settings say of the last port.
abbrev IsKept : Option Text → Settings → Type 0
IsKept none o = o.port_set ≡ false
IsKept (some raw) o = (o.port_set ≡ true) × IsPort raw o

-- What one round leaves.
IsRound : (Text → Option Double) → SimulatorOption → Settings → Parsed → Type 0
IsRound strtod option o (exit status) = ¬ IsAccepted strtod option
IsRound strtod option o (proceed o') =
    IsAccepted strtod option
    × ((was : Option Text) → IsKept was o → IsKept (next_port was option) o')
    × (IsFitting o → IsFitting o')

number_refused : (raw : Text) → parse_int_arg raw ≡ none → ¬ ((v : ℤ) × IsNumeral raw v)
number_refused raw bad (v, n) =
    let e : ◌≡◌ {A = Option ℤ} none (some v) = sym bad ∙ IsNumeral-parse_int_arg raw v n in cc

rate_refused :
    (strtod : Text → Option Double) (raw : Text)
    → parse_double_arg strtod raw ≡ none
    → ¬ ((raw ≢ []) × (rate : Double) × (strtod raw ≡ some rate))
unfolding parse_double_arg
rate_refused strtod [] bad (nonempty, rate, taken) = absurd (nonempty refl)
rate_refused strtod (c ∷ s) bad (nonempty, rate, taken) =
    let e : ◌≡◌ {A = Option Double} none (some rate) = sym bad ∙ taken in cc

rate_taken :
    (strtod : Text → Option Double) (raw : Text) (rate : Double)
    → parse_double_arg strtod raw ≡ some rate
    → (raw ≢ []) × (rate : Double) × (strtod raw ≡ some rate)
unfolding parse_double_arg
rate_taken strtod [] rate good = cc
rate_taken strtod (c ∷ s) rate good = ((λ e. cc), rate, good)

-- The fields that say which port was given are as they were.
kept :
    (o o' : Settings)
    → o'.port ≡ o.port
    → o'.port_set ≡ o.port_set
    → (was : Option Text) → IsKept was o
    → IsKept was o'
kept o o' p g none h = g ∙ h
kept o o' p g (some raw) (h, (v, n, e)) = (g ∙ h, (v, n, p ∙ e))

apply_option-IsRound :
    (strtod : Text → Option Double) (option : SimulatorOption) (o : Settings)
    → IsRound strtod option o (apply_option strtod option o)
unfolding apply_option IsRound
apply_option-IsRound strtod (SimulatorOption.port raw) o = elim (Option-cases (parse_int_arg raw)) [
  | inl bad ↦ rw (apply_option, bad) (number_refused raw bad)
  | inr (v, good) ↦
      let n = parse_int_arg-IsNumeral raw v good in
      rw (apply_option, good)
        ((v, n), (λ was h. (refl, (v, n, refl))), λ h. (to_unsigned-lt 16 v (omega arith), h.1))
]
apply_option-IsRound strtod (SimulatorOption.feed_id raw) o =
    elim (Option-cases (parse_int_arg raw)) [
      | inl bad ↦ rw (apply_option, bad) (number_refused raw bad)
      | inr (v, good) ↦
          rw (apply_option, good)
            (
              (v, parse_int_arg-IsNumeral raw v good),
              kept o _ refl refl,
              λ h. (h.0, to_unsigned-lt 32 v (omega arith)),
            )
    ]
apply_option-IsRound strtod (SimulatorOption.tcp_nodelay raw) o = (tt, kept o _ refl refl, λ h. h)
apply_option-IsRound strtod (SimulatorOption.edge_triggered raw) o =
    (tt, kept o _ refl refl, λ h. h)
apply_option-IsRound strtod (SimulatorOption.drop_rate raw) o =
    elim (Option-cases (parse_double_arg strtod raw)) [
      | inl bad ↦ rw (apply_option, bad) (rate_refused strtod raw bad)
      | inr (v, good) ↦
          rw (apply_option, good) (rate_taken strtod raw v good, kept o _ refl refl, λ h. h)
    ]
apply_option-IsRound strtod (SimulatorOption.extra_latency_ms raw) o =
    elim (Option-cases (parse_int_arg raw)) [
      | inl bad ↦ rw (apply_option, bad) (number_refused raw bad)
      | inr (v, good) ↦
          rw (apply_option, good)
            ((v, parse_int_arg-IsNumeral raw v good), kept o _ refl refl, λ h. h)
    ]
apply_option-IsRound strtod (SimulatorOption.jitter raw) o = (tt, kept o _ refl refl, λ h. h)
apply_option-IsRound strtod SimulatorOption.help o = λ h. h
apply_option-IsRound strtod SimulatorOption.unrecognized o = λ h. h

-- The verdict on options behind which the last port is `last`.
pub IsVerdict : (Text → Option Double) → Option Text → List SimulatorOption → Parsed → Type 0
IsVerdict strtod last options (proceed o) =
    All (IsAccepted strtod) options
    × ((raw : Text) × (last ≡ some raw) × IsPort raw o)
    × IsFitting o
IsVerdict strtod last options (exit status) =
    ¬ (All (IsAccepted strtod) options × (raw : Text) × (last ≡ some raw))

at_end :
    (strtod : Text → Option Double) (was : Option Text) (o : Settings)
    → IsFitting o
    → IsKept was o
    → IsVerdict strtod was [] (if o.port_set then proceed o else exit 1)
unfolding IsVerdict
at_end strtod none o h k =
    subst (λ (b : Bool). IsVerdict strtod none [] (if b then proceed o else exit 1)) (sym k)
      (λ p. let e : ◌≡◌ {A = Option Text} none (some (p.1)) = p.2 in cc)
at_end strtod (some raw) o h k =
    subst (λ (b : Bool). IsVerdict strtod (some raw) [] (if b then proceed o else exit 1)) (sym k.0)
      (tt, (raw, refl, k.1), h)

parse_options_from :
    (strtod : Text → Option Double) (options : List SimulatorOption) (was : Option Text)
    (o : Settings)
    → IsFitting o
    → IsKept was o
    → IsVerdict strtod (last_port was options) options (parse_options strtod options o)
unfolding parse_options IsVerdict IsRound
parse_options_from strtod [] was o h k = at_end strtod was o h k
parse_options_from strtod (option ∷ options) was o h k =
    round (parse_options_from strtod options (next_port was option)) (apply_option strtod option o)
      (apply_option-IsRound strtod option o)
  where
    last : Option Text
    last = last_port was (option ∷ options)

    go_on : Parsed → Parsed
    go_on (exit status) = exit status
    go_on (proceed o') = parse_options strtod options o'

    with_first :
        (p : Parsed)
        → IsAccepted strtod option
        → IsVerdict strtod last options p
        → IsVerdict strtod last (option ∷ options) p
    with_first (exit status) ok v = λ q. v (q.0.1, q.1, q.2)
    with_first (proceed o') ok v = ((ok, v.0), v.1, v.2)

    round :
        ((o' : Settings)
          → IsFitting o'
          → IsKept (next_port was option) o'
          → IsVerdict strtod last options (parse_options strtod options o'))
        → (p : Parsed) → IsRound strtod option o p
        → IsVerdict strtod last (option ∷ options) (go_on p)
    round later (exit status) bad = λ q. bad q.0.0
    round later (proceed o') (ok, keeps, fits) =
        with_first (parse_options strtod options o') ok (later o' (fits h) (keeps was k))

-- `main` goes on exactly if `--port` is given, no option is `--help` or unknown, and each number is one:
-- a decimal integer written out in full, behind spaces and a sign if any, which fits a long long, or a
-- text that is not empty and that `strtod` takes. Where it goes on, the port is the low 16 bits of the
-- number that the last `--port` names, and the feed id is below 2 ^ 32.
pub parse_options_lem :
    (strtod : Text → Option Double) (options : List SimulatorOption)
    → IsVerdict strtod
        (last_port none options)
        options
        (parse_options strtod options initial_settings)
parse_options_lem strtod options =
    parse_options_from strtod options none initial_settings (omega arith, omega arith) refl
