-- ===== src/Connection/Rounds.antt =====
-- The rounds of `drain_read_buffer`: what they depend on, and how many are enough.
use vigil_low_latency_tcp_he.Prelude.{
  ℕ, zero, suc, ◌≤◌, ◌≡◌, refl, sym, ap, ◌∙◌, true, false, inl, inr, none, some, List, [], ◌∷◌,
  ◌++◌, arith, length, length-drop, take, drop, leb, Bool-cases, Option-cases, length-drop,
}
use vigil_low_latency_tcp_he.Prelude.Int.{ℤ}
use vigil_low_latency_tcp_he.Heartbeat.{HeartbeatMessage, decode_heartbeat, heartbeat_message_size}
use vigil_low_latency_tcp_he.Config.{Config}
use vigil_low_latency_tcp_he.Connection.Types.{
  Connection, Env, is_failed, handle_protocol_violation,
}
use vigil_low_latency_tcp_he.Connection.Handlers.{handle_message}
use vigil_low_latency_tcp_he.Connection.Events.{drain_loop}
use vigil_low_latency_tcp_he.Connection.Drain.{
  drain_loop_short, drain_loop_corrupt, drain_loop_failed, drain_loop_next,
}
use vigil_low_latency_tcp_he.Connection.Accum.{handle_message-accum}

module _ {A : Type 0} where
  pub take-append_le : (n : ℕ) (xs ys : List A) → n ≤ length xs → take n (xs ++ ys) ≡ take n xs
  take-append_le zero xs ys h = refl
  take-append_le (suc n) [] ys h = absurd (omega arith)
  take-append_le (suc n) (x ∷ xs) ys h = ap (◌∷◌ x) (take-append_le n xs ys (omega arith))

  pub drop-append_le :
      (n : ℕ) (xs ys : List A) → n ≤ length xs → drop n (xs ++ ys) ≡ drop n xs ++ ys
  drop-append_le zero xs ys h = refl
  drop-append_le (suc n) [] ys h = absurd (omega arith)
  drop-append_le (suc n) (x ∷ xs) ys h = drop-append_le n xs ys (omega arith)

module _ {S : Type 0} (config : Config) (now : ℤ) where
  -- How the round that starts from `rest` goes.
  pub data Round (c : Connection S) (e : Env S) (rest : List ℕ) : Type 0 where
    short : leb heartbeat_message_size (length rest) ≡ false → Round c e rest
    corrupt :
        leb heartbeat_message_size (length rest) ≡ true
        → decode_heartbeat (take heartbeat_message_size rest) ≡ none
        → Round c e rest
    fails :
        (m : HeartbeatMessage)
        → leb heartbeat_message_size (length rest) ≡ true
        → decode_heartbeat (take heartbeat_message_size rest) ≡ some m
        → is_failed (handle_message config c e m now).0.state ≡ true
        → Round c e rest
    goes_on :
        (m : HeartbeatMessage)
        → leb heartbeat_message_size (length rest) ≡ true
        → decode_heartbeat (take heartbeat_message_size rest) ≡ some m
        → is_failed (handle_message config c e m now).0.state ≡ false
        → Round c e rest

  pub Round-cases : (c : Connection S) (e : Env S) (rest : List ℕ) → Round c e rest
  Round-cases c e rest = elim (Bool-cases (leb heartbeat_message_size (length rest))) [
    | inr little ↦ short little
    | inl full ↦ elim (Option-cases (decode_heartbeat (take heartbeat_message_size rest))) [
      | inl bad ↦ corrupt full bad
      | inr (m, good) ↦ elim (Bool-cases (is_failed (handle_message config c e m now).0.state)) [
        | inl f ↦ fails m full good f
        | inr f ↦ goes_on m full good f
      ]
    ]
  ]

  violated_accum :
      (c : Connection S) (xs : List ℕ)
      → record (handle_protocol_violation (record c { read_accum = xs }) now) { read_accum = [] }
        ≡ record (handle_protocol_violation c now) { read_accum = [] }
  unfolding handle_protocol_violation
  violated_accum c xs = refl

  -- What is buffered does not matter: the rounds start from `rest`.
  pub drain_loop-accum :
      (fuel : ℕ) (c : Connection S) (e : Env S) (xs rest : List ℕ)
      → drain_loop config now fuel (record c { read_accum = xs }) e rest
        ≡ drain_loop config now fuel c e rest
  unfolding drain_loop
  drain_loop-accum zero c e xs rest = refl
  drain_loop-accum (suc fuel) c e xs rest = by_round (Round-cases c e rest) (drain_loop-accum fuel)
    where
      d : Connection S
      d = record c { read_accum = xs }

      by_round :
          Round c e rest
          → ((c : Connection S) (e : Env S) (xs rest : List ℕ)
              → drain_loop config now fuel (record c { read_accum = xs }) e rest
                ≡ drain_loop config now fuel c e rest)
          → drain_loop config now (suc fuel) d e rest ≡ drain_loop config now (suc fuel) c e rest
      by_round (short little) later =
          drain_loop_short config now (suc fuel) d e rest little
          ∙ sym (drain_loop_short config now (suc fuel) c e rest little)
      by_round (corrupt full bad) later =
          drain_loop_corrupt config now fuel d e rest full bad
          ∙ ap (λ (v : Connection S). (v, e)) (violated_accum c xs)
          ∙ sym (drain_loop_corrupt config now fuel c e rest full bad)
      by_round (fails m full good f) later =
          let same = handle_message-accum config c e m now xs in
          drain_loop_failed config now fuel d e rest m full good (rw same f)
          ∙ rw same (sym (drain_loop_failed config now fuel c e rest m full good f))
      by_round (goes_on m full good f) later =
          let same = handle_message-accum config c e m now xs in
          let r = handle_message config c e m now in
          drain_loop_next config now fuel d e rest m full good (rw same f)
          ∙ rw same (later (r.0) (r.1) xs (drop heartbeat_message_size rest))
          ∙ sym (drain_loop_next config now fuel c e rest m full good f)

  -- One unit of fuel for each byte is enough: more makes no difference.
  pub drain_loop-fuel :
      (n k : ℕ) (c : Connection S) (e : Env S) (rest : List ℕ)
      → length rest ≤ n
      → length rest ≤ k
      → drain_loop config now n c e rest ≡ drain_loop config now k c e rest
  drain_loop-fuel zero k c e rest hn hk =
      let little : leb heartbeat_message_size (length rest) ≡ false = ground (arith, hn) in
      drain_loop_short config now zero c e rest little
      ∙ sym (drain_loop_short config now k c e rest little)
  drain_loop-fuel (suc n) zero c e rest hn hk =
      let little : leb heartbeat_message_size (length rest) ≡ false = ground (arith, hk) in
      drain_loop_short config now (suc n) c e rest little
      ∙ sym (drain_loop_short config now zero c e rest little)
  drain_loop-fuel (suc n) (suc k) c e rest hn hk =
      by_round (Round-cases c e rest) (drain_loop-fuel n k)
    where
      shorter :
          (j : ℕ)
          → length rest ≤ suc j
          → leb heartbeat_message_size (length rest) ≡ true
          → length (drop heartbeat_message_size rest) ≤ j
      shorter j h full = ground (arith, h, full, length-drop heartbeat_message_size rest)

      by_round :
          Round c e rest
          → ((c : Connection S) (e : Env S) (rest : List ℕ)
              → length rest ≤ n
              → length rest ≤ k
              → drain_loop config now n c e rest ≡ drain_loop config now k c e rest)
          → drain_loop config now (suc n) c e rest ≡ drain_loop config now (suc k) c e rest
      by_round (short little) later =
          drain_loop_short config now (suc n) c e rest little
          ∙ sym (drain_loop_short config now (suc k) c e rest little)
      by_round (corrupt full bad) later =
          drain_loop_corrupt config now n c e rest full bad
          ∙ sym (drain_loop_corrupt config now k c e rest full bad)
      by_round (fails m full good f) later =
          drain_loop_failed config now n c e rest m full good f
          ∙ sym (drain_loop_failed config now k c e rest m full good f)
      by_round (goes_on m full good f) later =
          let r = handle_message config c e m now in
          drain_loop_next config now n c e rest m full good f
          ∙ later (r.0) (r.1) (drop heartbeat_message_size rest) (shorter n hn full)
              (shorter k hk full)
          ∙ sym (drain_loop_next config now k c e rest m full good f)
