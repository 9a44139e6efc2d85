-- ===== src/Connection/Drain.antt =====
-- The loop of `drain_read_buffer`: its steps, its fuel, and the rule for what it keeps.
use vigil_low_latency_tcp_he.Prelude.{
  ℕ, zero, suc, ◌≡◌, refl, inl, inr, true, false, none, some, List, [], leb, Bool-cases,
  Option-cases, length, take, drop,
}
use vigil_low_latency_tcp_he.Prelude.Int.{ℤ}
use vigil_low_latency_tcp_he.Heartbeat.{HeartbeatMessage, decode_heartbeat, heartbeat_message_size}
use vigil_low_latency_tcp_he.Config.{Config}
use vigil_low_latency_tcp_he.Connection.Types.{
  Connection, Env, is_failed, handle_protocol_violation,
}
use vigil_low_latency_tcp_he.Connection.Handlers.{handle_message}
use vigil_low_latency_tcp_he.Connection.Events.{drain_loop}

module _ {S : Type 0} (config : Config) (now : ℤ) where
  -- The four ways a round can go.
  module _ (fuel : ℕ) (c : Connection S) (e : Env S) (rest : List ℕ) where
    pub drain_loop_short :
        leb heartbeat_message_size (length rest) ≡ false
        → drain_loop config now fuel c e rest ≡ (record c { read_accum = rest }, e)
    drain_loop_short h = go fuel
      where
        go : (n : ℕ) → drain_loop config now n c e rest ≡ (record c { read_accum = rest }, e)
        go zero = unfold drain_loop in refl
        go (suc n) = unfold drain_loop in rw (h, drain_loop)

    pub drain_loop_corrupt :
        leb heartbeat_message_size (length rest) ≡ true
        → decode_heartbeat (take heartbeat_message_size rest) ≡ none
        → drain_loop config now (suc fuel) c e rest
          ≡ (record (handle_protocol_violation c now) { read_accum = [] }, e)
    unfolding drain_loop
    drain_loop_corrupt h d = rw (h, d, drain_loop)

    module _ (m : HeartbeatMessage) (h : leb heartbeat_message_size (length rest) ≡ true)
        (d : decode_heartbeat (take heartbeat_message_size rest) ≡ some m) where
      pub drain_loop_failed :
          is_failed (handle_message config c e m now).0.state ≡ true
          → drain_loop config now (suc fuel) c e rest ≡ (
            record ((handle_message config c e m now).0) { read_accum = [] },
            (handle_message config c e m now).1,
          )
      unfolding drain_loop
      drain_loop_failed f = rw (h, d, f, drain_loop)

      pub drain_loop_next :
          is_failed (handle_message config c e m now).0.state ≡ false
          → drain_loop config now (suc fuel) c e rest
            ≡ drain_loop config now fuel
                (handle_message config c e m now).0
                (handle_message config c e m now).1
                (drop heartbeat_message_size rest)
      unfolding drain_loop
      drain_loop_next f = rw (h, d, f, drain_loop)

  module _ {κ} (P : Connection S → Env S → Type κ)
      (accum : (c : Connection S) (e : Env S) (r : List ℕ)
        → P c e
        → P (record c { read_accum = r }) e)
      (violated : (c : Connection S) (e : Env S) → P c e → P (handle_protocol_violation c now) e)
      (handled : (c : Connection S) (e : Env S) (m : HeartbeatMessage)
        → P c e
        → P (handle_message config c e m now).0 (handle_message config c e m now).1) where
    -- What the handlers keep, the loop keeps.
    pub drain_loop_rule :
        (fuel : ℕ) (c : Connection S) (e : Env S) (rest : List ℕ)
        → P c e
        → P (drain_loop config now fuel c e rest).0 (drain_loop config now fuel c e rest).1
    drain_loop_rule zero c e rest p = unfold drain_loop in accum c e rest p
    drain_loop_rule (suc fuel) c e rest p =
        elim (Bool-cases (leb heartbeat_message_size (length rest))) [
          | inr short ↦ rw (drain_loop_short (suc fuel) c e rest short) (accum c e rest p)
          | inl full ↦ elim (Option-cases (decode_heartbeat (take heartbeat_message_size rest))) [
            | inl bad ↦
                rw (drain_loop_corrupt fuel c e rest full bad)
                  (accum (handle_protocol_violation c now) e [] (violated c e p))
            | inr (m, good) ↦
                elim (Bool-cases (is_failed (handle_message config c e m now).0.state)) [
                  | inl f ↦
                      rw (drain_loop_failed fuel c e rest m full good f)
                        (accum _ _ [] (handled c e m p))
                  | inr f ↦ rw (drain_loop_next fuel c e rest m full good f) (
                      drain_loop_rule fuel _ _ (drop heartbeat_message_size rest) (handled c e m p))
                ]
          ]
        ]
