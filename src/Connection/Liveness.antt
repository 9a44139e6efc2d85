-- ===== src/Connection/Liveness.antt =====
-- When a silent peer is declared failed, and when it is not.
use vigil_low_latency_tcp_he.Prelude.{
  ℕ, zero, suc, ◌+◌, ◌*◌, ◌≤◌, ◌<◌, ◌≡◌, refl, ap, ap₂, ◌↔◌, ◌⊎◌, inr, Bool, true, false, List, [],
  ◌∷◌, arith, length, replicate, All,
}
use vigil_low_latency_tcp_he.Prelude.Int.{ℤ, pos, ◌+ℤ◌, ◌-ℤ◌, ◌≤ℤ◌, ◌<ℤ◌, +ℤ_parts, int_laws}
use vigil_low_latency_tcp_he.Config.{Config, to_nanoseconds}
use vigil_low_latency_tcp_he.Connection.Types.{
  Connection, ConnectionState, Role, transition_to, is_failed,
}
use vigil_low_latency_tcp_he.Connection.Timers.{
  check_establishing, check_established, check_timeout,
}

-- No alert but the last.
abbrev pub alerts_once : ℕ → List Bool
alerts_once zero = []
alerts_once (suc zero) = true ∷ []
alerts_once (suc (suc n)) = false ∷ alerts_once (suc n)

All-mono : (P Q : ℤ → Type 0) (xs : List ℤ) → ((x : ℤ) → P x → Q x) → All P xs → All Q xs
All-mono P Q [] f h = tt
All-mono P Q (x ∷ xs) f h = (f x h.0, All-mono P Q xs f h.1)

module _ {S : Type 0} where
  -- An established connection.
  abbrev pub IsLive : Connection S → Type 0
  IsLive c = (c.state ≡ ConnectionState.healthy) ⊎ (c.state ≡ ConnectionState.degraded)

  -- `check_timeout` returns true exactly when the connection was not failed before and is failed after it.
  pub check_timeout_alert :
      (config : Config) (c : Connection S) (now : ℤ)
      → ((check_timeout config c now).1 ≡ true) ↔ (
          ((check_timeout config c now).0.state ≡ ConnectionState.failed)
          × (is_failed c.state ≡ false))
  unfolding check_timeout check_establishing check_established transition_to
  check_timeout_alert config c now = ground arith

  -- Checks at the times of a list, one after the other: the answers, and the connection after them.
  pub checks : Config → List ℤ → Connection S → List Bool × Connection S
  checks config [] c = ([], c)
  checks config (now ∷ times) c =
      let r = check_timeout config c now in
      let rest = checks config times (r.0) in (r.1 ∷ rest.0, rest.1)

  -- Within its time an established connection is left as it is.
  check_timeout_in_time :
      (config : Config) (c : Connection S) (now : ℤ) (t : ℕ)
      → to_nanoseconds config.heartbeat_timeout ≡ pos t
      → IsLive c
      → now <ℤ c.last_liveness_ns +ℤ pos t
      → check_timeout config c now ≡ (c, false)
  unfolding check_timeout check_established ◌-ℤ◌ ◌+ℤ◌
  check_timeout_in_time config c now t e live early = ground arith

  -- One check behind the time counts one miss, and moves the window on by one timeout.
  module _ (config : Config) (c : Connection S) (now : ℤ) (t m limit : ℕ)
      (timeout : to_nanoseconds config.heartbeat_timeout ≡ pos t)
      (limited : config.max_missed_heartbeats ≡ pos limit) (role : c.role ≡ Role.initiator)
      (live : IsLive c) (missed : c.consecutive_missed ≡ pos m)
      (late : c.last_liveness_ns +ℤ pos t ≤ℤ now) where
    miss_last :
        limit ≤ suc m
        → ((check_timeout config c now).1 ≡ true)
          × ((check_timeout config c now).0.state ≡ ConnectionState.failed)
    unfolding check_timeout check_established transition_to ◌-ℤ◌ ◌+ℤ◌
    miss_last h = ground arith

    miss_more :
        suc m < limit
        → let (d, alert) = check_timeout config c now in
          (alert ≡ false)
          × (d.state ≡ ConnectionState.degraded)
          × (d.role ≡ Role.initiator)
          × (d.consecutive_missed ≡ pos (suc m))
          × (d.last_liveness_ns ≡ c.last_liveness_ns +ℤ pos t)
    unfolding check_timeout check_established transition_to ◌-ℤ◌ ◌+ℤ◌
    miss_more h = ground arith

  silence_from :
      (config : Config) (t limit : ℕ)
      → to_nanoseconds config.heartbeat_timeout ≡ pos t
      → config.max_missed_heartbeats ≡ pos limit
      → (times : List ℤ) (c : Connection S) (m : ℕ) → c.role ≡ Role.initiator
      → IsLive c
      → c.consecutive_missed ≡ pos m
      → m < limit
      → length times + m ≡ limit
      → All (λ now. c.last_liveness_ns +ℤ pos (length times * t) ≤ℤ now) times
      → ((checks config times c).0 ≡ alerts_once (length times))
        × ((checks config times c).1.state ≡ ConnectionState.failed)
  unfolding checks
  silence_from config t limit et em [] c m role live missed lt len h = absurd (omega arith)
  silence_from config t limit et em (now ∷ []) c m role live missed lt len h =
      let last =
        miss_last config c now t m limit et em role live missed (omega (arith, +ℤ_parts, h.0))
          (omega arith) in
      (ap (λ b. b ∷ []) last.0, last.1)
  silence_from config t limit et em (now ∷ later ∷ times) c m role live missed lt len h =
      let one =
        miss_more config c now t m limit et em role live missed (omega (int_laws, h.0))
          (omega arith) in
      let d = (check_timeout config c now).0 in
      let shift : (xs : List ℤ)
          → All (λ now. c.last_liveness_ns +ℤ pos (length (now ∷ later ∷ times) * t) ≤ℤ now) xs
          → All (λ now. d.last_liveness_ns +ℤ pos (length (later ∷ times) * t) ≤ℤ now) xs =
        λ xs. All-mono _ _ xs (λ x p. rw one.4 (omega (int_laws, p))) in
      let rest =
        silence_from config t limit et em (later ∷ times) d (suc m) one.2 (inr one.1) one.3
          (omega arith) (omega arith) (shift (later ∷ times) h.1) in
      (ap₂ ◌∷◌ one.0 rest.0, rest.1)

  -- Take an established initiator with no misses counted and a limit of `limit` > 0 misses. If
  -- `check_timeout` runs `limit` times, always at least `limit` timeouts behind the last sign of life, it
  -- returns true at the last run and at no other, and the connection is failed.
  pub checks_of_silence :
      (config : Config) (t limit : ℕ) (times : List ℤ) (c : Connection S)
      → to_nanoseconds config.heartbeat_timeout ≡ pos t
      → config.max_missed_heartbeats ≡ pos limit
      → 0 < limit
      → c.role ≡ Role.initiator
      → IsLive c
      → c.consecutive_missed ≡ pos 0
      → length times ≡ limit
      → All (λ now. c.last_liveness_ns +ℤ pos (limit * t) ≤ℤ now) times
      → ((checks config times c).0 ≡ alerts_once limit)
        × ((checks config times c).1.state ≡ ConnectionState.failed)
  checks_of_silence config t limit times c et em pos_limit role live missed len h = rw (← len) (
      silence_from config t limit et em times c 0 role live missed pos_limit (omega (arith, len))
        (rw len h))

  -- On an established connection, any runs of `check_timeout` less than one timeout behind the last sign
  -- of life all return false and change nothing.
  pub checks_in_time :
      (config : Config) (t : ℕ) (times : List ℤ) (c : Connection S)
      → to_nanoseconds config.heartbeat_timeout ≡ pos t
      → IsLive c
      → All (λ now. now <ℤ c.last_liveness_ns +ℤ pos t) times
      → ((checks config times c).0 ≡ replicate (length times) false)
        × ((checks config times c).1 ≡ c)
  unfolding checks
  checks_in_time config t [] c et live h = (refl, refl)
  checks_in_time config t (now ∷ times) c et live h =
      let rest = checks_in_time config t times c et live h.1 in
      rw (check_timeout_in_time config c now t et live h.0) (ap (◌∷◌ false) rest.0, rest.1)
