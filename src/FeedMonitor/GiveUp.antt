-- ===== src/FeedMonitor/GiveUp.antt =====
-- A failed feed that has no attempt left.
use vigil_low_latency_tcp_he.Prelude.{
  ℕ, zero, suc, ◌+◌, ◌≡◌, refl, sym, ap, ◌∙◌, Bool, true, none, Option, List, [], ◌∷◌, ◌++◌, arith,
  length, some, inr, get_elem?, replicate, get_elem?-set_self, subst, some,
}
use vigil_low_latency_tcp_he.Prelude.Int.{ℤ, pos, ◌≤ℤ◌}
use vigil_low_latency_tcp_he.Prelude.Text.{Text}
use vigil_low_latency_tcp_he.Config.{Config}
use vigil_low_latency_tcp_he.Connection.{ConnectionState}
use vigil_low_latency_tcp_he.FeedMonitor.Types.{FeedMonitor, Slot, World, put_slot}
use vigil_low_latency_tcp_he.FeedMonitor.Failure.{schedule_reconnect, connect_slot}
use vigil_low_latency_tcp_he.FeedMonitor.Reactor.{tick_slot}
use vigil_low_latency_tcp_he.FeedMonitor.Retries.{
  tick_times, IsDue, IsSpaced, IsBounded, tick_slot_created, tick_slot_refused, retried, retried-at,
  retried-IsDue, cleared, created_refused,
}
use vigil_low_latency_tcp_he.FeedMonitor.Directory.{place-lt}

-- The feed's slot is failed and given up, and `rest` are the sockets that nobody has asked for.
pub record IsGivenUp {S : Type 0} (index : ℕ) (rest : List (Option ℕ)) (r : FeedMonitor S × World S)
    : Type 0 where
  pub slot : Slot S
  pub at : get_elem? r.0.slots index ≡ some slot
  pub failed : slot.connection.state ≡ ConnectionState.failed
  pub given_up : slot.give_up ≡ true
  pub untried : r.1.sockets ≡ rest

schedule_exhausted :
    {S : Type 0} (jitter : ℕ → ℤ → ℤ) (config : Config) (slot : Slot S) (now : ℤ) (w : World S)
    → config.max_reconnect_attempts ≡ pos slot.reconnect_attempts
    → schedule_reconnect jitter config slot now w ≡ (record slot { give_up = true }, w)
unfolding schedule_reconnect
schedule_exhausted jitter config slot now w limit = ground (arith, limit)

module _ {S : Type 0} (jitter : ℕ → ℤ → ℤ) (parses : Text → Bool) (index : ℕ) (m : FeedMonitor S)
    (w : World S) (slot : Slot S) (at : get_elem? m.slots index ≡ some slot) where
  tick_slot_given_up :
      (now : ℤ)
      → slot.connection.state ≡ ConnectionState.failed
      → slot.give_up ≡ true
      → tick_slot jitter parses index now m w ≡ (m, w)
  unfolding tick_slot
  tick_slot_given_up now failed given_up = rw (tick_slot, at, failed) (rw given_up refl)

  tick_times_given_up :
      (times : List ℤ)
      → slot.connection.state ≡ ConnectionState.failed
      → slot.give_up ≡ true
      → tick_times jitter parses index times m w ≡ (m, w)
  unfolding tick_times
  tick_times_given_up [] failed given_up = refl
  tick_times_given_up (now ∷ times) failed given_up =
      ap (λ (r : FeedMonitor S × World S). tick_times jitter parses index times r.0 r.1)
        (tick_slot_given_up now failed given_up)
      ∙ tick_times_given_up times failed given_up

  tick_slot_exhausted :
      (now : ℤ) (waits : IsDue slot now) (rest : List (Option ℕ))
      → w.sockets ≡ none ∷ rest
      → m.config.max_reconnect_attempts ≡ pos slot.reconnect_attempts
      → tick_slot jitter parses index now m w ≡ (
        put_slot m index
            (record (cleared jitter parses index now m w slot at waits) { give_up = true }),
        record w { sockets = rest },
      )
  unfolding connect_slot
  tick_slot_exhausted now waits rest sockets limit =
      let w' = record w { sockets = rest } in
      let slot' = cleared jitter parses index now m w slot at waits in
      tick_slot_created jitter parses index now m w slot at waits (none, w')
        (created_refused parses slot.connection.host w rest sockets)
      ∙ ap (λ (r : Slot S × World S). (put_slot m index r.0, r.1))
          (schedule_exhausted jitter m.config slot' now w' limit)

module _ {S : Type 0} (jitter : ℕ → ℤ → ℤ) (parses : Text → Bool) (index : ℕ) (delay : ℤ)
    (config : Config) (bounded : IsBounded jitter delay config) where
  -- A slot waits for a reconnection that is due at `now`. Every factor of the jitter leaves a delay between
  -- 0 and `delay`, and the slot's next `k` ticks are at least `delay` apart. If the limit of attempts is
  -- `k` more than those made, and the next `k + 1` calls of `socket` fail, then the tick behind those `k`
  -- retries gives the feed up: after it and any further ticks the slot is failed and given up, and no
  -- socket but those `k + 1` was asked for.
  pub tick_times-IsGivenUp :
      (k : ℕ) (rest : List (Option ℕ)) (now : ℤ) (times later : List ℤ) (m : FeedMonitor S)
      (w : World S) (slot : Slot S)
      → m.config ≡ config
      → get_elem? m.slots index ≡ some slot
      → IsDue slot now
      → config.max_reconnect_attempts ≡ pos (slot.reconnect_attempts + k)
      → w.sockets ≡ replicate (suc k) none ++ rest
      → length times ≡ k
      → IsSpaced delay now times
      → IsGivenUp index rest (tick_times jitter parses index (now ∷ times ++ later) m w)
  unfolding tick_times
  tick_times-IsGivenUp zero rest now [] later m w slot c at waits limit sockets n spaced =
      let slot' : Slot S = record (cleared jitter parses index now m w slot at waits) {
        give_up = true;
      } in
      let at' : get_elem? (put_slot m index slot').slots index ≡ some slot' =
        unfold put_slot in
        get_elem?-set_self m.slots index slot' (place-lt m.slots index slot at) in
      let w' = record w { sockets = rest } in
      let limit' : m.config.max_reconnect_attempts ≡ pos slot.reconnect_attempts =
        ap (λ (g : Config). g.max_reconnect_attempts) c ∙ (limit ∙ ap pos (omega arith)) in
      subst (λ (r : FeedMonitor S × World S). IsGivenUp index rest r)
        (sym (
          ap (λ (r : FeedMonitor S × World S). tick_times jitter parses index later r.0 r.1)
            (tick_slot_exhausted jitter parses index m w slot at now waits rest sockets limit')
          ∙ tick_times_given_up jitter parses index (put_slot m index slot') w' slot' at' later
              waits.failed refl))
        (record { slot = slot'; at = at'; failed = waits.failed; given_up = refl; untried = refl })
  tick_times-IsGivenUp zero rest now (t ∷ times) later m w slot c at waits limit sockets n spaced =
      absurd (omega arith)
  tick_times-IsGivenUp (suc k) rest now [] later m w slot c at waits limit sockets n spaced =
      absurd (omega arith)
  tick_times-IsGivenUp (suc k) rest now (t ∷ times) later m w slot c at waits limit sockets n
        spaced =
      let more = replicate (suc k) none ++ rest in
      let slot' = retried jitter parses index now m w slot at waits in
      subst
        (λ (r : FeedMonitor S × World S).
          IsGivenUp index rest (tick_times jitter parses index (t ∷ times ++ later) r.0 r.1))
        (sym (
          tick_slot_refused jitter parses index now m w slot at waits more sockets (
            inr (
              subst (λ (z : ℤ). pos (slot.reconnect_attempts + 1) ≤ℤ z)
                (sym (ap (λ (g : Config). g.max_reconnect_attempts) c ∙ limit)) (omega arith)))))
        (tick_times-IsGivenUp k rest t times later (put_slot m index slot')
          (record w { sockets = more; draws = w.draws + 1 }) slot' (unfold put_slot in c)
          (retried-at jitter parses index now m w slot at waits)
          (retried-IsDue jitter parses index now m w slot at waits delay t
            (subst (IsBounded jitter delay) (sym c) bounded) spaced.0)
          (limit ∙ ap pos (omega arith)) refl (omega (arith, n)) spaced.1)
