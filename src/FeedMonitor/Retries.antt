-- ===== src/FeedMonitor/Retries.antt =====
-- A failed slot whose retry is due at a tick of the timer.
use vigil_low_latency_tcp_he.Prelude.{
  ℕ, ◌+◌, ◌≡◌, refl, ap, ◌∙◌, ◌⊎◌, inl, inr, Bool, false, Option, none, some, List, [], ◌∷◌, arith,
  get_elem?, get_elem?-set_self, ◌≤◌,
}
use vigil_low_latency_tcp_he.Prelude.Int.{ℤ, pos, negsuc, ◌+ℤ◌, ◌≤ℤ◌, ◌<ℤ◌, int_laws}
use vigil_low_latency_tcp_he.Prelude.Text.{Text}
use vigil_low_latency_tcp_he.Config.{Config}
use vigil_low_latency_tcp_he.Connection.{ConnectionState}
use vigil_low_latency_tcp_he.FeedMonitor.Types.{
  FeedMonitor, Slot, World, put_slot, open_socket, create_and_connect_socket,
}
use vigil_low_latency_tcp_he.FeedMonitor.Failure.{
  reconnect_delay_ns, schedule_reconnect, connect_slot, initiate_connect,
}
use vigil_low_latency_tcp_he.FeedMonitor.Reactor.{tick_slot}
use vigil_low_latency_tcp_he.FeedMonitor.Directory.{place-lt}

-- The ticks at these times, for the slot at `index`.
unfoldable pub tick_times :
    {S : Type 0}
    → (ℕ → ℤ → ℤ)
    → (Text → Bool)
    → ℕ
    → List ℤ
    → FeedMonitor S
    → World S
    → FeedMonitor S × World S
tick_times jitter parses index [] m w = (m, w)
tick_times jitter parses index (now ∷ times) m w =
    let (m', w') = tick_slot jitter parses index now m w in
    tick_times jitter parses index times m' w'

-- A slot that waits for a reconnection which is due at `now`.
pub record IsDue {S : Type 0} (slot : Slot S) (now : ℤ) : Type 0 where
  pub failed : slot.connection.state ≡ ConnectionState.failed
  pub kept_up : slot.give_up ≡ false
  pub scheduled : pos 0 ≤ℤ slot.reconnect_ready_at_ns
  pub due : slot.reconnect_ready_at_ns ≤ℤ now

-- Each time is at least `delay` after the one before.
abbrev pub IsSpaced : ℤ → ℤ → List ℤ → Type 0
IsSpaced delay now [] = Unit
IsSpaced delay now (later ∷ times) = (now +ℤ delay ≤ℤ later) × IsSpaced delay later times

-- `attempts` more attempts are allowed after those made.
abbrev pub IsAllowed : Config → ℕ → Type 0
IsAllowed config attempts =
    (config.max_reconnect_attempts <ℤ pos 0) ⊎ (pos attempts ≤ℤ config.max_reconnect_attempts)

-- Every delay is between 0 and `delay`.
abbrev pub IsBounded : (ℕ → ℤ → ℤ) → ℤ → Config → Type 0
IsBounded jitter delay config =
    (n attempts : ℕ)
    → (pos 0 ≤ℤ reconnect_delay_ns jitter config n attempts)
      × (reconnect_delay_ns jitter config n attempts ≤ℤ delay)

pub IsAllowed-le :
    (config : Config) (fewer more : ℕ)
    → IsAllowed config more
    → fewer ≤ more
    → IsAllowed config fewer
IsAllowed-le config fewer more (inl unlimited) h = inl unlimited
IsAllowed-le config fewer more (inr allowed) h = inr (omega (arith, allowed, h))

-- The retry of a failed attempt is due by the next tick.
retry_due :
    (ready now delay wait later : ℤ)
    → pos 0 ≤ℤ ready
    → ready ≤ℤ now
    → pos 0 ≤ℤ wait
    → wait ≤ℤ delay
    → now +ℤ delay ≤ℤ later
    → (pos 0 ≤ℤ now +ℤ wait) × (now +ℤ wait ≤ℤ later)
retry_due ready now delay wait later a b c d e = (omega int_laws, omega int_laws)

pub schedule_allowed :
    {S : Type 0} (jitter : ℕ → ℤ → ℤ) (config : Config) (slot : Slot S) (now : ℤ) (w : World S)
    → IsAllowed config (slot.reconnect_attempts + 1)
    → schedule_reconnect jitter config slot now w ≡ (
      record slot {
        reconnect_ready_at_ns =
            now +ℤ reconnect_delay_ns jitter config w.draws slot.reconnect_attempts;
        reconnect_attempts = slot.reconnect_attempts + 1;
      },
      record w { draws = w.draws + 1 },
    )
unfolding schedule_reconnect
schedule_allowed jitter config slot now w (inl unlimited) = ground (arith, unlimited)
schedule_allowed jitter config slot now w (inr allowed) = ground (arith, allowed)

pub created_refused :
    {S : Type 0} (parses : Text → Bool) (host : Text) (w : World S) (rest : List (Option ℕ))
    → w.sockets ≡ none ∷ rest
    → create_and_connect_socket parses host w ≡ (none, record w { sockets = rest })
unfolding create_and_connect_socket open_socket
created_refused parses host w rest h =
    ap (λ (sockets : List (Option ℕ)). open_socket parses host sockets w) h

module _ {S : Type 0} (jitter : ℕ → ℤ → ℤ) (parses : Text → Bool) (index : ℕ) (now : ℤ)
    (m : FeedMonitor S) (w : World S) (slot : Slot S) (at : get_elem? m.slots index ≡ some slot)
    (waits : IsDue slot now) where
  tick_slot_due :
      tick_slot jitter parses index now m w ≡ initiate_connect jitter parses index now m w
  unfolding tick_slot
  tick_slot_due =
      rw (tick_slot, at, waits.failed) (ground (arith, waits.kept_up, waits.scheduled, waits.due))

  -- The slot after an attempt that has got no socket.
  abbrev pub retried : Slot S
  retried = record slot {
    reconnect_ready_at_ns =
        now +ℤ reconnect_delay_ns jitter m.config w.draws slot.reconnect_attempts;
    reconnect_attempts = slot.reconnect_attempts + 1;
  }

  abbrev pub cleared : Slot S
  cleared = record slot { reconnect_ready_at_ns = negsuc 0 }

  pub tick_slot_created :
      (created : Option ℕ × World S)
      → create_and_connect_socket parses slot.connection.host w ≡ created
      → tick_slot jitter parses index now m w
        ≡ connect_slot jitter index now cleared created.0 m created.1
  unfolding initiate_connect
  tick_slot_created created h = tick_slot_due ∙ rw (at, initiate_connect) (rw h refl)

  pub tick_slot_refused :
      (rest : List (Option ℕ))
      → w.sockets ≡ none ∷ rest
      → IsAllowed m.config (slot.reconnect_attempts + 1)
      → tick_slot jitter parses index now m w
        ≡ (put_slot m index retried, record w { sockets = rest; draws = w.draws + 1 })
  unfolding connect_slot
  tick_slot_refused rest sockets allowed =
      let w' = record w { sockets = rest } in
      tick_slot_created (none, w') (created_refused parses slot.connection.host w rest sockets)
      ∙ ap (λ (r : Slot S × World S). (put_slot m index r.0, r.1))
          (schedule_allowed jitter m.config cleared now w' allowed)

  -- The retry of a refused attempt is due by a tick that comes at least `delay` later.
  pub retried-IsDue :
      (delay t : ℤ) → IsBounded jitter delay m.config → now +ℤ delay ≤ℤ t → IsDue retried t
  retried-IsDue delay t bounded later =
      let wait = bounded w.draws slot.reconnect_attempts in
      let due =
        retry_due slot.reconnect_ready_at_ns now delay
          (reconnect_delay_ns jitter m.config w.draws slot.reconnect_attempts) t waits.scheduled
          waits.due wait.0 wait.1 later in
      record { failed = waits.failed; kept_up = waits.kept_up; scheduled = due.0; due = due.1 }

  pub retried-at : get_elem? (put_slot m index retried).slots index ≡ some retried
  retried-at =
      unfold put_slot in get_elem?-set_self m.slots index retried (place-lt m.slots index slot at)
