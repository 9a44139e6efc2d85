-- ===== src/FeedMonitor/Reconnect.antt =====
-- A failed feed comes back by the ticks of the timer.
use vigil_low_latency_tcp_he.Prelude.{
  ℕ, zero, suc, ◌+◌, ◌≡◌, refl, sym, ap, ◌∙◌, Bool, true, Option, none, some, List, [], ◌∷◌, ◌++◌,
  arith, length, get_elem?, replicate, get_elem?-set_self, subst,
}
use vigil_low_latency_tcp_he.Prelude.Int.{ℤ, negsuc}
use vigil_low_latency_tcp_he.Prelude.Text.{Text}
use vigil_low_latency_tcp_he.Config.{Config}
use vigil_low_latency_tcp_he.Connection.{ConnectionState, Role, rebind, transition_to}
use vigil_low_latency_tcp_he.FeedMonitor.Types.{
  FeedMonitor, Slot, World, map_put, put_slot, open_socket, create_and_connect_socket,
}
use vigil_low_latency_tcp_he.FeedMonitor.Failure.{connect_slot}
use vigil_low_latency_tcp_he.FeedMonitor.Reactor.{tick_slot}
use vigil_low_latency_tcp_he.FeedMonitor.Retries.{
  tick_times, IsDue, IsSpaced, IsAllowed, IsAllowed-le, IsBounded, tick_slot_created,
  tick_slot_refused, retried, retried-at, retried-IsDue,
}
use vigil_low_latency_tcp_he.FeedMonitor.Directory.{place-lt}

-- The feed's slot is connecting with this descriptor, and events of the descriptor find it.
pub record IsReconnecting {S : Type 0} (fd index : ℕ) (m : FeedMonitor S) : Type 0 where
  pub slot : Slot S
  pub at : get_elem? m.slots index ≡ some slot
  pub connecting : slot.connection.state ≡ ConnectionState.connecting
  pub bound : slot.connection.fd ≡ some fd
  pub indexed : m.index_of_fd fd ≡ some index

created_opened :
    {S : Type 0} (parses : Text → Bool) (host : Text) (w : World S) (fd : ℕ)
    (rest : List (Option ℕ))
    → w.sockets ≡ some fd ∷ rest
    → parses host ≡ true
    → create_and_connect_socket parses host w ≡ (some fd, record w { sockets = rest })
unfolding create_and_connect_socket open_socket
created_opened parses host w fd rest h good =
    ap (λ (sockets : List (Option ℕ)). open_socket parses host sockets w) h ∙ rw good refl

module _ {S : Type 0} (jitter : ℕ → ℤ → ℤ) (parses : Text → Bool) (index : ℕ) (now : ℤ)
    (m : FeedMonitor S) (w : World S) (slot : Slot S) (at : get_elem? m.slots index ≡ some slot)
    (waits : IsDue slot now) where
  tick_slot_opened :
      (fd : ℕ) (rest : List (Option ℕ))
      → w.sockets ≡ some fd ∷ rest
      → parses slot.connection.host ≡ true
      → slot.connection.role ≡ Role.initiator
      → IsReconnecting fd index (tick_slot jitter parses index now m w).0
  unfolding connect_slot
  tick_slot_opened fd rest sockets good role =
      let w' = record w { sockets = rest } in
      subst (λ (r : FeedMonitor S × World S). IsReconnecting fd index r.0)
        (sym (
          tick_slot_created jitter parses index now m w slot at waits (some fd, w')
            (created_opened parses slot.connection.host w fd rest sockets good)))
        (record {
          slot = record slot {
            reconnect_ready_at_ns = negsuc 0;
            connection = (rebind m.config slot.connection w'.env fd now).0;
          };
          at =
              unfold put_slot in
              get_elem?-set_self m.slots index _ (place-lt m.slots index slot at);
          connecting = unfold rebind transition_to in rw role refl;
          bound = unfold rebind transition_to in refl;
          indexed = unfold map_put in ground arith;
        })

module _ {S : Type 0} (jitter : ℕ → ℤ → ℤ) (parses : Text → Bool) (index : ℕ) (delay : ℤ)
    (config : Config) (bounded : IsBounded jitter delay config) where
  -- A slot waits for a reconnection that is due at `now`. Every factor of the jitter leaves a delay between
  -- 0 and `delay`, and the slot's ticks are at least `delay` apart. If the next `k` calls of `socket`
  -- fail and the one behind them gives a descriptor, the address can be parsed, and the limit of
  -- attempts is negative or allows `k` more, then by the tick behind the `k` failed ones the feed is
  -- connecting with that descriptor, and the descriptor's events find its slot.
  pub tick_times-IsReconnecting :
      (k fd : ℕ) (rest : List (Option ℕ)) (now : ℤ) (times : List ℤ) (m : FeedMonitor S)
      (w : World S) (slot : Slot S)
      → m.config ≡ config
      → get_elem? m.slots index ≡ some slot
      → IsDue slot now
      → slot.connection.role ≡ Role.initiator
      → parses slot.connection.host ≡ true
      → IsAllowed config (slot.reconnect_attempts + k)
      → w.sockets ≡ replicate k none ++ some fd ∷ rest
      → length times ≡ k
      → IsSpaced delay now times
      → IsReconnecting fd index (tick_times jitter parses index (now ∷ times) m w).0
  unfolding tick_times
  tick_times-IsReconnecting zero fd rest now [] m w slot c at waits role good allowed sockets n
        spaced =
      tick_slot_opened jitter parses index now m w slot at waits fd rest sockets good role
  tick_times-IsReconnecting zero fd rest now (t ∷ times) m w slot c at waits role good allowed
        sockets n spaced =
      absurd (omega arith)
  tick_times-IsReconnecting (suc k) fd rest now [] m w slot c at waits role good allowed sockets n
        spaced =
      absurd (omega arith)
  tick_times-IsReconnecting (suc k) fd rest now (t ∷ times) m w slot c at waits role good allowed
        sockets n spaced =
      let attempts = slot.reconnect_attempts in
      let one = IsAllowed-le config (attempts + 1) (attempts + suc k) allowed (omega arith) in
      subst
        (λ (r : FeedMonitor S × World S).
          IsReconnecting fd index (tick_times jitter parses index (t ∷ times) r.0 r.1).0)
        (sym (
          tick_slot_refused jitter parses index now m w slot at waits
            (replicate k none ++ some fd ∷ rest) sockets
            (subst (λ (g : Config). IsAllowed g (attempts + 1)) (sym c) one)))
        (tick_times-IsReconnecting k fd rest t times
          (put_slot m index (retried jitter parses index now m w slot at waits))
          (record w { sockets = replicate k none ++ some fd ∷ rest; draws = w.draws + 1 })
          (retried jitter parses index now m w slot at waits) (unfold put_slot in c)
          (retried-at jitter parses index now m w slot at waits)
          (retried-IsDue jitter parses index now m w slot at waits delay t
            (subst (IsBounded jitter delay) (sym c) bounded) spaced.0)
          role good
          (IsAllowed-le config (attempts + 1 + k) (attempts + suc k) allowed (omega arith)) refl
          (omega (arith, n)) spaced.1)
