-- ===== src/FeedMonitor/System.antt =====
-- The monitor under any operations in any order, and where its events go.
use vigil_low_latency_tcp_he.Prelude.{
  ℕ, zero, suc, ◌+◌, ◌≡◌, ◌≢◌, refl, sym, ap, Bool, false, Option, none, some, List, [], ◌∷◌, map,
  get_elem?, length, ◌∙◌, ◌==◌,
}
use vigil_low_latency_tcp_he.Prelude.Int.{ℤ}
use vigil_low_latency_tcp_he.Prelude.Text.{Text}
use vigil_low_latency_tcp_he.Config.{FeedEndpoint}
use vigil_low_latency_tcp_he.Connection.{is_failed, reset_liveness_baseline}
use vigil_low_latency_tcp_he.Connection.Lifecycle.{Onward}
use vigil_low_latency_tcp_he.FeedMonitor.Types.{FeedMonitor, Slot, World, SocketEvent, put_slot}
use vigil_low_latency_tcp_he.FeedMonitor.Feeds.{
  add_feed, remove_feed, force_disconnect, force_reconnect,
}
use vigil_low_latency_tcp_he.FeedMonitor.Reactor.{
  handle_connection_event, tick_slot, tick_slots, on_timer_tick, set_heartbeat_timeout,
  rebaseline_slot,
}
use vigil_low_latency_tcp_he.FeedMonitor.Loop.{Event, OnLine, dispatch}
use vigil_low_latency_tcp_he.FeedMonitor.Directory.{decide_ne}
use vigil_low_latency_tcp_he.FeedMonitor.Index.{some_injective}
use vigil_low_latency_tcp_he.FeedMonitor.Routes.{Holds}
use vigil_low_latency_tcp_he.FeedMonitor.Descriptors.{
  IsRouted, IsFresh, put_slot-IsRouted, on_connection_failed-IsRouted, initiate_connect-IsRouted,
}
use vigil_low_latency_tcp_he.FeedMonitor.Rules.{
  Onward-IsKept, handle_connection_event_rule, force_disconnect_rule, force_reconnect_rule,
  tick_slot_rule,
}
use vigil_low_latency_tcp_he.FeedMonitor.Moved.{add_feed-IsRouted, remove_feed-IsRouted}

module _ {S : Type 0} where
  put_IsRouted :
      (m : FeedMonitor S) (i : ℕ) (old new : Slot S)
      → get_elem? m.slots i ≡ some old
      → Onward old.connection new.connection
      → IsRouted m
      → IsRouted (put_slot m i new)
  put_IsRouted m i old new at on r =
      put_slot-IsRouted m i old new at (Onward-IsKept old.connection new.connection on) r

  -- A slot after `set_heartbeat_timeout`, and the one that it was.
  rebaselined_back :
      (now : ℤ) (slots : List (Slot S)) (i fd : ℕ) (s : Slot S)
      → Holds (map (rebaseline_slot now) slots) i fd s
      → (t : Slot S) × Holds slots i fd t
        × (is_failed t.connection.state ≡ is_failed s.connection.state)
  unfolding reset_liveness_baseline
  rebaselined_back now [] i fd s held = cc
  rebaselined_back now (t ∷ slots) zero fd s (at, own) =
      let e = some_injective (rebaseline_slot now t) s at in
      (
        t,
        (refl, ap (λ (r : Slot S). r.connection.fd) e ∙ own),
        ap (λ (r : Slot S). is_failed r.connection.state) e,
      )
  rebaselined_back now (t ∷ slots) (suc i) fd s held = rebaselined_back now slots i fd s held

  set_heartbeat_timeout-IsRouted :
      (timeout : ℤ) (m : FeedMonitor S) (w : World S)
      → IsRouted m
      → IsRouted (set_heartbeat_timeout timeout m w)
  unfolding set_heartbeat_timeout
  set_heartbeat_timeout-IsRouted timeout m w r = (
    λ i j fd s t si tj.
        let (s', si', _) = rebaselined_back w.env.clock m.slots i fd s si in
        let (t', tj', _) = rebaselined_back w.env.clock m.slots j fd t tj in
        r.0 i j fd s' t' si' tj',
    λ i fd s any si live.
        let (s', si', same) = rebaselined_back w.env.clock m.slots i fd s si in
        r.1 i fd s' tt si' (same ∙ live),
  )

not_the_command :
    (command_fd : Option ℕ) (fd : ℕ)
    → command_fd ≢ some fd
    → (elim command_fd [ none ↦ false | some g ↦ fd == g ]) ≡ false
not_the_command none fd h = refl
not_the_command (some g) fd h = decide_ne fd g (λ e. h (ap some (sym e)))

module _ {S : Type 0} (jitter : ℕ → ℤ → ℤ) (parses : Text → Bool) where
  -- Each call of `socket` during the tick gives a descriptor that no slot holds at that time.
  abbrev pub IsFreshTick : ℤ → ℕ → ℕ → FeedMonitor S → World S → Type 0
  IsFreshTick now zero i m w = Unit
  IsFreshTick now (suc left) i m w =
      let r = tick_slot jitter parses i now m w in
      IsFresh w.sockets m.slots × IsFreshTick now left (i + 1) r.0 r.1

  tick_slots-IsRouted :
      (now : ℤ) (left i : ℕ) (m : FeedMonitor S) (w : World S)
      → IsFreshTick now left i m w
      → IsRouted m
      → IsRouted (tick_slots jitter parses now left i m w).0
  unfolding tick_slots
  tick_slots-IsRouted now zero i m w fresh r = r
  tick_slots-IsRouted now (suc left) i m w fresh r =
      let q = tick_slot jitter parses i now m w in
      tick_slots-IsRouted now left (i + 1) (q.0) (q.1) fresh.1 (
        tick_slot_rule IsRouted put_IsRouted jitter (on_connection_failed-IsRouted jitter) parses i
          now m w (initiate_connect-IsRouted jitter parses i now m w fresh.0 r) r)

  -- One operation of the monitor, or a change elsewhere: in what surrounds it, or in those of its fields
  -- that have nothing to do with descriptors.
  pub data Step (r : FeedMonitor S × World S) : FeedMonitor S × World S → Type 0 where
    added :
        (endpoint : FeedEndpoint)
        → IsFresh r.1.sockets r.0.slots
        → Step r (add_feed parses endpoint r.0 r.1).0
    removed : (feed_id : ℕ) → Step r (remove_feed feed_id r.0 r.1)
    disconnected : (feed_id : ℕ) → Step r (force_disconnect jitter feed_id r.0 r.1)
    reconnected : (feed_id : ℕ) → Step r (force_reconnect feed_id r.0, r.1)
    happened :
        (i : ℕ) (ev : SocketEvent) (now : ℤ)
        → Step r (handle_connection_event jitter i ev now r.0 r.1)
    ticked :
        IsFreshTick r.1.env.clock (length r.0.slots) 0 r.0 r.1
        → Step r (on_timer_tick jitter parses r.0 r.1).0
    timeout_set : (timeout : ℤ) → Step r (set_heartbeat_timeout timeout r.0 r.1, r.1)
    elsewhere :
        (m : FeedMonitor S) (w : World S)
        → m.slots ≡ r.0.slots
        → m.index_of_fd ≡ r.0.index_of_fd
        → Step r (m, w)

  pub data Reach (r : FeedMonitor S × World S) : FeedMonitor S × World S → Type 0 where
    start : Reach r r
    later : {s t : FeedMonitor S × World S} → Reach r s → Step s t → Reach r t

  Step-IsRouted : {r s : FeedMonitor S × World S} → Step r s → IsRouted r.0 → IsRouted s.0
  unfolding on_timer_tick
  Step-IsRouted {r} (added endpoint fresh) h = add_feed-IsRouted parses endpoint r.0 r.1 fresh h
  Step-IsRouted {r} (removed feed_id) h = remove_feed-IsRouted feed_id r.0 r.1 h
  Step-IsRouted {r} (disconnected feed_id) h =
      force_disconnect_rule IsRouted put_IsRouted jitter (on_connection_failed-IsRouted jitter)
        feed_id r.0 r.1 h
  Step-IsRouted {r} (reconnected feed_id) h =
      force_reconnect_rule IsRouted put_IsRouted feed_id r.0 h
  Step-IsRouted {r} (happened i ev now) h =
      handle_connection_event_rule IsRouted put_IsRouted jitter
        (on_connection_failed-IsRouted jitter) i ev now r.0 r.1 h
  Step-IsRouted {r} (ticked fresh) h =
      tick_slots-IsRouted r.1.env.clock (length r.0.slots) 0 r.0 r.1 fresh h
  Step-IsRouted {r} (timeout_set timeout) h = set_heartbeat_timeout-IsRouted timeout r.0 r.1 h
  Step-IsRouted {r} (elsewhere m w slots index) h = rw (slots, index) h

  -- Start without feeds and perform any operations in any order, where `socket` gives a descriptor that no
  -- slot holds at that time. Then no two slots hold the same descriptor, and `index_of_fd` maps the
  -- descriptor of each connection that is not failed to the place of its slot.
  pub Reach-IsRouted : {r s : FeedMonitor S × World S} → r.0.slots ≡ [] → Reach r s → IsRouted s.0
  Reach-IsRouted {r} none_yet start =
      rw none_yet ((λ i j fd s t a b. cc), (λ i fd s any a live. cc))
  Reach-IsRouted none_yet (later p step) = Step-IsRouted step (Reach-IsRouted none_yet p)

  -- Start without feeds and perform any operations in any order, where `socket` gives a descriptor that no
  -- slot holds at that time. Then the loop hands an event on the descriptor of a connection that is not
  -- failed to `handle_connection_event` for the slot of just this connection, if the descriptor is not
  -- the one of the wakeups, of the timer or of the commands.
  pub Reach-dispatch :
      {r s : FeedMonitor S × World S} (on_line : OnLine S) (now : ℤ) (ev : Event) (i : ℕ)
      (slot : Slot S)
      → r.0.slots ≡ []
      → Reach r s
      → Holds s.0.slots i ev.fd slot
      → is_failed slot.connection.state ≡ false
      → ev.fd ≢ s.0.wake_fd
      → ev.fd ≢ s.0.timer_fd
      → s.0.command_fd ≢ some ev.fd
      → dispatch jitter parses on_line now ev s.0 s.1
        ≡ handle_connection_event jitter i ev.socket now s.0
            (record s.1 { env = record s.1.env { sends = ev.sends; clock = ev.clock } })
  unfolding dispatch
  Reach-dispatch {s} on_line now ev i slot none_yet reached held live wake timer command =
      let found = (Reach-IsRouted none_yet reached).1 i ev.fd slot tt held live in
      let not_command = not_the_command s.0.command_fd ev.fd command in
      rw (dispatch, decide_ne ev.fd s.0.wake_fd wake)
        (rw (decide_ne ev.fd s.0.timer_fd timer) (rw not_command (rw found refl)))
