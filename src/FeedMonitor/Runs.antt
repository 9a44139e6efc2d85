-- ===== src/FeedMonitor/Runs.antt =====
-- Whole runs of the reactor: the index of feed ids, and the wakeups that are looked at.
use vigil_low_latency_tcp_he.Prelude.{
  ℕ, ◌≡◌, refl, ap, inl, inr, Bool, true, false, Option, none, some, List, [], ◌∷◌, map, arith,
  Option-cases, Bool-cases, length, ◌==◌, if_both,
}
use vigil_low_latency_tcp_he.Prelude.Int.{ℤ}
use vigil_low_latency_tcp_he.Prelude.Text.{Text}
use vigil_low_latency_tcp_he.Connection.{reset_liveness_baseline}
use vigil_low_latency_tcp_he.CommandInput.{Reads, read_lines, run_lines}
use vigil_low_latency_tcp_he.CommandInput.Lines.{run_lines_rule}
use vigil_low_latency_tcp_he.FeedMonitor.Types.{FeedMonitor, Slot, World}
use vigil_low_latency_tcp_he.FeedMonitor.Reactor.{
  handle_connection_event, tick_slots, on_timer_tick, set_heartbeat_timeout, rebaseline_slot,
}
use vigil_low_latency_tcp_he.FeedMonitor.Loop.{
  Event, Wakeup, interrupted, failed, ready, OnLine, on_command_fd_readable, dispatch, dispatch_all,
  count_events, run_loop, run,
}
use vigil_low_latency_tcp_he.FeedMonitor.Directory.{feed_id_of, IsIndexed}
use vigil_low_latency_tcp_he.FeedMonitor.Kept.{
  SameFeeds, handle_connection_event-SameFeeds, tick_slots-SameFeeds,
}

module _ {S : Type 0} where
  rebaselined :
      (now : ℤ) (slots : List (Slot S))
      → map feed_id_of (map (rebaseline_slot now) slots) ≡ map feed_id_of slots
  unfolding reset_liveness_baseline
  rebaselined now [] = refl
  rebaselined now (slot ∷ slots) = ap (◌∷◌ (feed_id_of slot)) (rebaselined now slots)

  pub set_heartbeat_timeout-SameFeeds :
      (timeout : ℤ) (m : FeedMonitor S) (w : World S)
      → SameFeeds m (set_heartbeat_timeout timeout m w)
  unfolding set_heartbeat_timeout
  set_heartbeat_timeout-SameFeeds timeout m w = (refl, rebaselined w.env.clock m.slots, refl)

  -- A property that depends on the feeds, their index and the request to stop.
  abbrev pub IsAboutFeeds : (FeedMonitor S → Type 0) → Type 0
  IsAboutFeeds P = (m n : FeedMonitor S) → SameFeeds m n → P m → P n

  -- A callback that keeps a property.
  abbrev pub Keeps : OnLine S → (FeedMonitor S → Type 0) → Type 0
  Keeps on_line P =
      (line : Text) (m : FeedMonitor S) (w : World S) → P m → P (on_line line (m, w)).0

  module _ (jitter : ℕ → ℤ → ℤ) (parses : Text → Bool) (on_line : OnLine S)
      (P : FeedMonitor S → Type 0) (about : IsAboutFeeds P) (keeps : Keeps on_line P) where
    pub on_command_fd_readable_rule :
        (fd : ℕ) (reads : Reads) (m : FeedMonitor S) (w : World S)
        → P (run_lines on_line (read_lines reads m.command_line_buffer).0.0 (m, w)).0
        → P (on_command_fd_readable on_line fd reads m w).0
    unfolding on_command_fd_readable
    on_command_fd_readable_rule fd reads m w h =
        let r = read_lines reads m.command_line_buffer in
        let m' = (run_lines on_line r.0.0 (m, w)).0 in
        elim (Bool-cases r.1) [
          | inl eof ↦ rw eof (
              about m' (record m' { command_line_buffer = r.0.1; command_fd = none })
                (refl, refl, refl) h)
          | inr more ↦
              rw more (about m' (record m' { command_line_buffer = r.0.1 }) (refl, refl, refl) h)
        ]

    pub dispatch_rule :
        (now : ℤ) (ev : Event) (m : FeedMonitor S) (w : World S)
        → P m
        → P (dispatch jitter parses on_line now ev m w).0
    unfolding dispatch on_timer_tick
    dispatch_rule now ev m w h =
        let w' = record w { env = record (w.env) { sends = ev.sends; clock = ev.clock } } in
        let lines = (read_lines ev.reads m.command_line_buffer).0.0 in
        elim (Bool-cases (ev.fd == m.wake_fd)) [
          | inl wake ↦ rw wake h
          | inr w1 ↦ elim (Bool-cases (ev.fd == m.timer_fd)) [
            | inl timer ↦
                rw (w1, timer)
                  (about m (tick_slots jitter parses ev.clock (length m.slots) 0 m w').0
                    (tick_slots-SameFeeds jitter parses ev.clock (length m.slots) 0 m w') h)
            | inr w2 ↦
                elim (Bool-cases (elim m.command_fd [ none ↦ false | some fd ↦ ev.fd == fd ])) [
                  | inl command ↦
                      rw (w1, w2, command)
                        (on_command_fd_readable_rule ev.fd ev.reads m w' (
                          run_lines_rule on_line (λ mw. P mw.0) (λ line mw. keeps line mw.0 mw.1)
                            lines (m, w') h))
                  | inr w3 ↦ elim (Option-cases (m.index_of_fd ev.fd)) [
                    | inl stale ↦ rw (w1, w2, w3, stale) h
                    | inr (i, found) ↦
                        rw (w1, w2, w3, found)
                          (about m (handle_connection_event jitter i ev.socket now m w').0
                            (handle_connection_event-SameFeeds jitter i ev.socket now m w') h)
                  ]
                ]
          ]
        ]

    pub dispatch_all_rule :
        (now : ℤ) (events : List Event) (m : FeedMonitor S) (w : World S)
        → P m
        → P (dispatch_all jitter parses on_line now events m w).0
    unfolding dispatch_all
    dispatch_all_rule now [] m w h = h
    dispatch_all_rule now (ev ∷ events) m w h =
        dispatch_all_rule now events _ _ (dispatch_rule now ev m w h)

    -- What the callback keeps, the loop keeps.
    pub run_loop_rule :
        (wakeups : List Wakeup) (m : FeedMonitor S) (w : World S)
        → P m
        → P (run_loop jitter parses on_line wakeups m w).0.0
    unfolding run_loop
    run_loop_rule [] m w h = h
    run_loop_rule (interrupted ∷ wakeups) m w h =
        if_both (λ (r : (FeedMonitor S × World S) × List Wakeup). P r.0.0) m.stop_requested h
          (run_loop_rule wakeups m w h)
    run_loop_rule (failed ∷ wakeups) m w h = h
    run_loop_rule (ready now events ∷ wakeups) m w h =
        let counted = count_events (length events) m in
        let r = dispatch_all jitter parses on_line now events counted w in
        if_both (λ (r : (FeedMonitor S × World S) × List Wakeup). P r.0.0) m.stop_requested h
          (run_loop_rule wakeups (r.0) (r.1)
            (dispatch_all_rule now events counted w (about m counted (refl, refl, refl) h)))

  abbrev pub at_event : Event → World S → World S
  at_event ev w = record w { env = record (w.env) { sends = ev.sends; clock = ev.clock } }

  -- An event of the descriptor that commands are read from.
  pub dispatch_command :
      (jitter : ℕ → ℤ → ℤ) (parses : Text → Bool) (on_line : OnLine S) (now : ℤ) (ev : Event)
      (m : FeedMonitor S) (w : World S)
      → (ev.fd == m.wake_fd) ≡ false
      → (ev.fd == m.timer_fd) ≡ false
      → m.command_fd ≡ some ev.fd
      → dispatch jitter parses on_line now ev m w
        ≡ on_command_fd_readable on_line ev.fd ev.reads m (at_event ev w)
  unfolding dispatch
  dispatch_command jitter parses on_line now ev m w w1 w2 fd =
      let test = is_fd m.command_fd fd in rw (w1, w2, test) refl
    where
      is_fd :
          (o : Option ℕ) → o ≡ some ev.fd → elim o [ none ↦ false | some fd ↦ ev.fd == fd ] ≡ true
      is_fd o e = ground (arith, e)

  pub IsIndexed-IsAboutFeeds : IsAboutFeeds IsIndexed
  IsIndexed-IsAboutFeeds m n s h = rw (s.0, s.1) h

  -- If each feed id is found at the slot that has it and nowhere else, and the callback for command
  -- lines keeps this, then it is so after a run, whatever the kernel reports: any events, on any
  -- descriptors, in any order.
  pub run-IsIndexed :
      (jitter : ℕ → ℤ → ℤ) (parses : Text → Bool) (on_line : OnLine S)
      → Keeps on_line IsIndexed
      → (wakeups : List Wakeup) (m : FeedMonitor S) (w : World S) → IsIndexed m
      → IsIndexed (run jitter parses on_line wakeups m w).0.0
  unfolding run
  run-IsIndexed jitter parses on_line keeps wakeups m w h =
      run_loop_rule jitter parses on_line IsIndexed IsIndexed-IsAboutFeeds keeps wakeups
        (record m { stop_requested = false }) w h
