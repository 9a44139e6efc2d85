-- ===== src/FeedMonitor/Reached.antt =====
-- The loop as a sequence of operations of the monitor.
use vigil_low_latency_tcp_he.Prelude.{
  ℕ, ◌≡◌, refl, inl, inr, Bool, true, false, none, some, List, [], ◌∷◌, Option-cases, Bool-cases,
  length, ◌==◌, if_both,
}
use vigil_low_latency_tcp_he.Prelude.Int.{ℤ}
use vigil_low_latency_tcp_he.Prelude.Text.{Text}
use vigil_low_latency_tcp_he.CommandInput.{Reads, read_lines, run_lines}
use vigil_low_latency_tcp_he.CommandInput.Lines.{run_lines_rule}
use vigil_low_latency_tcp_he.FeedMonitor.Types.{FeedMonitor, World}
use vigil_low_latency_tcp_he.FeedMonitor.Loop.{
  Event, Wakeup, interrupted, failed, ready, OnLine, on_command_fd_readable, dispatch, dispatch_all,
  count_events, run_loop, run,
}
use vigil_low_latency_tcp_he.FeedMonitor.Runs.{at_event}
use vigil_low_latency_tcp_he.FeedMonitor.System.{
  IsFreshTick, Reach, later, elsewhere, happened, ticked,
}

module _ {S : Type 0} (jitter : ℕ → ℤ → ℤ) (parses : Text → Bool) (on_line : OnLine S) where
  -- The calls of `socket` while the event is handled give no descriptor that a slot holds.
  abbrev pub IsFreshEvent : Event → FeedMonitor S → World S → Type 0
  IsFreshEvent ev m w =
      (ev.fd == m.timer_fd) ≡ true
      → IsFreshTick jitter parses ev.clock (length m.slots) 0 m (at_event ev w)

  abbrev pub IsFreshBatch : ℤ → List Event → FeedMonitor S → World S → Type 0
  IsFreshBatch now [] m w = Unit
  IsFreshBatch now (ev ∷ events) m w =
      let r = dispatch jitter parses on_line now ev m w in
      IsFreshEvent ev m w × IsFreshBatch now events r.0 r.1

  -- Every call of `socket` in the run gives a descriptor that no slot holds at that time.
  abbrev pub IsFreshRun : List Wakeup → FeedMonitor S → World S → Type 0
  IsFreshRun [] m w = Unit
  IsFreshRun (interrupted ∷ wakeups) m w = IsFreshRun wakeups m w
  IsFreshRun (failed ∷ wakeups) m w = Unit
  IsFreshRun (ready now events ∷ wakeups) m w =
      let n = count_events (length events) m in
      let r = dispatch_all jitter parses on_line now events n w in
      IsFreshBatch now events n w × IsFreshRun wakeups r.0 r.1

  module _ (o : FeedMonitor S × World S)
      (calls : (line : Text) (r : FeedMonitor S × World S)
        → Reach jitter parses o r
        → Reach jitter parses o (on_line line r)) where
    apart :
        (m n : FeedMonitor S) (w w' : World S)
        → n.slots ≡ m.slots
        → n.index_of_fd ≡ m.index_of_fd
        → Reach jitter parses o (m, w)
        → Reach jitter parses o (n, w')
    apart m n w w' slots index p = later p (elsewhere n w' slots index)

    on_command_fd_readable-Reach :
        (fd : ℕ) (reads : Reads) (m : FeedMonitor S) (w : World S)
        → Reach jitter parses o (m, w)
        → Reach jitter parses o (on_command_fd_readable on_line fd reads m w)
    unfolding on_command_fd_readable
    on_command_fd_readable-Reach fd reads m w p =
        let r = read_lines reads m.command_line_buffer in
        let q = run_lines on_line r.0.0 (m, w) in
        let p' = run_lines_rule on_line (Reach jitter parses o) calls r.0.0 (m, w) p in
        elim (Bool-cases r.1) [
          | inl eof ↦ rw eof (apart (q.0) _ (q.1) _ refl refl p')
          | inr more ↦ rw more (apart (q.0) _ (q.1) _ refl refl p')
        ]

    dispatch-Reach :
        (now : ℤ) (ev : Event) (m : FeedMonitor S) (w : World S)
        → IsFreshEvent ev m w
        → Reach jitter parses o (m, w)
        → Reach jitter parses o (dispatch jitter parses on_line now ev m w)
    unfolding dispatch
    dispatch-Reach now ev m w fresh p =
        let w' = at_event ev w in
        let p' = apart m m w w' refl refl p in
        elim (Bool-cases (ev.fd == m.wake_fd)) [
          | inl wake ↦ rw wake p'
          | inr w1 ↦ elim (Bool-cases (ev.fd == m.timer_fd)) [
            | inl timer ↦ rw (w1, timer) (later p' (ticked (fresh timer)))
            | inr w2 ↦
                elim (Bool-cases (elim m.command_fd [ none ↦ false | some fd ↦ ev.fd == fd ])) [
                  | inl command ↦
                      rw (w1, w2, command) (on_command_fd_readable-Reach ev.fd ev.reads m w' p')
                  | inr w3 ↦ elim (Option-cases (m.index_of_fd ev.fd)) [
                    | inl stale ↦ rw (w1, w2, w3, stale) p'
                    | inr (i, found) ↦ rw (w1, w2, w3, found) (later p' (happened i ev.socket now))
                  ]
                ]
          ]
        ]

    dispatch_all-Reach :
        (now : ℤ) (events : List Event) (m : FeedMonitor S) (w : World S)
        → IsFreshBatch now events m w
        → Reach jitter parses o (m, w)
        → Reach jitter parses o (dispatch_all jitter parses on_line now events m w)
    unfolding dispatch_all
    dispatch_all-Reach now [] m w fresh p = p
    dispatch_all-Reach now (ev ∷ events) m w fresh p =
        dispatch_all-Reach now events _ _ fresh.1 (dispatch-Reach now ev m w fresh.0 p)

    run_loop-Reach :
        (wakeups : List Wakeup) (m : FeedMonitor S) (w : World S)
        → IsFreshRun wakeups m w
        → Reach jitter parses o (m, w)
        → Reach jitter parses o (run_loop jitter parses on_line wakeups m w).0
    unfolding run_loop
    run_loop-Reach [] m w fresh p = p
    run_loop-Reach (interrupted ∷ wakeups) m w fresh p =
        if_both (λ (r : (FeedMonitor S × World S) × List Wakeup). Reach jitter parses o r.0)
          m.stop_requested p (run_loop-Reach wakeups m w fresh p)
    run_loop-Reach (failed ∷ wakeups) m w fresh p = p
    run_loop-Reach (ready now events ∷ wakeups) m w fresh p =
        let n = count_events (length events) m in
        let r = dispatch_all jitter parses on_line now events n w in
        if_both (λ (r : (FeedMonitor S × World S) × List Wakeup). Reach jitter parses o r.0)
          m.stop_requested p
          (run_loop-Reach wakeups (r.0) (r.1) fresh.1
            (dispatch_all-Reach now events n w fresh.0 (apart m n w w refl refl p)))

    pub run-Reach :
        (wakeups : List Wakeup) (m : FeedMonitor S) (w : World S)
        → IsFreshRun wakeups (record m { stop_requested = false }) w
        → Reach jitter parses o (m, w)
        → Reach jitter parses o (run jitter parses on_line wakeups m w).0
    unfolding run
    run-Reach wakeups m w fresh p =
        let n = record m { stop_requested = false } in
        run_loop-Reach wakeups n w fresh (apart m n w w refl refl p)
