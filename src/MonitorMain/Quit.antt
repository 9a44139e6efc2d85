-- ===== src/MonitorMain/Quit.antt =====
-- A command `quit` or `exit` ends the run.
use vigil_low_latency_tcp_he.Prelude.{
  ◌≢◌, All, sym, ap, ℕ, ◌≡◌, refl, Bool, true, false, ◌||◌, some, List, [], ◌∷◌, ◌∙◌, ◌++◌, ◌==◌,
  length,
}
use vigil_low_latency_tcp_he.Prelude.Int.{ℤ}
use vigil_low_latency_tcp_he.Prelude.Text.{Text, text, text_eq}
use vigil_low_latency_tcp_he.Config.{is_empty}
use vigil_low_latency_tcp_he.CommandInput.{read_word, run_lines, read_lines}
use vigil_low_latency_tcp_he.CommandInput.Lines.{run_lines_rule}
use vigil_low_latency_tcp_he.Prelude.{if◌then◌else◌}
use vigil_low_latency_tcp_he.FeedMonitor.{
  interrupted, failed, ready, FeedMonitor, World, Wakeup, stop, run, run_loop, OnLine, dispatch_all,
  Event, ready, count_events, dispatch,
}
use vigil_low_latency_tcp_he.FeedMonitor.Runs.{
  IsAboutFeeds, Keeps, on_command_fd_readable_rule, dispatch_all_rule, dispatch_command, at_event,
  on_command_fd_readable_rule, dispatch_all_rule,
}
use vigil_low_latency_tcp_he.MonitorMain.{run_command, handle_command_line}
use vigil_low_latency_tcp_he.MonitorMain.Session.{handle_command_line-Keeps}

-- The lines that stop the monitor: `quit` or `exit` as the first word.
abbrev pub IsQuit : Text → Type 0
IsQuit line =
    (text_eq (read_word line).0 (text "quit") || text_eq (read_word line).0 (text "exit")) ≡ true

module _ {S : Type 0} where
  abbrev pub IsStopped : FeedMonitor S → Type 0
  IsStopped m = m.stop_requested ≡ true

  -- A stop that was asked for stays asked for.
  IsStopped-IsAboutFeeds : IsAboutFeeds IsStopped
  IsStopped-IsAboutFeeds m n s h = s.2 ∙ h

  handle_command_line-IsStopped :
      (jitter : ℕ → ℤ → ℤ) → Keeps (handle_command_line {S = S} jitter) IsStopped
  handle_command_line-IsStopped jitter =
      handle_command_line-Keeps jitter IsStopped IsStopped-IsAboutFeeds (λ m h. unfold stop in refl)

  quit_word-IsStopped :
      (jitter : ℕ → ℤ → ℤ) (r : Text × Text) (m : FeedMonitor S) (w : World S)
      → (text_eq r.0 (text "quit") || text_eq r.0 (text "exit")) ≡ true
      → IsStopped (if is_empty r.0 then (m, w) else run_command jitter r.0 r.1 (m, w)).0
  unfolding text_eq run_command stop
  quit_word-IsStopped jitter ([], args) m w e = cc
  quit_word-IsStopped jitter (c ∷ cmd, args) m w e = rw e refl

  quit-IsStopped :
      (jitter : ℕ → ℤ → ℤ) (line : Text) (m : FeedMonitor S) (w : World S)
      → IsQuit line
      → IsStopped (handle_command_line jitter line (m, w)).0
  unfolding handle_command_line
  quit-IsStopped jitter line m w h = quit_word-IsStopped jitter (read_word line) m w h

  -- A `quit` among the lines of a wakeup.
  run_lines-IsStopped :
      (jitter : ℕ → ℤ → ℤ) (before : List Text) (line : Text) (after : List Text)
      (m : FeedMonitor S) (w : World S)
      → IsQuit line
      → IsStopped (run_lines (handle_command_line jitter) (before ++ line ∷ after) (m, w)).0
  unfolding run_lines
  run_lines-IsStopped jitter [] line after m w h =
      run_lines_rule (handle_command_line jitter) (λ mw. IsStopped mw.0)
        (λ line mw. handle_command_line-IsStopped jitter line mw.0 mw.1) after
        (handle_command_line jitter line (m, w)) (quit-IsStopped jitter line m w h)
  run_lines-IsStopped jitter (first ∷ before) line after m w h =
      let r = handle_command_line jitter first (m, w) in
      run_lines-IsStopped jitter before line after (r.0) (r.1) h

  run_loop_stopped :
      (jitter : ℕ → ℤ → ℤ) (parses : Text → Bool) (on_line : OnLine S) (wakeups : List Wakeup)
      (m : FeedMonitor S) (w : World S)
      → IsStopped m
      → (run_loop jitter parses on_line wakeups m w).1 ≡ wakeups
  unfolding run_loop
  run_loop_stopped jitter parses on_line [] m w h = refl
  run_loop_stopped jitter parses on_line (interrupted ∷ wakeups) m w h = rw h refl
  run_loop_stopped jitter parses on_line (failed ∷ wakeups) m w h = rw h refl
  run_loop_stopped jitter parses on_line (ready now events ∷ wakeups) m w h = rw h refl

  dispatch_all-append :
      (jitter : ℕ → ℤ → ℤ) (parses : Text → Bool) (on_line : OnLine S) (now : ℤ)
      (first events : List Event) (m : FeedMonitor S) (w : World S)
      → let r = dispatch_all jitter parses on_line now first m w in
        dispatch_all jitter parses on_line now (first ++ events) m w
        ≡ dispatch_all jitter parses on_line now events (r.0) (r.1)
  unfolding dispatch_all
  dispatch_all-append jitter parses on_line now [] events m w = refl
  dispatch_all-append jitter parses on_line now (ev ∷ first) events m w =
      let r = dispatch jitter parses on_line now ev m w in
      dispatch_all-append jitter parses on_line now first events (r.0) (r.1)

  -- One round of the loop: where it was not stopped in front of the round, it goes on.
  on_or_stopped :
      (go_on : FeedMonitor S → World S → ((FeedMonitor S × World S) × List Wakeup)) (b : Bool)
      (m : FeedMonitor S) (w : World S)
      → m.stop_requested ≡ b
      → (us vs : List Wakeup) (x y : (FeedMonitor S × World S) × List Wakeup)
      → (x.0.0.stop_requested ≡ false → y ≡ go_on x.0.0 x.0.1)
      → let r = (if b then ((m, w), us) else x).0 in
        (r.0).stop_requested ≡ false → (if b then ((m, w), vs) else y) ≡ go_on (r.0) (r.1)
  on_or_stopped go_on true m w e us vs x y h = λ off. let absent : true ≡ false = sym e ∙ off in cc
  on_or_stopped go_on false m w e us vs x y h = h

  -- The loop goes on behind wakeups among which none failed and none stopped it.
  run_loop-append :
      (jitter : ℕ → ℤ → ℤ) (parses : Text → Bool) (on_line : OnLine S)
      (earlier wakeups : List Wakeup) (m : FeedMonitor S) (w : World S)
      → All (λ x. x ≢ failed) earlier
      → let r = (run_loop jitter parses on_line earlier m w).0 in
        (r.0).stop_requested ≡ false
        → run_loop jitter parses on_line (earlier ++ wakeups) m w
          ≡ run_loop jitter parses on_line wakeups (r.0) (r.1)
  unfolding run_loop
  run_loop-append jitter parses on_line [] wakeups m w none_failed = λ h. refl
  run_loop-append jitter parses on_line (failed ∷ earlier) wakeups m w none_failed =
      absurd (none_failed.0 refl)
  run_loop-append jitter parses on_line (interrupted ∷ earlier) wakeups m w none_failed =
      on_or_stopped (run_loop jitter parses on_line wakeups) m.stop_requested m w refl
        (interrupted ∷ earlier) (interrupted ∷ earlier ++ wakeups) _ _
        (run_loop-append jitter parses on_line earlier wakeups m w none_failed.1)
  run_loop-append jitter parses on_line (ready now events ∷ earlier) wakeups m w none_failed =
      let r = dispatch_all jitter parses on_line now events (count_events (length events) m) w in
      on_or_stopped (run_loop jitter parses on_line wakeups) m.stop_requested m w refl
        (ready now events ∷ earlier) (ready now events ∷ earlier ++ wakeups) _ _
        (run_loop-append jitter parses on_line earlier wakeups (r.0) (r.1) none_failed.1)

  -- The batch in which a stop is asked for.
  run_loop_last :
      (jitter : ℕ → ℤ → ℤ) (parses : Text → Bool) (on_line : OnLine S) (now : ℤ)
      (batch : List Event) (later : List Wakeup) (m : FeedMonitor S) (w : World S)
      → m.stop_requested ≡ false
      → IsStopped (dispatch_all jitter parses on_line now batch (count_events (length batch) m) w).0
      → (run_loop jitter parses on_line (ready now batch ∷ later) m w).1 ≡ later
  unfolding run_loop
  run_loop_last jitter parses on_line now batch later m w on stopped =
      let r = dispatch_all jitter parses on_line now batch (count_events (length batch) m) w in
      let rest = run_loop jitter parses on_line later (r.0) (r.1) in
      ap
        (λ (b : Bool).
          (if◌then◌else◌ {A = (FeedMonitor S × World S) × List Wakeup} b
            ((m, w), ready now batch ∷ later) rest).1)
        on
      ∙ run_loop_stopped jitter parses on_line later (r.0) (r.1) stopped

  -- The batch that completes the line.
  batch-IsStopped :
      (jitter : ℕ → ℤ → ℤ) (parses : Text → Bool) (now : ℤ) (ev : Event) (events : List Event)
      (n : FeedMonitor S) (v : World S) (before : List Text) (line : Text) (after : List Text)
      → n.command_fd ≡ some ev.fd
      → (ev.fd == n.wake_fd) ≡ false
      → (ev.fd == n.timer_fd) ≡ false
      → (read_lines ev.reads n.command_line_buffer).0.0 ≡ before ++ line ∷ after
      → IsQuit line
      → IsStopped (dispatch_all jitter parses (handle_command_line jitter) now (ev ∷ events) n v).0
  unfolding dispatch_all
  batch-IsStopped jitter parses now ev events n v before line after fd w1 w2 lines h =
      dispatch_all_rule jitter parses on_line IsStopped IsStopped-IsAboutFeeds keeps now events _ _
        (rw (dispatch_command jitter parses on_line now ev n v w1 w2 fd) (
          on_command_fd_readable_rule jitter parses on_line IsStopped IsStopped-IsAboutFeeds keeps
            ev.fd ev.reads n (at_event ev v)
            (rw lines (run_lines-IsStopped jitter before line after n (at_event ev v) h))))
    where
      on_line : OnLine S
      on_line = handle_command_line jitter

      keeps : Keeps on_line IsStopped
      keeps = handle_command_line-IsStopped jitter

  -- Take a run that has handled the wakeups `earlier`, among which no `epoll_wait` failed, and was not
  -- stopped by them, and then in one batch the events `first`. Let the next event of the batch be at the
  -- descriptor that the monitor now reads commands from, which is neither its timer's nor its wakeup's.
  -- If the bytes read there complete a line whose first word is `quit` or `exit`, whatever the lines
  -- around it and the events behind it are, the run ends with that batch: no wakeup behind it is looked
  -- at.
  pub quit_ends_run :
      (jitter : ℕ → ℤ → ℤ) (parses : Text → Bool) (earlier : List Wakeup) (now : ℤ)
      (first : List Event) (ev : Event) (events : List Event) (later : List Wakeup)
      (m m' n : FeedMonitor S) (w w' v : World S) (before : List Text) (line : Text)
      (after : List Text)
      → All (λ x. x ≢ failed) earlier
      → (run jitter parses (handle_command_line jitter) earlier m w).0 ≡ (m', w')
      → m'.stop_requested ≡ false
      → dispatch_all jitter parses
          (handle_command_line jitter)
          now
          first
          (count_events (length (first ++ ev ∷ events)) m')
          w'
        ≡ (n, v)
      → n.command_fd ≡ some ev.fd
      → (ev.fd == n.wake_fd) ≡ false
      → (ev.fd == n.timer_fd) ≡ false
      → (read_lines ev.reads n.command_line_buffer).0.0 ≡ before ++ line ∷ after
      → IsQuit line
      → (run jitter parses
          (handle_command_line jitter)
          (earlier ++ ready now (first ++ ev ∷ events) ∷ later)
          m
          w).1
        ≡ later
  unfolding run
  quit_ends_run jitter parses earlier now first ev events later m m' n w w' v before line after
        none_failed reached on dispatched fd w1 w2 lines h =
      let start = record m { stop_requested = false } in
      let r = (run_loop jitter parses on_line earlier start w).0 in
      let on' : (r.0).stop_requested ≡ false =
        ap (λ (x : FeedMonitor S × World S). (x.0).stop_requested) reached ∙ on in
      ap (λ (x : (FeedMonitor S × World S) × List Wakeup). x.1)
        (run_loop-append jitter parses on_line earlier (ready now batch ∷ later) start w none_failed
          on')
      ∙ ap
          (λ (x : FeedMonitor S × World S).
            (run_loop jitter parses on_line (ready now batch ∷ later) (x.0) (x.1)).1)
          reached
      ∙ run_loop_last jitter parses on_line now batch later m' w' on stopped
    where
      on_line : OnLine S
      on_line = handle_command_line jitter

      batch : List Event
      batch = first ++ ev ∷ events

      stopped :
          IsStopped
            (dispatch_all jitter parses on_line now batch (count_events (length batch) m') w').0
      stopped =
          rw
            (
              dispatch_all-append jitter parses on_line now first (ev ∷ events)
                  (count_events (length batch) m') w',
              dispatched,
            )
            (batch-IsStopped jitter parses now ev events n v before line after fd w1 w2 lines h)
