-- ===== src/FeedSimulator/Runs.antt =====
-- Whole runs of the simulator keep its clients and its replies accounted for.
use vigil_low_latency_tcp_he.Prelude.{
  ℕ, ◌≡◌, refl, Bool, true, false, inl, inr, none, some, List, [], ◌∷◌, arith, ◌==◌, if_both,
  Bool-cases,
}
use vigil_low_latency_tcp_he.Prelude.Int.{ℤ}
use vigil_low_latency_tcp_he.Prelude.Text.{Text}
use vigil_low_latency_tcp_he.Connection.{Env, Role, new_connection}
use vigil_low_latency_tcp_he.Connection.Caller.{new_connection-caller}
use vigil_low_latency_tcp_he.CommandInput.{Reads, read_lines}
use vigil_low_latency_tcp_he.CommandInput.Lines.{run_lines_rule}
use vigil_low_latency_tcp_he.FeedSimulator.Types.{
  FeedSimulator, Faults, Chance, find_client, erase_client,
}
use vigil_low_latency_tcp_he.FeedSimulator.Clients.{
  Accepts, accepted, transient, drained, failed, emplace_client, accept_client,
  accept_new_connections,
}
use vigil_low_latency_tcp_he.FeedSimulator.Loop.{
  Event, Wakeup, ready, OnLine, at_event, on_command_fd_readable, dispatch, dispatch_all, run_loop,
}
use vigil_low_latency_tcp_he.FeedSimulator.Table.{erase_client-fresh, Owned-cons}
use vigil_low_latency_tcp_he.FeedSimulator.Replies.{IsAccounted, handle_client_event-IsAccounted}
use vigil_low_latency_tcp_he.FeedSimulator.DueReplies.{on_timer_tick-IsAccounted}

module _ (chance : Chance) where
  -- The kernel hands out no descriptor that a client still holds.
  unfoldable pub FreshAccepts : Accepts → FeedSimulator → Env Faults → Type 0
  FreshAccepts (accepted fd ip port added more) s e =
      let r = accept_client chance fd ip port added s e in
      (find_client fd s.clients ≡ none) × FreshAccepts more (r.0) (r.1)
  FreshAccepts (transient more) s e = FreshAccepts more s e
  FreshAccepts drained s e = Unit
  FreshAccepts failed s e = Unit

  accept_client-IsAccounted :
      (fd : ℕ) (ip : Text) (port : ℕ) (added : Bool) (s : FeedSimulator) (e : Env Faults)
      → find_client fd s.clients ≡ none
      → IsAccounted chance s e
      → IsAccounted chance
          (accept_client chance fd ip port added s e).0
          (accept_client chance fd ip port added s e).1
  unfolding accept_client emplace_client new_connection erase_client
  accept_client-IsAccounted fd ip port true s e fresh h =
      let caller = new_connection-caller fd Role.responder s.feed_id ip port s.config e in
      rw (accept_client, emplace_client, fresh)
        ((refl, h.0), rw caller (Owned-cons _ s.clients e.caller.pending_replies h.1))
  accept_client-IsAccounted fd ip port false s e fresh h =
      rw
        (
          accept_client,
          emplace_client,
          fresh,
          erase_client,
          self,
          erase_client-fresh fd s.clients fresh,
          caller,
        )
        h
    where
      caller : (new_connection fd Role.responder s.feed_id ip port s.config e).1.caller ≡ e.caller
      caller = new_connection-caller fd Role.responder s.feed_id ip port s.config e

      self : (fd == fd) ≡ true
      self = ground arith

  accept_new_connections-IsAccounted :
      (accepts : Accepts) (s : FeedSimulator) (e : Env Faults)
      → FreshAccepts accepts s e
      → IsAccounted chance s e
      → IsAccounted chance
          (accept_new_connections chance accepts s e).0
          (accept_new_connections chance accepts s e).1
  unfolding accept_new_connections FreshAccepts
  accept_new_connections-IsAccounted (accepted fd ip port added more) s e fresh h =
      let r = accept_client chance fd ip port added s e in
      accept_new_connections-IsAccounted more (r.0) (r.1) fresh.1
        (accept_client-IsAccounted fd ip port added s e fresh.0 h)
  accept_new_connections-IsAccounted (transient more) s e fresh h =
      accept_new_connections-IsAccounted more s e fresh h
  accept_new_connections-IsAccounted drained s e fresh h = h
  accept_new_connections-IsAccounted failed s e fresh h = h

  abbrev pub IsAccountedIn : {G : Type 0} → (FeedSimulator × Env Faults) × G → Type 0
  IsAccountedIn r = IsAccounted chance r.0.0 r.0.1

  module _ {G : Type 0} (on_line : OnLine G) where
    -- So it is in all of a run.
    unfoldable pub FreshEvents : ℤ → List Event → FeedSimulator → Env Faults → G → Type 0
    FreshEvents now [] s e g = Unit
    FreshEvents now (ev ∷ events) s e g =
        let r = dispatch chance on_line now ev s e g in
        FreshAccepts ev.accepts s (at_event ev e) × FreshEvents now events (r.0.0) (r.0.1) (r.1)

    unfoldable pub FreshRun : List Wakeup → FeedSimulator → Env Faults → G → Type 0
    FreshRun [] s e g = Unit
    FreshRun (Wakeup.interrupted ∷ wakeups) s e g = FreshRun wakeups s e g
    FreshRun (Wakeup.failed ∷ wakeups) s e g = Unit
    FreshRun (ready now events ∷ wakeups) s e g =
        let r = dispatch_all chance on_line now events s e g in
        FreshEvents now events s e g × FreshRun wakeups (r.0.0) (r.0.1) (r.1)

    module _
        (keeps : (line : Text) (r : (FeedSimulator × Env Faults) × G)
          → IsAccountedIn r
          → IsAccountedIn (on_line line r)) where
      on_command_fd_readable-IsAccounted :
          (fd : ℕ) (reads : Reads) (s : FeedSimulator) (e : Env Faults) (g : G)
          → IsAccounted chance s e
          → IsAccountedIn (on_command_fd_readable on_line fd reads s e g)
      unfolding on_command_fd_readable
      on_command_fd_readable-IsAccounted fd reads s e g h =
          let r = read_lines reads s.command_line_buffer in
          let kept = run_lines_rule on_line IsAccountedIn keeps r.0.0 ((s, e), g) h in
          elim (Bool-cases r.1) [ inl eof ↦ rw eof kept | inr more ↦ rw more kept ]

      dispatch-IsAccounted :
          (now : ℤ) (ev : Event) (s : FeedSimulator) (e : Env Faults) (g : G)
          → FreshAccepts ev.accepts s (at_event ev e)
          → IsAccounted chance s e
          → IsAccountedIn (dispatch chance on_line now ev s e g)
      unfolding dispatch
      dispatch-IsAccounted now ev s e g fresh h =
          let e' = at_event ev e in
          if_both IsAccountedIn (ev.fd == s.wake_fd) h (
            if_both IsAccountedIn (ev.fd == s.timer_fd) (on_timer_tick-IsAccounted chance s e' h) (
              if_both IsAccountedIn (ev.fd == s.listen_fd)
                (accept_new_connections-IsAccounted ev.accepts s e' fresh h)
                (if_both IsAccountedIn (elim s.command_fd [ none ↦ false | some fd ↦ ev.fd == fd ])
                  (on_command_fd_readable-IsAccounted ev.fd ev.reads s e' g h)
                  (handle_client_event-IsAccounted chance ev.fd ev.socket now s e' h))))

      dispatch_all-IsAccounted :
          (now : ℤ) (events : List Event) (s : FeedSimulator) (e : Env Faults) (g : G)
          → FreshEvents now events s e g
          → IsAccounted chance s e
          → IsAccountedIn (dispatch_all chance on_line now events s e g)
      unfolding dispatch_all FreshEvents
      dispatch_all-IsAccounted now [] s e g fresh h = h
      dispatch_all-IsAccounted now (ev ∷ events) s e g fresh h =
          let r = dispatch chance on_line now ev s e g in
          dispatch_all-IsAccounted now events (r.0.0) (r.0.1) (r.1) fresh.1
            (dispatch-IsAccounted now ev s e g fresh.0 h)

      pub run_loop-IsAccounted :
          (wakeups : List Wakeup) (s : FeedSimulator) (e : Env Faults) (g : G)
          → FreshRun wakeups s e g
          → IsAccounted chance s e
          → IsAccountedIn (run_loop chance on_line wakeups s e g)
      unfolding run_loop FreshRun
      run_loop-IsAccounted [] s e g fresh h = h
      run_loop-IsAccounted (Wakeup.interrupted ∷ wakeups) s e g fresh h =
          if_both IsAccountedIn s.stop_requested h (run_loop-IsAccounted wakeups s e g fresh h)
      run_loop-IsAccounted (Wakeup.failed ∷ wakeups) s e g fresh h = h
      run_loop-IsAccounted (ready now events ∷ wakeups) s e g fresh h =
          let r = dispatch_all chance on_line now events s e g in
          if_both IsAccountedIn s.stop_requested h (
            run_loop-IsAccounted wakeups (r.0.0) (r.0.1) (r.1) fresh.1
              (dispatch_all-IsAccounted now events s e g fresh.0 h))
