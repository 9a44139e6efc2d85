-- ===== src/SimulatorMain/Session.antt =====
-- The simulator from its construction to the end of its run, with its operator's commands.
use vigil_low_latency_tcp_he.Prelude.{
  ℕ, ◌≡◌, ◌||◌, Option, none, some, List, [], arith, if_both, false,
}
use vigil_low_latency_tcp_he.Prelude.Double.{Double}
use vigil_low_latency_tcp_he.Prelude.Text.{Text, text, text_eq}
use vigil_low_latency_tcp_he.Config.{Config, is_empty}
use vigil_low_latency_tcp_he.Connection.{Env}
use vigil_low_latency_tcp_he.CommandInput.{read_word}
use vigil_low_latency_tcp_he.FeedSimulator.{
  FeedSimulator, Faults, FaultConfig, Chance, Setup, Wakeup, new_feed_simulator, set_command_input,
  set_fault_config, stop, run,
}
use vigil_low_latency_tcp_he.FeedSimulator.Replies.{IsAccounted}
use vigil_low_latency_tcp_he.FeedSimulator.DueReplies.{kill_random_connection-IsAccounted}
use vigil_low_latency_tcp_he.FeedSimulator.Runs.{FreshRun, IsAccountedIn, run_loop-IsAccounted}
use vigil_low_latency_tcp_he.SimulatorMain.Commands.{run_command, handle_command_line}

module _ (chance : Chance) (read_double : Text → Option Double) where
  run_command-IsAccounted :
      (cmd args : Text) (s : FeedSimulator) (e : Env Faults) (faults : FaultConfig)
      → IsAccounted chance s e
      → IsAccountedIn chance (run_command chance read_double cmd args ((s, e), faults))
  unfolding run_command stop set_fault_config
  run_command-IsAccounted cmd args s e faults h =
      if_both P (text_eq cmd (text "quit") || text_eq cmd (text "exit")) h (
        if_both P (text_eq cmd (text "kill")) (kill_random_connection-IsAccounted chance s e h)
          (if_both P (text_eq cmd (text "set-drop-rate")) (set_rate (read_double args)) h))
    where
      P : (FeedSimulator × Env Faults) × FaultConfig → Type 0
      P r = IsAccounted chance r.0.0 r.0.1

      set_rate :
          (rate : Option Double)
          → P (elim rate [
            | none ↦ ((s, e), faults)
            | some rate ↦
                let faults' = record faults { drop_probability = rate } in
                ((s, set_fault_config faults' e), faults')
          ])
      set_rate none = h
      set_rate (some rate) = h

  handle_command_line-IsAccounted :
      (line : Text) (r : (FeedSimulator × Env Faults) × FaultConfig)
      → IsAccountedIn chance r
      → IsAccountedIn chance (handle_command_line chance read_double line r)
  unfolding handle_command_line
  handle_command_line-IsAccounted line ((s, e), faults) h =
      let w = read_word line in
      if_both (IsAccountedIn chance) (is_empty (w.0)) h
        (run_command-IsAccounted (w.0) (w.1) s e faults h)

  new_feed_simulator-clients :
      (feed_id : ℕ) (config : Config) (setup : Setup) (e : Env Faults)
      (made : FeedSimulator × Env Faults)
      → new_feed_simulator feed_id config setup e ≡ some made
      → (made.0.clients ≡ []) × (made.1.caller ≡ e.caller)
  unfolding new_feed_simulator
  new_feed_simulator-clients feed_id config setup e made h = ground (arith, h)

  -- Take a simulator from its construction, with no reply waiting, and let it read commands from a
  -- descriptor and run: any clients, events, ticks, faults and command lines, in any order. If the kernel
  -- never hands out a descriptor that a client still holds, then in the state that the run leaves every
  -- waiting reply belongs to a client that is still there, and every client's interceptor defers replies
  -- under that client's own descriptor.
  pub session-IsAccounted :
      (feed_id : ℕ) (config : Config) (setup : Setup) (e : Env Faults) (s : FeedSimulator)
      (e' : Env Faults) (command_fd : ℕ) (wakeups : List Wakeup) (faults : FaultConfig)
      → new_feed_simulator feed_id config setup e ≡ some (s, e')
      → e.caller.pending_replies ≡ []
      → FreshRun chance
          (handle_command_line chance read_double)
          wakeups
          (record ((set_command_input command_fd s e').0) { stop_requested = false })
          (set_command_input command_fd s e').1
          faults
      → IsAccountedIn chance (
          run chance
            (handle_command_line chance read_double)
            wakeups
            (set_command_input command_fd s e').0
            (set_command_input command_fd s e').1
            faults)
  unfolding run set_command_input
  session-IsAccounted feed_id config setup e s e' command_fd wakeups faults made none_waits fresh =
      let empty = new_feed_simulator-clients feed_id config setup e (s, e') made in
      let ready = set_command_input command_fd s e' in
      run_loop-IsAccounted chance (handle_command_line chance read_double)
        handle_command_line-IsAccounted wakeups (record (ready.0) { stop_requested = false })
        (ready.1) faults fresh (rw (empty.0, empty.1, none_waits) (tt, tt))
