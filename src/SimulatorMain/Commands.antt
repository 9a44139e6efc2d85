-- ===== src/SimulatorMain/Commands.antt =====
-- The commands of the simulator's operator, and the flow of `main`.
use vigil_low_latency_tcp_he.Prelude.{ℕ, ◌||◌, Option, none, some, List, if◌then◌else◌}
use vigil_low_latency_tcp_he.Prelude.Double.{Double}
use vigil_low_latency_tcp_he.Prelude.Text.{Text, text, text_eq}
use vigil_low_latency_tcp_he.Config.{is_empty}
use vigil_low_latency_tcp_he.Connection.{Env}
use vigil_low_latency_tcp_he.CommandInput.{read_word}
use vigil_low_latency_tcp_he.FeedSimulator.{
  FeedSimulator, Faults, FaultConfig, Chance, Setup, Wakeup, new_feed_simulator, set_command_input,
  set_fault_config, kill_random_connection, stop, run,
}
use vigil_low_latency_tcp_he.SimulatorMain.Options.{
  SimulatorOption, Parsed, parse_options, initial_settings,
}

-- `read_double` is `>> double` on what the stream still holds. The last component is the variable
-- `faults` of `main`.
unfoldable pub run_command :
    Chance
    → (Text → Option Double)
    → Text
    → Text
    → (FeedSimulator × Env Faults) × FaultConfig
    → (FeedSimulator × Env Faults) × FaultConfig
run_command chance read_double cmd args ((s, e), faults) =
    if text_eq cmd (text "quit") || text_eq cmd (text "exit")
    then ((stop s, e), faults)
    else if text_eq cmd (text "kill")
    then (kill_random_connection chance s e, faults)
    else if text_eq cmd (text "set-drop-rate")
    then elim (read_double args) [
      | none ↦ ((s, e), faults)
      | some rate ↦
          let faults' = record faults { drop_probability = rate } in
          ((s, set_fault_config faults' e), faults')
    ]
    else ((s, e), faults)

unfoldable pub handle_command_line :
    Chance
    → (Text → Option Double)
    → Text
    → (FeedSimulator × Env Faults) × FaultConfig
    → (FeedSimulator × Env Faults) × FaultConfig
handle_command_line chance read_double line state =
    let (cmd, args) = read_word line in
    if is_empty cmd then state else run_command chance read_double cmd args state

-- How `main` ends: a status, a throw of the constructor, or the simulator behind the loop.
pub data Outcome : Type 0 where
  usage : (status : ℕ) → Outcome
  fatal : Outcome
  shut_down : FeedSimulator × Env Faults → Outcome

abbrev stdin_fileno : ℕ
stdin_fileno = 0

-- `setup port` are the results of the system calls where `port` is the one to listen on. The
-- interceptors' state in `e` is that of a simulator which has not run.
unfoldable pub main :
    Chance
    → (Text → Option Double)
    → (Text → Option Double)
    → List SimulatorOption
    → (ℕ → Setup)
    → List Wakeup
    → Env Faults
    → Outcome
main chance strtod read_double options setup wakeups e =
    elim (parse_options strtod options initial_settings) [
      | Parsed.exit status ↦ usage status
      | Parsed.proceed o ↦
          elim (new_feed_simulator o.feed_id o.config (setup o.port)
            (set_fault_config o.faults e)) [
              | none ↦ fatal
              | some (s, e') ↦
                  let ready = set_command_input stdin_fileno s e' in
                  shut_down
                    (run chance (handle_command_line chance read_double) wakeups (ready.0) (ready.1)
                      o.faults).0
            ]
    ]
