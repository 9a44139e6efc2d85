-- ===== src/SimulatorMain/Examples.antt =====
-- The simulator's start and one session of it on concrete inputs, and the witnesses of its theorems.
use vigil_low_latency_tcp_he.Prelude.{ℕ, ◌≡◌, refl, true, false, Option, none, some, List, [], ◌∷◌}
use vigil_low_latency_tcp_he.Prelude.Int.{pos}
use vigil_low_latency_tcp_he.Prelude.Double.{Double, decimal}
use vigil_low_latency_tcp_he.Prelude.Text.{Text, text}
use vigil_low_latency_tcp_he.Config.{default_config}
use vigil_low_latency_tcp_he.Heartbeat.{MessageType, new_message, encode_heartbeat}
use vigil_low_latency_tcp_he.Connection.{Env, Recvs}
use vigil_low_latency_tcp_he.CommandInput.{Reads}
use vigil_low_latency_tcp_he.FeedSimulator.{
  FeedSimulator, Faults, FaultConfig, Chance, Setup, Event, Wakeup, ready, Accepts, find_client,
  empty_simulator, new_feed_simulator, set_command_input, run,
}
use vigil_low_latency_tcp_he.FeedSimulator.Runs.{FreshRun, FreshEvents, FreshAccepts, IsAccountedIn}
use vigil_low_latency_tcp_he.SimulatorMain.Options.{
  SimulatorOption, parse_options, initial_settings,
}
use vigil_low_latency_tcp_he.SimulatorMain.Commands.{handle_command_line}
use vigil_low_latency_tcp_he.SimulatorMain.Session.{session-IsAccounted}
use vigil_low_latency_tcp_he.SimulatorMain.Verdict.{IsVerdict, last_port, parse_options_lem}

abbrev a_half : Text → Option Double
a_half s = some (decimal 5 1)

-- Two ports are given, and the last, which does not fit, is cut to its low 16 bits.
abbrev big_port : List SimulatorOption
big_port =
    SimulatorOption.port (text " 9001")
    ∷ SimulatorOption.drop_rate (text "0.5")
    ∷ SimulatorOption.feed_id (text "+7")
    ∷ SimulatorOption.port (text "70000")
    ∷ []

parse_options_lem_example :
    IsVerdict a_half
      (last_port none big_port)
      big_port
      (parse_options a_half big_port initial_settings)
parse_options_lem_example = parse_options_lem a_half big_port

abbrev no_chance : Chance
no_chance = record {
  positive = λ d. false;
  below = λ n d. false;
  scale = λ n delay. delay;
  pick = λ n count. 0;
}

abbrev slow : FaultConfig
slow = record { drop_probability = decimal 0 0; extra_latency = pos 50; jitter = false }

abbrev an_env : Env Faults
an_env = record {
  sends = [];
  sent = [];
  clock = pos 5;
  calls = [];
  caller = record { config = slow; pending_replies = []; draws = 0; clock = pos 5 };
}

abbrev a_setup : Setup
a_setup = record {
  listen_fd = some 6;
  bound = true;
  listening = true;
  bound_port = 9001;
  epoll_fd = some 3;
  wake_fd = some 5;
  timer_fd = some 4;
  listen_added = true;
  wake_added = true;
  timer_added = true;
}

abbrev built : FeedSimulator × Env Faults
built = elim (new_feed_simulator 7 default_config a_setup an_env) [
  | none ↦ (empty_simulator 7 default_config 9001 6 5 4, an_env)
  | some made ↦ made
]

built_lem : new_feed_simulator 7 default_config a_setup an_env ≡ some (built.0, built.1)
unfolding new_feed_simulator
built_lem = refl

abbrev event_on : ℕ → Accepts → Recvs → Event
event_on fd accepts recvs = record {
  fd = fd;
  socket = record {
    hangup = false;
    writable = false;
    readable = true;
    so_error = 0;
    recvs = recvs;
  };
  accepts = accepts;
  reads = Reads.drained;
  sends = [];
  clock = pos 6;
}

abbrev frame : MessageType → List ℕ
frame type = encode_heartbeat (new_message type 7 0 (pos 1))

-- A client comes, says hello and is asked for a reply, which waits.
abbrev a_session : List Wakeup
a_session =
    ready (pos 6) (
      event_on 6 (Accepts.accepted 9 (text "127.0.0.1") 4000 true Accepts.drained) Recvs.drained
      ∷ [])
    ∷ ready (pos 7) (
        event_on 9 Accepts.drained (Recvs.chunk (frame MessageType.connect_hello) Recvs.drained)
        ∷ event_on 9 Accepts.drained (Recvs.chunk (frame MessageType.ping) Recvs.drained)
        ∷ [])
    ∷ []

session-IsAccounted_example : IsAccountedIn no_chance (
    run no_chance
      (handle_command_line no_chance a_half)
      a_session
      (set_command_input 0 (built.0) (built.1)).0
      (set_command_input 0 (built.0) (built.1)).1
      slow)
unfolding FreshRun FreshEvents FreshAccepts new_feed_simulator set_command_input find_client
session-IsAccounted_example =
    session-IsAccounted no_chance a_half 7 default_config a_setup an_env (built.0) (built.1) 0
      a_session slow built_lem refl (((refl, tt), tt), ((tt, (tt, tt)), tt))
