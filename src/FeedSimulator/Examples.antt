-- ===== src/FeedSimulator/Examples.antt =====
-- A simulator on concrete inputs, and the witnesses of its theorems.
use vigil_low_latency_tcp_he.Prelude.{◌++◌, arith}
use vigil_low_latency_tcp_he.Heartbeat.{MessageType, new_message, encode_heartbeat}
use vigil_low_latency_tcp_he.Connection.{on_readable, chunk, drained}
use vigil_low_latency_tcp_he.FeedSimulator.Types.{Chance, on_ping_intercept}
use vigil_low_latency_tcp_he.FeedSimulator.Deferral.{put_off, on_readable-deferred}
use vigil_low_latency_tcp_he.Prelude.{ℕ, ◌≡◌, refl, false, none, some, [], ◌∷◌, ◌*◌}
use vigil_low_latency_tcp_he.Prelude.Int.{pos}
use vigil_low_latency_tcp_he.Prelude.Double.{decimal}
use vigil_low_latency_tcp_he.Prelude.Text.{text}
use vigil_low_latency_tcp_he.Config.{default_config}
use vigil_low_latency_tcp_he.Connection.{
  Connection, ConnectionState, Env, Role, Recvs, new_connection,
}
use vigil_low_latency_tcp_he.FeedMonitor.{SocketEvent}
use vigil_low_latency_tcp_he.FeedSimulator.Types.{
  FeedSimulator, Faults, FaultConfig, PendingReply, find_client, put_client,
}
use vigil_low_latency_tcp_he.FeedSimulator.Clients.{
  handle_client_event, client_event, on_timer_tick, time_out_clients,
}
use vigil_low_latency_tcp_he.FeedSimulator.Ticks.{waiting_replies, on_timer_tick-waiting}

abbrev slow : FaultConfig
slow = record { drop_probability = decimal 0 0; extra_latency = pos 50; jitter = false }

abbrev reply : ℕ → ℕ → PendingReply
reply fd sequence = record {
  fire_at_ns = pos (100 * sequence);
  fd = fd;
  sequence = sequence;
  timestamp_ns = pos 1;
}

-- Two replies wait; the first is due.
abbrev an_env : Env Faults
an_env = record {
  sends = [];
  sent = [];
  clock = pos 150;
  calls = [];
  caller = record {
    config = slow;
    pending_replies = reply 9 1 ∷ reply 9 2 ∷ [];
    draws = 0;
    clock = pos 150;
  };
}

abbrev a_client : Connection Faults
a_client =
    record ((new_connection 9 Role.responder 7 (text "127.0.0.1") 9001 default_config an_env).0) {
      state = ConnectionState.healthy;
      last_liveness_ns = pos 140;
    }

abbrev a_simulator : FeedSimulator
a_simulator = record {
  listen_fd = 6;
  wake_fd = 5;
  timer_fd = 4;
  bound_port = 9001;
  feed_id = 7;
  config = default_config;
  clients = (9, a_client) ∷ [];
  command_fd = none;
  command_line_buffer = [];
  stop_requested = false;
  event_batch_size = pos 256;
}

abbrev nothing_read : SocketEvent
nothing_read = record {
  hangup = false;
  writable = false;
  readable = false;
  so_error = 0;
  recvs = Recvs.drained;
}

still_there :
    find_client 9 (handle_client_event 9 nothing_read (pos 150) a_simulator an_env).0.clients
    ≡ some a_client
unfolding handle_client_event client_event find_client put_client
still_there = refl

on_timer_tick-waiting_example :
    (on_timer_tick a_simulator an_env).1.caller.pending_replies
    ≡ waiting_replies
        (pos 150)
        (time_out_clients a_simulator (pos 150) a_simulator.clients).1
        (reply 9 1 ∷ reply 9 2 ∷ [])
on_timer_tick-waiting_example = on_timer_tick-waiting a_simulator an_env

abbrev no_chance : Chance
no_chance = record {
  positive = λ d. false;
  below = λ n d. false;
  scale = λ n delay. delay;
  pick = λ n count. 0;
}

abbrev slow_client : Connection Faults
slow_client = record a_client { ping_interceptor = some (on_ping_intercept no_chance 9) }

on_readable-deferred_example :
    on_readable default_config
      (pos 150)
      (chunk (encode_heartbeat (new_message MessageType.ping 7 3 (pos 149))) drained)
      slow_client
      an_env
    ≡ (
      record slow_client { last_liveness_ns = pos 150; read_accum = [] },
      record an_env {
        caller = record (an_env.caller) {
          pending_replies =
              an_env.caller.pending_replies ++ put_off 9 3 (pos 149) an_env.caller ∷ [];
        };
      },
    )
unfolding new_connection
on_readable-deferred_example =
    on_readable-deferred no_chance 9 default_config (pos 150) slow_client an_env 7 3 (pos 149)
      (omega arith) (omega arith) (omega arith) refl refl refl refl refl (omega arith) refl
