-- ===== src/Connection/Examples.antt =====
-- Runs of a connection on concrete inputs, and the witnesses of its theorems.
use vigil_low_latency_tcp_he.Prelude.{
  take, drop, length-append, length-take, length-drop, ◌++◌, if◌then◌else◌,
}
use vigil_low_latency_tcp_he.Heartbeat.Codec.{length-encode_heartbeat}
use vigil_low_latency_tcp_he.Connection.Framing.{on_readable-append}
use vigil_low_latency_tcp_he.Prelude.{
  ℕ, ◌≡◌, refl, List, [], ◌∷◌, arith, some, replicate, false, inl, none, true, inr, ◌⊎◌, ◌≢◌,
}
use vigil_low_latency_tcp_he.Prelude.Int.{ℤ, pos, ◌*ℤ◌, ◌+ℤ◌, ◌-ℤ◌}
use vigil_low_latency_tcp_he.Config.{default_config, to_nanoseconds}
use vigil_low_latency_tcp_he.Heartbeat.{MessageType, new_message, encode_heartbeat}
use vigil_low_latency_tcp_he.Connection.Types.{
  Connection, ConnectionState, Role, Env, new_connection, accepted, chunk, send_error, drained,
  is_failed,
}
use vigil_low_latency_tcp_he.Stats.{new_stats, record_pong_received}
use vigil_low_latency_tcp_he.Connection.Output.{queue_write}
use vigil_low_latency_tcp_he.Connection.Handlers.{has_acked_sequence, contains, is_stale}
use vigil_low_latency_tcp_he.Connection.Events.{on_readable}
use vigil_low_latency_tcp_he.Connection.Outgoing.{
  stream, queue_write-stream, IsBounded, queue_write-IsBounded,
}
use vigil_low_latency_tcp_he.Connection.Liveness.{
  checks, alerts_once, checks_of_silence, checks_in_time,
}
use vigil_low_latency_tcp_he.Connection.Lifecycle.{
  Moment, live, Onward, is_own, live-own, live-Onward, readable, ping, timeout, hangup,
}
use vigil_low_latency_tcp_he.Connection.Replies.{HasWindow, on_readable-pong_twice}
use vigil_low_latency_tcp_he.Connection.Session.{
  on_readable-ping, on_readable-pong, on_readable-connect_hello, on_readable-connect_ack,
}

abbrev an_env : Env Unit
an_env = record { sends = accepted 28 ∷ []; sent = []; clock = pos 5; calls = []; caller = tt }

-- An initiator that has just connected, and the peer that accepted it.
abbrev initiator_in : ConnectionState → Connection Unit
initiator_in s = record {
  fd = some 7;
  role = Role.initiator;
  feed_id = 1;
  host = [];
  port = 9000;
  state = s;
  state_entered_ns = pos 0;
  next_sequence = 4;
  consecutive_missed = pos 0;
  last_liveness_ns = pos 1000;
  acked_sequences = 3 ∷ replicate 31 0;
  acked_sequences_count = 1;
  acked_sequences_next = 1;
  read_accum = [];
  write_pending = [];
  stats = new_stats;
  ping_interceptor = none;
}

abbrev responder_in : ConnectionState → Connection Unit
responder_in s = record (initiator_in s) {
  role = Role.responder;
  acked_sequences_count = 0;
  acked_sequences_next = 0;
}

seconds_3 : to_nanoseconds default_config.heartbeat_timeout ≡ pos 3000000000
unfolding default_config to_nanoseconds ◌*ℤ◌
seconds_3 = refl

three_misses : default_config.max_missed_heartbeats ≡ pos 3
unfolding default_config
three_misses = refl

-- Three checks at and behind the ninth second of silence.
abbrev late_times : List ℤ
late_times = pos 9000001000 ∷ pos 9000002000 ∷ pos 12000000000 ∷ []

checks_of_silence_example :
    ((checks default_config late_times (initiator_in ConnectionState.healthy)).0 ≡ alerts_once 3)
    × ((checks default_config late_times (initiator_in ConnectionState.healthy)).1.state
        ≡ ConnectionState.failed)
unfolding ◌+ℤ◌
checks_of_silence_example =
    checks_of_silence default_config 3000000000 3 late_times (initiator_in ConnectionState.healthy)
      seconds_3 three_misses (omega arith) refl (inl refl) refl refl (ground arith)

checks_in_time_example :
    ((checks default_config
        (pos 1001 ∷ pos 3000000999 ∷ [])
        (initiator_in ConnectionState.healthy)).0
      ≡ replicate 2 false)
    × ((checks default_config
          (pos 1001 ∷ pos 3000000999 ∷ [])
          (initiator_in ConnectionState.healthy)).1
        ≡ initiator_in ConnectionState.healthy)
unfolding ◌+ℤ◌
checks_in_time_example =
    checks_in_time default_config 3000000000 (pos 1001 ∷ pos 3000000999 ∷ [])
      (initiator_in ConnectionState.healthy) seconds_3 (inl refl) (ground arith)

queue_write-stream_example :
    stream (queue_write (initiator_in ConnectionState.healthy) an_env (1 ∷ 2 ∷ 3 ∷ []))
    ≡ 1 ∷ 2 ∷ 3 ∷ []
queue_write-stream_example =
    queue_write-stream (initiator_in ConnectionState.healthy) an_env (1 ∷ 2 ∷ 3 ∷ [])

queue_write-IsBounded_example :
    IsBounded (queue_write (initiator_in ConnectionState.healthy) an_env (1 ∷ 2 ∷ 3 ∷ [])).0
queue_write-IsBounded_example =
    queue_write-IsBounded (initiator_in ConnectionState.healthy) an_env (1 ∷ 2 ∷ 3 ∷ [])

abbrev frame : MessageType → List ℕ
frame t = encode_heartbeat (new_message t 1 3 (pos 1500))

-- A run of calls: the answer to the handshake, a PING, a silent peer, and a hangup.
abbrev a_life : List Moment
a_life =
    record {
      call = readable (chunk (frame MessageType.connect_ack) drained);
      config = default_config;
      now_ns = pos 2000;
      sends = [];
      clock = pos 2000;
    }
    ∷ record {
      call = ping;
      config = default_config;
      now_ns = pos 3000;
      sends = accepted 28 ∷ [];
      clock = pos 3000;
    }
    ∷ record {
      call = timeout;
      config = default_config;
      now_ns = pos 4000000000;
      sends = [];
      clock = pos 4000000000;
    }
    ∷ record {
      call = hangup;
      config = default_config;
      now_ns = pos 4000000001;
      sends = [];
      clock = pos 4000000001;
    }
    ∷ []

live-own_example :
    is_own Role.initiator
      (live a_life
        (new_connection 7 Role.initiator 1 [] 9000 default_config an_env).0
        (new_connection 7 Role.initiator 1 [] 9000 default_config an_env).1).0.state
    ≡ true
live-own_example = live-own 7 Role.initiator 1 [] 9000 default_config a_life an_env

live-Onward_example :
    Onward
      (initiator_in ConnectionState.handshaking)
      (live a_life (initiator_in ConnectionState.handshaking) an_env).0
live-Onward_example = live-Onward a_life (initiator_in ConnectionState.handshaking) an_env

on_readable-ping_example :
    let r =
      on_readable default_config
        (pos 2000)
        (chunk (frame MessageType.ping) drained)
        (responder_in ConnectionState.healthy)
        an_env in
    (stream r ≡ frame MessageType.pong) × ((r.0).last_liveness_ns ≡ pos 2000)
on_readable-ping_example =
    on_readable-ping default_config (responder_in ConnectionState.healthy) an_env 1 3 (pos 1500)
      (pos 2000) (omega arith) (omega arith) (omega arith) refl refl refl refl

fresh_reply : is_stale default_config (pos 2000 -ℤ pos 1400) ≡ false
unfolding default_config to_nanoseconds ◌*ℤ◌ ◌-ℤ◌ ◌+ℤ◌
fresh_reply = refl

on_readable-pong_example :
    let (d, f) =
      on_readable default_config
        (pos 2000)
        (chunk (encode_heartbeat (new_message MessageType.pong 1 4 (pos 1400))) drained)
        (initiator_in ConnectionState.degraded)
        an_env in
    (d.state ≡ ConnectionState.healthy)
    × (d.consecutive_missed ≡ pos 0)
    × (d.last_liveness_ns ≡ pos 2000)
    × (d.stats ≡ record_pong_received new_stats (pos 2000 -ℤ pos 1400))
    × (f ≡ an_env)
unfolding has_acked_sequence contains
on_readable-pong_example =
    on_readable-pong default_config (initiator_in ConnectionState.degraded) an_env 1 4 (pos 1400)
      (pos 2000) (omega arith) (omega arith) (omega arith) refl (inr refl) refl refl fresh_reply

initiator-HasWindow : HasWindow (initiator_in ConnectionState.degraded)
initiator-HasWindow = record {
  size = refl;
  next_in = omega arith;
  count_in = omega arith;
  filling = λ h. refl;
}

-- The reply to the fourth PING arrives twice, with another timestamp the second time.
on_readable-pong_twice_example :
    let r =
      on_readable default_config
        (pos 2000)
        (chunk (encode_heartbeat (new_message MessageType.pong 1 4 (pos 1400))) drained)
        (initiator_in ConnectionState.degraded)
        an_env in
    HasWindow (r.0)
    × (on_readable default_config
          (pos 2300)
          (chunk (encode_heartbeat (new_message MessageType.pong 2 4 (pos 2200))) drained)
          (r.0)
          (r.1)
        ≡ r)
on_readable-pong_twice_example =
    on_readable-pong_twice default_config (initiator_in ConnectionState.degraded) an_env 1 2 4
      (pos 1400) (pos 2200) (pos 2000) (pos 2300) (omega arith) (omega arith) (omega arith)
      (omega arith) (omega arith) refl (inr refl) refl initiator-HasWindow

-- The socket is broken when the answer is written.
abbrev broken_env : Env Unit
broken_env = record an_env { sends = send_error 32 ∷ [] }

on_readable-connect_hello_example :
    let r =
      on_readable default_config
        (pos 2000)
        (chunk (frame MessageType.connect_hello) drained)
        (responder_in ConnectionState.handshaking)
        broken_env in
    ((r.0).state ≡ ConnectionState.healthy)
    × ((r.0).last_liveness_ns ≡ pos 2000)
    × ((r.0).stats.connected_since_ns ≡ pos 2000)
    × (stream r ≡ encode_heartbeat (new_message MessageType.connect_ack 1 0 (pos 2000)))
on_readable-connect_hello_example =
    on_readable-connect_hello default_config (responder_in ConnectionState.handshaking) broken_env 1
      3 (pos 1500) (pos 2000) (omega arith) (omega arith) (omega arith) refl refl refl refl

abbrev own : ℕ
own = 1

on_readable-connect_ack_example :
    let (d, f) =
      on_readable default_config
        (pos 2000)
        (chunk (frame MessageType.connect_ack) drained)
        (initiator_in ConnectionState.handshaking)
        an_env in
    (f ≡ an_env)
    × (((own ≡ 1)
          × (d.state ≡ ConnectionState.healthy)
          × (d.last_liveness_ns ≡ pos 2000)
          × (d.stats.connected_since_ns ≡ pos 2000))
        ⊎ ((own ≢ 1) × (d.state ≡ ConnectionState.failed)))
on_readable-connect_ack_example =
    on_readable-connect_ack default_config (initiator_in ConnectionState.handshaking) an_env 1 3
      (pos 1500) (pos 2000) (omega arith) (omega arith) (omega arith) refl refl refl

-- A PING that is cut in its tenth byte.
abbrev first_part : List ℕ
first_part = take 10 (frame MessageType.ping)

abbrev second_part : List ℕ
second_part = drop 10 (frame MessageType.ping)

on_readable-append_example :
    let c = responder_in ConnectionState.healthy in
    let r = on_readable default_config (pos 2000) (chunk first_part drained) c an_env in
    on_readable default_config (pos 2000) (chunk (first_part ++ second_part) drained) c an_env ≡ (
      if is_failed r.0.state
      then r
      else on_readable default_config (pos 2000) (chunk second_part drained) (r.0) (r.1))
on_readable-append_example =
    on_readable-append default_config (pos 2000) (responder_in ConnectionState.healthy) an_env
      first_part second_part refl
      (omega (
        arith,
        length-append first_part second_part,
        length-take 10 (frame MessageType.ping),
        length-drop 10 (frame MessageType.ping),
        length-encode_heartbeat (new_message MessageType.ping 1 3 (pos 1500)),
      ))
