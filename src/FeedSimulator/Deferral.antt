-- ===== src/FeedSimulator/Deferral.antt =====
-- A PING at a slow exchange: the answer is put off.
use vigil_low_latency_tcp_he.Prelude.{
  ℕ, ◌^◌, ◌<◌, ◌≡◌, refl, ◌∙◌, true, false, some, [], ◌∷◌, ◌++◌, arith,
}
use vigil_low_latency_tcp_he.Prelude.Int.{ℤ, pos, ◌+ℤ◌, ◌<ℤ◌, ltb_ℤ}
use vigil_low_latency_tcp_he.Heartbeat.{
  HeartbeatMessage, MessageType, message_type, new_message, encode_heartbeat,
}
use vigil_low_latency_tcp_he.Heartbeat.Words.{IsInt64}
use vigil_low_latency_tcp_he.Heartbeat.Codec.{checked}
use vigil_low_latency_tcp_he.Config.{Config, to_nanoseconds}
use vigil_low_latency_tcp_he.Connection.{
  Connection, ConnectionState, Role, Env, chunk, drained, handle_message, handle_ping, answer_ping,
  on_readable,
}
use vigil_low_latency_tcp_he.Connection.Frames.{on_readable-frame}
use vigil_low_latency_tcp_he.Connection.Session.{new_message-IsMessage}
use vigil_low_latency_tcp_he.FeedSimulator.Types.{
  Faults, PendingReply, Chance, defer_reply, on_ping_intercept,
}

-- The reply that is due when the latency is over.
abbrev pub put_off : ℕ → ℕ → ℤ → Faults → PendingReply
put_off fd sequence timestamp_ns f = record {
  fire_at_ns = f.clock +ℤ to_nanoseconds f.config.extra_latency;
  fd = fd;
  sequence = sequence;
  timestamp_ns = timestamp_ns;
}

module _ (chance : Chance) (fd : ℕ) where
  on_ping_intercept-deferred :
      (f : Faults) (sequence : ℕ) (timestamp_ns : ℤ)
      → chance.positive f.config.drop_probability ≡ false
      → pos 0 <ℤ f.config.extra_latency
      → f.config.jitter ≡ false
      → on_ping_intercept chance fd f sequence timestamp_ns ≡ (
        record f { pending_replies = f.pending_replies ++ put_off fd sequence timestamp_ns f ∷ [] },
        false,
      )
  unfolding on_ping_intercept defer_reply
  on_ping_intercept-deferred f sequence timestamp_ns lucky slow steady =
      let late : ltb_ℤ (pos 0) f.config.extra_latency ≡ true = ground (arith, slow) in
      rw (lucky, late, steady) refl

  module _ (config : Config) (now : ℤ) where
    handle_ping-deferred :
        (c : Connection Faults) (e : Env Faults) (m : HeartbeatMessage)
        → c.role ≡ Role.responder
        → c.state ≡ ConnectionState.healthy
        → c.ping_interceptor ≡ some (on_ping_intercept chance fd)
        → chance.positive e.caller.config.drop_probability ≡ false
        → pos 0 <ℤ e.caller.config.extra_latency
        → e.caller.config.jitter ≡ false
        → handle_ping c e m now ≡ (
          record c { last_liveness_ns = now },
          record e {
            caller = record (e.caller) {
              pending_replies =
                  e.caller.pending_replies ++ put_off fd m.sequence m.timestamp_ns e.caller ∷ [];
            };
          },
        )
    unfolding handle_ping answer_ping
    handle_ping-deferred c e m role state i lucky slow steady =
        rw
          (
            role,
            state,
            i,
            on_ping_intercept-deferred e.caller m.sequence m.timestamp_ns lucky slow steady,
          )
          refl

    -- Take a healthy client with nothing buffered, whose interceptor defers replies under `fd`, while no
    -- reply is dropped, the latency is positive and there is no jitter. When a valid PING arrives alone,
    -- nothing is written: the time of the last sign of life is now, and one reply with the PING's sequence
    -- and timestamp waits behind the others, due when the latency is over. Nothing else changes.
    pub on_readable-deferred :
        (c : Connection Faults) (e : Env Faults) (feed sequence : ℕ) (sent_at : ℤ)
        → feed < 2 ^ 32
        → sequence < 2 ^ 64
        → IsInt64 sent_at
        → c.role ≡ Role.responder
        → c.state ≡ ConnectionState.healthy
        → c.ping_interceptor ≡ some (on_ping_intercept chance fd)
        → c.read_accum ≡ []
        → chance.positive e.caller.config.drop_probability ≡ false
        → pos 0 <ℤ e.caller.config.extra_latency
        → e.caller.config.jitter ≡ false
        → on_readable config now
            (chunk (encode_heartbeat (new_message MessageType.ping feed sequence sent_at)) drained)
            c
            e
          ≡ (
            record c { last_liveness_ns = now; read_accum = [] },
            record e {
              caller = record (e.caller) {
                pending_replies =
                    e.caller.pending_replies ++ put_off fd sequence sent_at e.caller ∷ [];
              };
            },
          )
    unfolding handle_message message_type
    on_readable-deferred c e feed sequence sent_at hf hs ht role state i idle lucky slow steady =
        let m = new_message MessageType.ping feed sequence sent_at in
        let d : Connection Faults = record c { read_accum = encode_heartbeat m } in
        on_readable-frame config now m
          (new_message-IsMessage MessageType.ping feed sequence sent_at hf hs ht) c e idle
        ∙ rw (handle_ping-deferred d e (checked m) role state i lucky slow steady) refl
