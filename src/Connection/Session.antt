-- ===== src/Connection/Session.antt =====
-- Both ends together: the handshake and the heartbeat, frame by frame.
use native.Mathlib.Decide.{ℕ_discrete}
use vigil_low_latency_tcp_he.Prelude.{
  ℕ, ◌^◌, ◌<◌, ◌≡◌, refl, ap, ◌≢◌, ◌⊎◌, inl, inr, true, false, none, [], ◌++◌, arith,
}
use vigil_low_latency_tcp_he.Prelude.Int.{ℤ, pos, ◌-ℤ◌}
use vigil_low_latency_tcp_he.Heartbeat.{
  HeartbeatMessage, MessageType, new_message, type_code, message_type, is_known_message_type,
  encode_heartbeat, HeartbeatMessage,
}
use vigil_low_latency_tcp_he.Heartbeat.Words.{IsInt64}
use vigil_low_latency_tcp_he.Heartbeat.Codec.{IsMessage, checked}
use vigil_low_latency_tcp_he.Config.{Config}
use vigil_low_latency_tcp_he.Stats.{record_pong_received}
use vigil_low_latency_tcp_he.Connection.Types.{
  Connection, ConnectionState, Role, Env, chunk, drained, transition_to, handle_protocol_violation,
}
use vigil_low_latency_tcp_he.Connection.Output.{queue_write}
use vigil_low_latency_tcp_he.Connection.Handlers.{
  handle_message, handle_ping, answer_ping, send_pong, handle_pong, has_acked_sequence,
  remember_acked_sequence, handle_connect_hello, handle_connect_ack, is_stale,
}
use vigil_low_latency_tcp_he.Connection.Events.{on_readable}
use vigil_low_latency_tcp_he.Connection.Outgoing.{stream, queue_write-stream, queue_write-IsWritten}
use vigil_low_latency_tcp_he.Connection.Frames.{on_readable-frame}
use vigil_low_latency_tcp_he.Connection.Liveness.{IsLive}

pub new_message-IsMessage :
    (t : MessageType) (feed sequence : ℕ) (timestamp : ℤ)
    → feed < 2 ^ 32
    → sequence < 2 ^ 64
    → IsInt64 timestamp
    → IsMessage (new_message t feed sequence timestamp)
new_message-IsMessage t feed sequence timestamp hf hs ht = record {
  magic_ok = refl;
  version_ok = refl;
  type_ok = known t;
  feed_id_fits = hf;
  sequence_fits = hs;
  timestamp_fits = ht;
}
  where
    known : (t : MessageType) → is_known_message_type (type_code t) ≡ true
    known MessageType.connect_hello = unfold is_known_message_type in refl
    known MessageType.connect_ack = unfold is_known_message_type in refl
    known MessageType.ping = unfold is_known_message_type in refl
    known MessageType.pong = unfold is_known_message_type in refl
    known MessageType.disconnect = unfold is_known_message_type in refl

module _ {S : Type 0} (config : Config) where
  handle_ping_replies :
      (now : ℤ) (c : Connection S) (f : Env S) (m : HeartbeatMessage)
      → c.role ≡ Role.responder
      → c.state ≡ ConnectionState.healthy
      → c.ping_interceptor ≡ none
      → handle_ping c f m now
        ≡ queue_write
            (record c { last_liveness_ns = now })
            f
            (encode_heartbeat (new_message MessageType.pong c.feed_id m.sequence m.timestamp_ns))
  unfolding handle_ping answer_ping send_pong
  handle_ping_replies now c f m r s i = rw (r, s, i)

  pinged :
      (now : ℤ) (c : Connection S) (f : Env S) (m : HeartbeatMessage)
      → c.role ≡ Role.responder
      → c.state ≡ ConnectionState.healthy
      → c.ping_interceptor ≡ none
      → (stream (handle_ping c f m now)
          ≡ stream (c, f)
            ++ encode_heartbeat (new_message MessageType.pong c.feed_id m.sequence m.timestamp_ns))
        × ((handle_ping c f m now).0.last_liveness_ns ≡ now)
  pinged now c f m r s i =
      let d : Connection S = record c { last_liveness_ns = now } in
      let wire =
        encode_heartbeat (new_message MessageType.pong c.feed_id m.sequence m.timestamp_ns) in
      rw (handle_ping_replies now c f m r s i) (
        queue_write-stream d f wire,
        ap (λ (x : Connection S). x.last_liveness_ns) (queue_write-IsWritten d f wire).rest_ok,
      )

  -- When a valid PING arrives alone at a healthy responder without an interceptor and with nothing
  -- buffered, one PONG that echoes its sequence and timestamp is appended to what it writes, and the time
  -- of the last sign of life is now.
  pub on_readable-ping :
      (b : Connection S) (e : Env S) (feed sequence : ℕ) (sent_at now : ℤ)
      → feed < 2 ^ 32
      → sequence < 2 ^ 64
      → IsInt64 sent_at
      → b.role ≡ Role.responder
      → b.state ≡ ConnectionState.healthy
      → b.ping_interceptor ≡ none
      → b.read_accum ≡ []
      → let r =
          on_readable config now
            (chunk (encode_heartbeat (new_message MessageType.ping feed sequence sent_at)) drained)
            b
            e in
        (stream r
          ≡ stream (b, e)
            ++ encode_heartbeat (new_message MessageType.pong b.feed_id sequence sent_at))
        × ((r.0).last_liveness_ns ≡ now)
  unfolding handle_message handle_ping message_type
  on_readable-ping b e feed sequence sent_at now hf hs ht role state free idle =
      rw
        (on_readable-frame config now (new_message MessageType.ping feed sequence sent_at)
          (new_message-IsMessage MessageType.ping feed sequence sent_at hf hs ht) b e idle)
        (pinged now
          (record b {
            read_accum = encode_heartbeat (new_message MessageType.ping feed sequence sent_at);
          })
          e (checked (new_message MessageType.ping feed sequence sent_at)) role state free)

  -- When a valid PONG arrives alone at an established initiator with nothing buffered, its sequence is
  -- not among the acknowledged ones and its round trip is neither negative nor as long as the timeout,
  -- the connection is healthy, no miss is counted, the last sign of life is now, the round trip is
  -- recorded in the statistics, and nothing is written.
  pub on_readable-pong :
      (c : Connection S) (e : Env S) (feed sequence : ℕ) (sent_at now : ℤ)
      → feed < 2 ^ 32
      → sequence < 2 ^ 64
      → IsInt64 sent_at
      → c.role ≡ Role.initiator
      → IsLive c
      → c.read_accum ≡ []
      → has_acked_sequence c sequence ≡ false
      → is_stale config (now -ℤ sent_at) ≡ false
      → let (d, f) =
          on_readable config now
            (chunk (encode_heartbeat (new_message MessageType.pong feed sequence sent_at)) drained)
            c
            e in
        (d.state ≡ ConnectionState.healthy)
        × (d.consecutive_missed ≡ pos 0)
        × (d.last_liveness_ns ≡ now)
        × (d.stats ≡ record_pong_received c.stats (now -ℤ sent_at))
        × (f ≡ e)
  unfolding handle_message message_type handle_pong has_acked_sequence remember_acked_sequence
      transition_to
  on_readable-pong c e feed sequence sent_at now hf hs ht role live idle fresh prompt =
      rw
        (on_readable-frame config now (new_message MessageType.pong feed sequence sent_at)
          (new_message-IsMessage MessageType.pong feed sequence sent_at hf hs ht) c e idle)
        (ground (arith, role, live, fresh, prompt))

  -- When a valid PONG whose sequence is among the acknowledged ones arrives alone at an established
  -- initiator with nothing buffered, nothing at all changes.
  pub on_readable-pong_again :
      (c : Connection S) (e : Env S) (feed sequence : ℕ) (sent_at now : ℤ)
      → feed < 2 ^ 32
      → sequence < 2 ^ 64
      → IsInt64 sent_at
      → c.role ≡ Role.initiator
      → IsLive c
      → c.read_accum ≡ []
      → has_acked_sequence c sequence ≡ true
      → on_readable config now
          (chunk (encode_heartbeat (new_message MessageType.pong feed sequence sent_at)) drained)
          c
          e
        ≡ (c, e)
  unfolding handle_message message_type handle_pong has_acked_sequence transition_to
  on_readable-pong_again c e feed sequence sent_at now hf hs ht role live idle again =
      rw
        (on_readable-frame config now (new_message MessageType.pong feed sequence sent_at)
          (new_message-IsMessage MessageType.pong feed sequence sent_at hf hs ht) c e idle)
        (ground (arith, role, live, again, idle))

  hello_answered :
      (now : ℤ) (c : Connection S) (f : Env S) (m : HeartbeatMessage)
      → c.role ≡ Role.responder
      → c.state ≡ ConnectionState.handshaking
      → m.feed_id ≡ c.feed_id
      → let wire = encode_heartbeat (new_message MessageType.connect_ack c.feed_id 0 now) in
        let q = queue_write c f wire in
        handle_connect_hello c f m now ≡ (
          record (q.0) {
            last_liveness_ns = now;
            stats = record ((q.0).stats) { connected_since_ns = now };
            state = ConnectionState.healthy;
            state_entered_ns = now;
          },
          q.1,
        )
  unfolding handle_connect_hello transition_to
  hello_answered now c f m r s i = ground (arith, r, s, i)

  -- When a valid CONNECT_HELLO for its feed arrives alone at a responder in `handshaking` with nothing
  -- buffered, it is healthy, connected and alive since now, and a CONNECT_ACK is appended to what it
  -- writes. This holds whatever the sends do, also where the write of the answer fails.
  pub on_readable-connect_hello :
      (b : Connection S) (e : Env S) (feed sequence : ℕ) (sent_at now : ℤ)
      → feed < 2 ^ 32
      → sequence < 2 ^ 64
      → IsInt64 sent_at
      → b.role ≡ Role.responder
      → b.state ≡ ConnectionState.handshaking
      → feed ≡ b.feed_id
      → b.read_accum ≡ []
      → let r =
          on_readable config now
            (chunk
              (encode_heartbeat (new_message MessageType.connect_hello feed sequence sent_at))
              drained)
            b
            e in
        ((r.0).state ≡ ConnectionState.healthy)
        × ((r.0).last_liveness_ns ≡ now)
        × ((r.0).stats.connected_since_ns ≡ now)
        × (stream r
            ≡ stream (b, e)
              ++ encode_heartbeat (new_message MessageType.connect_ack b.feed_id 0 now))
  unfolding handle_message message_type
  on_readable-connect_hello b e feed sequence sent_at now hf hs ht role state own idle =
      let hello = new_message MessageType.connect_hello feed sequence sent_at in
      let c : Connection S = record b { read_accum = encode_heartbeat hello } in
      rw
        (on_readable-frame config now hello
          (new_message-IsMessage MessageType.connect_hello feed sequence sent_at hf hs ht) b e idle)
        (rw (hello_answered now c e (checked hello) role state own) (
          refl,
          refl,
          refl,
          queue_write-stream c e
              (encode_heartbeat (new_message MessageType.connect_ack b.feed_id 0 now)),
        ))

  -- When a valid CONNECT_ACK arrives alone at an initiator in `handshaking` with nothing buffered, nothing
  -- is written, and either the feed id is its own and it is healthy, connected and alive since now, or
  -- the feed id is another one and it is failed.
  pub on_readable-connect_ack :
      (c : Connection S) (e : Env S) (feed sequence : ℕ) (sent_at now : ℤ)
      → feed < 2 ^ 32
      → sequence < 2 ^ 64
      → IsInt64 sent_at
      → c.role ≡ Role.initiator
      → c.state ≡ ConnectionState.handshaking
      → c.read_accum ≡ []
      → let (d, f) =
          on_readable config now
            (chunk
              (encode_heartbeat (new_message MessageType.connect_ack feed sequence sent_at))
              drained)
            c
            e in
        (f ≡ e)
        × (((feed ≡ c.feed_id)
              × (d.state ≡ ConnectionState.healthy)
              × (d.last_liveness_ns ≡ now)
              × (d.stats.connected_since_ns ≡ now))
            ⊎ ((feed ≢ c.feed_id) × (d.state ≡ ConnectionState.failed)))
  unfolding handle_message message_type handle_connect_ack handle_protocol_violation transition_to
  on_readable-connect_ack c e feed sequence sent_at now hf hs ht role state idle =
      rw
        (on_readable-frame config now (new_message MessageType.connect_ack feed sequence sent_at)
          (new_message-IsMessage MessageType.connect_ack feed sequence sent_at hf hs ht) c e idle)
        (
          refl,
          elim (ℕ_discrete feed c.feed_id) [
            | yes h ↦ inl (
              h,
              ground (arith, role, state, h),
              ground (arith, role, state, h),
              ground (arith, role, state, h),
            )
            | no h ↦ inr (h, ground (arith, role, state, h))
          ],
        )
