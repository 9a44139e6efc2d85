-- ===== src/FeedMonitor/Ticks.antt =====
-- The timer tick and connections that fail in it.
use vigil_low_latency_tcp_he.Prelude.{
  ℕ, ◌<◌, ◌≡◌, refl, sym, ap, ◌∙◌, Bool, some, List, [], ◌∷◌, arith, length, get_elem?, set,
}
use vigil_low_latency_tcp_he.Prelude.Int.{ℤ, pos, ◌+ℤ◌, ◌≤ℤ◌, ◌<ℤ◌}
use vigil_low_latency_tcp_he.Prelude.Text.{Text}
use vigil_low_latency_tcp_he.Heartbeat.{encode_heartbeat, new_message, MessageType}
use vigil_low_latency_tcp_he.Heartbeat.Codec.{length-encode_heartbeat}
use vigil_low_latency_tcp_he.Stats.{next_u64}
use vigil_low_latency_tcp_he.Connection.{
  Connection, Env, ConnectionState, Role, send_ping, queue_write, flush_write_buffer, flush_loop,
  handle_socket_error, check_timeout, send_error, SendResult, handle_protocol_violation,
}
use vigil_low_latency_tcp_he.Connection.Liveness.{IsLive}
use vigil_low_latency_tcp_he.FeedMonitor.Types.{FeedMonitor, Slot, World, put_slot}
use vigil_low_latency_tcp_he.FeedMonitor.Reactor.{ping_slot, time_out_slot, tick_slot}
use vigil_low_latency_tcp_he.Config.{to_nanoseconds}
use vigil_low_latency_tcp_he.Prelude.{get_elem?-set_self}
use vigil_low_latency_tcp_he.FeedMonitor.Index.{some_injective}
use vigil_low_latency_tcp_he.FeedMonitor.Directory.{place-lt}

queue_write_broken :
    {S : Type 0} (c : Connection S) (e : Env S) (wire : List ℕ) (err : ℕ) (rest : List SendResult)
    → 0 < length wire
    → c.write_pending ≡ []
    → e.sends ≡ send_error err ∷ rest
    → (queue_write c e wire).0.state ≡ ConnectionState.failed
unfolding queue_write flush_write_buffer flush_loop handle_socket_error handle_protocol_violation
queue_write_broken c e [] err rest h idle broken = absurd (omega arith)
queue_write_broken c e (b ∷ bytes) err rest h idle broken = rw (idle, broken) (ground arith)

send_ping_broken :
    {S : Type 0} (c : Connection S) (e : Env S) (now : ℤ) (err : ℕ) (rest : List SendResult)
    → c.role ≡ Role.initiator
    → IsLive c
    → c.write_pending ≡ []
    → e.sends ≡ send_error err ∷ rest
    → (send_ping c e now).0.state ≡ ConnectionState.failed
unfolding send_ping
send_ping_broken c e now err rest role live idle broken =
    let ping = new_message MessageType.ping c.feed_id c.next_sequence now in
    ground (
      arith,
      role,
      live,
      queue_write_broken (record c { next_sequence = next_u64 c.next_sequence }) e
          (encode_heartbeat ping) err rest (omega (arith, length-encode_heartbeat ping)) idle
          broken,
    )

module _ {S : Type 0} (jitter : ℕ → ℤ → ℤ) (parses : Text → Bool) (index : ℕ) (now : ℤ)
    (m : FeedMonitor S) (w : World S) (slot : Slot S)
    (at : get_elem? m.slots index ≡ some slot) where
  -- If the connection of a slot is failed and its time of reconnection is negative, that is none is
  -- scheduled, then the tick changes nothing for this slot.
  pub tick_slot-unscheduled :
      slot.connection.state ≡ ConnectionState.failed
      → slot.reconnect_ready_at_ns <ℤ pos 0
      → tick_slot jitter parses index now m w ≡ (m, w)
  unfolding tick_slot
  tick_slot-unscheduled failed never = rw (tick_slot, at, failed) (ground (arith, never))

  -- What the tick does to the slot of a live connection whose PING is due and cannot be sent.
  pub tick_slot_pinged :
      (err : ℕ) (rest : List SendResult)
      → slot.connection.role ≡ Role.initiator
      → IsLive slot.connection
      → slot.connection.write_pending ≡ []
      → slot.next_ping_due_ns ≤ℤ now
      → w.env.sends ≡ send_error err ∷ rest
      → (tick_slot jitter parses index now m w).0.slots
        ≡ set m.slots index (record slot {
          connection = (send_ping slot.connection w.env now).0;
          next_ping_due_ns = now +ℤ to_nanoseconds m.config.heartbeat_interval;
        })
  unfolding tick_slot ping_slot time_out_slot check_timeout put_slot
  tick_slot_pinged err rest role live idle due broken =
      rw (tick_slot, at)
        (ground (
          arith,
          live,
          due,
          send_ping_broken slot.connection w.env now err rest role live idle broken,
        ))

  -- When the PING of a live initiator is due, nothing is buffered and the send fails, then after the
  -- tick the connection in its slot is failed, and the time of the next reconnection is what it was.
  pub tick_slot-broken :
      (err : ℕ) (rest : List SendResult) (after : Slot S)
      → slot.connection.role ≡ Role.initiator
      → IsLive slot.connection
      → slot.connection.write_pending ≡ []
      → slot.next_ping_due_ns ≤ℤ now
      → w.env.sends ≡ send_error err ∷ rest
      → get_elem? (tick_slot jitter parses index now m w).0.slots index ≡ some after
      → (after.connection.state ≡ ConnectionState.failed)
        × (after.reconnect_ready_at_ns ≡ slot.reconnect_ready_at_ns)
  tick_slot-broken err rest after role live idle due broken found =
      let slot' : Slot S = record slot {
        connection = (send_ping slot.connection w.env now).0;
        next_ping_due_ns = now +ℤ to_nanoseconds m.config.heartbeat_interval;
      } in
      let same : after ≡ slot' = some_injective after slot' (
        sym found
        ∙ ap (λ xs. get_elem? xs index) (tick_slot_pinged err rest role live idle due broken)
        ∙ get_elem?-set_self m.slots index slot' (place-lt m.slots index slot at)) in
      rw same (send_ping_broken slot.connection w.env now err rest role live idle broken, refl)
