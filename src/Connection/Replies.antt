-- ===== src/Connection/Replies.antt =====
-- The window of acknowledged sequences: a reply counts once.
use vigil_low_latency_tcp_he.Prelude.{
  ℕ, zero, suc, ◌+◌, ◌^◌, ◌≤◌, ◌<◌, ◌≡◌, refl, ap, ◌∙◌, ap₂, length-replicate, true, false, inl,
  inr, List, [], ◌∷◌, length, set, length-set, arith, ltb, ◌==◌, if◌then◌else◌, Bool-cases,
}
use vigil_low_latency_tcp_he.Prelude.Int.{ℤ}
use vigil_low_latency_tcp_he.Heartbeat.Codec.{checked}
use vigil_low_latency_tcp_he.Heartbeat.{
  HeartbeatMessage, message_type, MessageType, new_message, encode_heartbeat,
}
use vigil_low_latency_tcp_he.Heartbeat.Words.{IsInt64}
use vigil_low_latency_tcp_he.Prelude.Text.{Text}
use vigil_low_latency_tcp_he.Config.{Config}
use vigil_low_latency_tcp_he.Connection.Types.{
  Connection, Role, Env, chunk, new_connection, drained, acked_sequence_window, transition_to,
}
use vigil_low_latency_tcp_he.Connection.Handlers.{
  contains, handle_pong, has_acked_sequence, remember_acked_sequence, handle_message,
}
use vigil_low_latency_tcp_he.Connection.Frames.{on_readable-frame}
use vigil_low_latency_tcp_he.Connection.Session.{new_message-IsMessage, on_readable-pong_again}
use vigil_low_latency_tcp_he.Connection.Events.{on_readable}
use vigil_low_latency_tcp_he.Connection.Liveness.{IsLive}

module _ {S : Type 0} where
  -- The window that the entries of a connection form: it has its full size, is filled in order, and is
  -- then written round and round.
  pub record HasWindow (c : Connection S) : Type 0 where
    pub size : length c.acked_sequences ≡ acked_sequence_window
    pub next_in : c.acked_sequences_next < acked_sequence_window
    pub count_in : c.acked_sequences_count ≤ acked_sequence_window
    pub filling :
        c.acked_sequences_count < acked_sequence_window
        → c.acked_sequences_next ≡ c.acked_sequences_count

contains-set :
    (count : ℕ) (entries : List ℕ) (i s : ℕ)
    → i < count
    → i < length entries
    → contains count (set entries i s) s ≡ true
unfolding contains
contains-set zero entries i s h g = absurd (omega (arith, h))
contains-set (suc count) [] i s h g = absurd (omega (arith, g))
contains-set (suc count) (x ∷ entries) zero s h g = ground arith
contains-set (suc count) (x ∷ entries) (suc i) s h g = elim (Bool-cases (x == s)) [
  | inl here ↦ rw here refl
  | inr later ↦ rw later (contains-set count entries i s (omega (arith, h)) (omega (arith, g)))
]

module _ {S : Type 0} where
  remembered :
      (c : Connection S) (s : ℕ)
      → HasWindow c
      → has_acked_sequence (remember_acked_sequence c s) s ≡ true
  unfolding has_acked_sequence remember_acked_sequence
  remembered c s h =
      contains-set
        (if ltb c.acked_sequences_count acked_sequence_window
          then c.acked_sequences_count + 1
          else c.acked_sequences_count)
        c.acked_sequences c.acked_sequences_next s (ground arith) (omega (arith, h.size, h.next_in))

  remember_acked_sequence-HasWindow :
      (c : Connection S) (s : ℕ) → HasWindow c → HasWindow (remember_acked_sequence c s)
  unfolding remember_acked_sequence
  remember_acked_sequence-HasWindow c s h = record {
    size = length-set c.acked_sequences c.acked_sequences_next s ∙ h.size;
    next_in = ground arith;
    count_in = ground arith;
    filling = ground arith;
  }

  pub new_connection-HasWindow :
      (fd : ℕ) (role : Role) (feed_id : ℕ) (host : Text) (port : ℕ) (config : Config) (e : Env S)
      → HasWindow (new_connection fd role feed_id host port config e).0
  unfolding new_connection
  new_connection-HasWindow fd role feed_id host port config e = record {
    size = length-replicate {A = ℕ} acked_sequence_window 0;
    next_in = omega arith;
    count_in = omega arith;
    filling = λ h. refl;
  }

  -- The part of a connection that says which replies it has seen.
  record IsAs (c d : Connection S) : Type 0 where
    entries : d.acked_sequences ≡ c.acked_sequences
    count : d.acked_sequences_count ≡ c.acked_sequences_count
    next : d.acked_sequences_next ≡ c.acked_sequences_next

  IsAs-has_acked_sequence :
      (c d : Connection S) (s : ℕ) → IsAs c d → has_acked_sequence d s ≡ has_acked_sequence c s
  unfolding has_acked_sequence
  IsAs-has_acked_sequence c d s same =
      ap₂ (λ (n : ℕ) (xs : List ℕ). contains n xs s) same.count same.entries

  IsAs-HasWindow : (c d : Connection S) → IsAs c d → HasWindow c → HasWindow d
  IsAs-HasWindow c d same h = record {
    size = ap length same.entries ∙ h.size;
    next_in = omega (arith, same.next, h.next_in);
    count_in = omega (arith, same.count, h.count_in);
    filling = λ lt. omega (arith, same.next, same.count, h.filling (omega (arith, lt, same.count)));
  }

  handle_pong_fresh :
      (config : Config) (c : Connection S) (m : HeartbeatMessage) (now : ℤ)
      → c.role ≡ Role.initiator
      → IsLive c
      → has_acked_sequence c m.sequence ≡ false
      → IsAs (remember_acked_sequence c m.sequence) (handle_pong config c m now)
  unfolding handle_pong transition_to
  handle_pong_fresh config c m now role live fresh = record {
    entries = ground (arith, role, live, fresh);
    count = ground (arith, role, live, fresh);
    next = ground (arith, role, live, fresh);
  }

  handle_pong_again :
      (config : Config) (c : Connection S) (m : HeartbeatMessage) (now : ℤ)
      → c.role ≡ Role.initiator
      → IsLive c
      → has_acked_sequence c m.sequence ≡ true
      → handle_pong config c m now ≡ c
  unfolding handle_pong
  handle_pong_again config c m now role live again = ground (arith, role, live, again)

  -- An established initiator whose window holds the sequence.
  record HasSeen (c : Connection S) (s : ℕ) : Type 0 where
    initiator : c.role ≡ Role.initiator
    live : IsLive c
    window : HasWindow c
    seen : has_acked_sequence c s ≡ true

  handle_pong-IsLive :
      (config : Config) (c : Connection S) (m : HeartbeatMessage) (now : ℤ)
      → c.role ≡ Role.initiator
      → IsLive c
      → ((handle_pong config c m now).role ≡ Role.initiator) × IsLive (handle_pong config c m now)
  unfolding handle_pong remember_acked_sequence transition_to
  handle_pong-IsLive config c m now role live =
      (ground (arith, role, live), ground (arith, role, live))

  handle_pong-HasSeen :
      (config : Config) (c : Connection S) (m : HeartbeatMessage) (now : ℤ)
      → c.role ≡ Role.initiator
      → IsLive c
      → HasWindow c
      → HasSeen (handle_pong config c m now) m.sequence
  handle_pong-HasSeen config c m now role live window =
      elim (Bool-cases (has_acked_sequence c m.sequence)) [
        | inl again ↦
            rw (handle_pong_again config c m now role live again)
              (record { initiator = role; live = live; window = window; seen = again })
        | inr fresh ↦
            let c' = remember_acked_sequence c m.sequence in
            let d = handle_pong config c m now in
            let same = handle_pong_fresh config c m now role live fresh in
            record {
              initiator = (handle_pong-IsLive config c m now role live).0;
              live = (handle_pong-IsLive config c m now role live).1;
              window =
                  IsAs-HasWindow c' d same (remember_acked_sequence-HasWindow c m.sequence window);
              seen = IsAs-has_acked_sequence c' d m.sequence same ∙ remembered c m.sequence window;
            }
      ]

  still :
      (x : Connection S) (s : ℕ)
      → has_acked_sequence x s ≡ true
      → has_acked_sequence (record x { read_accum = [] }) s ≡ true
  unfolding has_acked_sequence
  still x s h = h

  -- When a valid PONG arrives alone at an established initiator with nothing buffered, at any time and
  -- however old it is, and then a valid PONG with the same sequence arrives alone, from whatever feed id,
  -- with whatever timestamp and at whatever time, then the second one changes nothing at all: the first
  -- has been remembered. Of the window of acknowledged sequences only its invariant is assumed, which the
  -- first PONG keeps.
  pub on_readable-pong_twice :
      (config : Config) (c : Connection S) (e : Env S) (feed feed' sequence : ℕ)
      (sent_at sent_at' now now' : ℤ)
      → feed < 2 ^ 32
      → feed' < 2 ^ 32
      → sequence < 2 ^ 64
      → IsInt64 sent_at
      → IsInt64 sent_at'
      → c.role ≡ Role.initiator
      → IsLive c
      → c.read_accum ≡ []
      → HasWindow c
      → let r =
          on_readable config now
            (chunk (encode_heartbeat (new_message MessageType.pong feed sequence sent_at)) drained)
            c
            e in
        HasWindow (r.0)
        × (on_readable config now'
              (chunk
                (encode_heartbeat (new_message MessageType.pong feed' sequence sent_at'))
                drained)
              (r.0)
              (r.1)
            ≡ r)
  unfolding handle_message message_type
  on_readable-pong_twice config c e feed feed' sequence sent_at sent_at' now now' hf hf' hs ht ht'
        role live idle window =
      let first = new_message MessageType.pong feed sequence sent_at in
      let b : Connection S = record c { read_accum = encode_heartbeat first } in
      let seen = handle_pong-HasSeen config b (checked first) now role live (record {
        size = window.size;
        next_in = window.next_in;
        count_in = window.count_in;
        filling = window.filling;
      }) in
      let d : Connection S = record (handle_pong config b (checked first) now) {
        read_accum = [];
      } in
      rw
        (on_readable-frame config now first
          (new_message-IsMessage MessageType.pong feed sequence sent_at hf hs ht) c e idle)
        (
          record {
            size = seen.window.size;
            next_in = seen.window.next_in;
            count_in = seen.window.count_in;
            filling = seen.window.filling;
          },
          on_readable-pong_again config d e feed' sequence sent_at' now' hf' hs ht' seen.initiator
              seen.live refl (still _ sequence seen.seen),
        )
