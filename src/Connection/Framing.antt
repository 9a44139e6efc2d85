-- ===== src/Connection/Framing.antt =====
-- How the bytes of a stream are cut into reads makes no difference.
use mathlib.Core.List.{append_assoc}
use vigil_low_latency_tcp_he.Prelude.{
  ltb, ℕ, zero, suc, ◌+◌, ◌≤◌, ◌<◌, ◌≡◌, refl, sym, ap, ◌∙◌, true, false, none, some, List, [],
  ◌++◌, arith, length, length-append, length-drop, take, drop, leb, if◌then◌else◌, length-drop,
}
use vigil_low_latency_tcp_he.Prelude.Int.{ℤ}
use vigil_low_latency_tcp_he.Heartbeat.{HeartbeatMessage, decode_heartbeat, heartbeat_message_size}
use vigil_low_latency_tcp_he.Config.{Config}
use vigil_low_latency_tcp_he.Connection.Types.{
  max_read_accum_bytes, chunk, drained, Connection, Env, is_failed, handle_protocol_violation,
}
use vigil_low_latency_tcp_he.Connection.Handlers.{handle_message}
use vigil_low_latency_tcp_he.Connection.Events.{
  recv_loop, after_reads, finish_read, on_readable, drain_loop, drain_read_buffer,
}
use vigil_low_latency_tcp_he.Connection.Drain.{
  drain_loop_short, drain_loop_corrupt, drain_loop_failed, drain_loop_next,
}
use vigil_low_latency_tcp_he.Connection.Accum.{with_accum}
use vigil_low_latency_tcp_he.Connection.Rounds.{
  Round, short, corrupt, fails, goes_on, Round-cases, take-append_le, drop-append_le,
  drain_loop-accum, drain_loop-fuel,
}

module _ {S : Type 0} (config : Config) (now : ℤ) where
  -- The loop with enough fuel.
  abbrev drained_of : Connection S → Env S → List ℕ → Connection S × Env S
  drained_of c e xs = drain_loop config now (length xs) c e xs

  -- What is left to do when `b` comes behind a drained buffer.
  abbrev then_more : Connection S × Env S → List ℕ → Connection S × Env S
  then_more r b = if is_failed r.0.state then r else drained_of (r.0) (r.1) (r.0.read_accum ++ b)

  drained_of-next :
      (c : Connection S) (e : Env S) (xs : List ℕ) (m : HeartbeatMessage)
      → leb heartbeat_message_size (length xs) ≡ true
      → decode_heartbeat (take heartbeat_message_size xs) ≡ some m
      → is_failed (handle_message config c e m now).0.state ≡ false
      → drained_of c e xs
        ≡ drained_of
            (handle_message config c e m now).0
            (handle_message config c e m now).1
            (drop heartbeat_message_size xs)
  drained_of-next c e xs m full good f =
      drain_loop-fuel config now (length xs) (suc (length xs)) c e xs (omega arith) (omega arith)
      ∙ drain_loop_next config now (length xs) c e xs m full good f
      ∙ drain_loop-fuel config now (length xs) (length (drop heartbeat_message_size xs)) _ _
          (drop heartbeat_message_size xs) (omega (arith, length-drop heartbeat_message_size xs))
          (omega arith)

  drained_of-failed :
      (c : Connection S) (e : Env S) (xs : List ℕ) (m : HeartbeatMessage)
      → leb heartbeat_message_size (length xs) ≡ true
      → decode_heartbeat (take heartbeat_message_size xs) ≡ some m
      → is_failed (handle_message config c e m now).0.state ≡ true
      → drained_of c e xs ≡ with_accum [] (handle_message config c e m now)
  drained_of-failed c e xs m full good f =
      drain_loop-fuel config now (length xs) (suc (length xs)) c e xs (omega arith) (omega arith)
      ∙ drain_loop_failed config now (length xs) c e xs m full good f

  drained_of-corrupt :
      (c : Connection S) (e : Env S) (xs : List ℕ)
      → leb heartbeat_message_size (length xs) ≡ true
      → decode_heartbeat (take heartbeat_message_size xs) ≡ none
      → drained_of c e xs ≡ (record (handle_protocol_violation c now) { read_accum = [] }, e)
  drained_of-corrupt c e xs full bad =
      drain_loop-fuel config now (length xs) (suc (length xs)) c e xs (omega arith) (omega arith)
      ∙ drain_loop_corrupt config now (length xs) c e xs full bad

  append_round :
      (c : Connection S) (e : Env S) (a b : List ℕ)
      → is_failed c.state ≡ false
      → ((d : Connection S) (f : Env S) (a' : List ℕ)
          → length a' < length a
          → is_failed d.state ≡ false
          → drained_of d f (a' ++ b) ≡ then_more (drained_of d f a') b)
      → drained_of c e (a ++ b) ≡ then_more (drained_of c e a) b
  append_round c e a b alive later = by_round (Round-cases config now c e a)
    where
      longer :
          leb heartbeat_message_size (length a) ≡ true
          → leb heartbeat_message_size (length (a ++ b)) ≡ true
      longer full = ground (arith, full, length-append a b)

      enough : leb heartbeat_message_size (length a) ≡ true → heartbeat_message_size ≤ length a
      enough full = ground (arith, full)

      taken :
          leb heartbeat_message_size (length a) ≡ true
          → take heartbeat_message_size (a ++ b) ≡ take heartbeat_message_size a
      taken full = take-append_le heartbeat_message_size a b (enough full)

      violated : is_failed (handle_protocol_violation c now).state ≡ true
      violated = unfold handle_protocol_violation in refl

      by_round : Round config now c e a → drained_of c e (a ++ b) ≡ then_more (drained_of c e a) b
      by_round (short little) =
          sym (drain_loop-accum config now (length (a ++ b)) c e a (a ++ b))
          ∙ rw (drain_loop_short config now (length a) c e a little, alive) refl
      by_round (corrupt full bad) =
          drained_of-corrupt c e (a ++ b) (longer full) (ap decode_heartbeat (taken full) ∙ bad)
          ∙ rw (drained_of-corrupt c e a full bad, violated) refl
      by_round (fails m full good f) =
          drained_of-failed c e (a ++ b) m (longer full) (ap decode_heartbeat (taken full) ∙ good) f
          ∙ rw (drained_of-failed c e a m full good f, f) refl
      by_round (goes_on m full good f) =
          let r = handle_message config c e m now in
          let a' = drop heartbeat_message_size a in
          drained_of-next c e (a ++ b) m (longer full) (ap decode_heartbeat (taken full) ∙ good) f
          ∙ ap (drained_of (r.0) (r.1)) (drop-append_le heartbeat_message_size a b (enough full))
          ∙ later (r.0) (r.1) a' (omega (arith, enough full, length-drop heartbeat_message_size a))
              f
          ∙ sym (
              ap (λ (s : Connection S × Env S). then_more s b)
                (drained_of-next c e a m full good f))

  drained_of-append :
      (n : ℕ) (c : Connection S) (e : Env S) (a b : List ℕ)
      → length a ≤ n
      → is_failed c.state ≡ false
      → drained_of c e (a ++ b) ≡ then_more (drained_of c e a) b
  drained_of-append zero c e a b h alive =
      append_round c e a b alive (λ d f a' lt ok. absurd (omega (arith, lt, h)))
  drained_of-append (suc n) c e a b h alive =
      append_round c e a b alive
        (λ d f a' lt ok. drained_of-append n d f a' b (omega (arith, lt, h)) ok)

  length_round :
      (c : Connection S) (e : Env S) (a : List ℕ)
      → ((d : Connection S) (f : Env S) (a' : List ℕ)
          → length a' < length a
          → length (drained_of d f a').0.read_accum ≤ length a')
      → length (drained_of c e a).0.read_accum ≤ length a
  length_round c e a later = by_round (Round-cases config now c e a)
    where
      by_round : Round config now c e a → length (drained_of c e a).0.read_accum ≤ length a
      by_round (short little) =
          rw (drain_loop_short config now (length a) c e a little) (omega arith)
      by_round (corrupt full bad) = rw (drained_of-corrupt c e a full bad) (omega arith)
      by_round (fails m full good f) = rw (drained_of-failed c e a m full good f) (omega arith)
      by_round (goes_on m full good f) =
          let r = handle_message config c e m now in
          let a' = drop heartbeat_message_size a in
          let lt : length a' < length a =
            ground (arith, full, length-drop heartbeat_message_size a) in
          rw (drained_of-next c e a m full good f) (omega (arith, later (r.0) (r.1) a' lt, lt))

  length-drained_of :
      (n : ℕ) (c : Connection S) (e : Env S) (a : List ℕ)
      → length a ≤ n
      → length (drained_of c e a).0.read_accum ≤ length a
  length-drained_of zero c e a h = length_round c e a (λ d f a' lt. absurd (omega (arith, lt, h)))
  length-drained_of (suc n) c e a h =
      length_round c e a (λ d f a' lt. length-drained_of n d f a' (omega (arith, lt, h)))

  one_read :
      (c : Connection S) (e : Env S) (a : List ℕ)
      → length (c.read_accum ++ a) ≤ max_read_accum_bytes
      → on_readable config now (chunk a drained) c e ≡ drained_of c e (c.read_accum ++ a)
  unfolding on_readable recv_loop after_reads drain_read_buffer finish_read
  one_read c e a h =
      let fits : ltb max_read_accum_bytes (length (c.read_accum ++ a)) ≡ false =
        ground (arith, h) in
      rw fits (
        drain_loop-accum config now (length (c.read_accum ++ a)) c e (c.read_accum ++ a)
          (c.read_accum ++ a))

  -- Take a connection that is not failed, and bytes that fit its read buffer. If they arrive in two
  -- pieces, at two events at the same time, then either the first event fails the connection, and
  -- `on_readable` of all the bytes at once would have left exactly that; or both events together leave
  -- exactly what one event with all of the bytes leaves: wherever the stream is cut, also inside a frame.
  pub on_readable-append :
      (c : Connection S) (e : Env S) (a b : List ℕ)
      → is_failed c.state ≡ false
      → length (c.read_accum ++ a ++ b) ≤ max_read_accum_bytes
      → let r = on_readable config now (chunk a drained) c e in
        on_readable config now (chunk (a ++ b) drained) c e
        ≡ (if is_failed r.0.state then r else on_readable config now (chunk b drained) (r.0) (r.1))
  on_readable-append c e a b alive h =
      let xs = c.read_accum ++ a in
      let total : length xs + length b ≤ max_read_accum_bytes =
        omega (arith, h, length-append xs b) in
      let fits : length (c.read_accum ++ (a ++ b)) ≤ max_read_accum_bytes =
        rw (← append_assoc c.read_accum a b) h in
      one_read c e (a ++ b) fits
      ∙ ap (drained_of c e) (sym (append_assoc c.read_accum a b))
      ∙ drained_of-append (length xs) c e xs b (omega arith) alive
      ∙ rw (one_read c e a (omega (arith, total))) (either xs (fits_b xs total))
    where
      fits_b :
          (xs : List ℕ)
          → length xs + length b ≤ max_read_accum_bytes
          → length ((drained_of c e xs).0.read_accum ++ b) ≤ max_read_accum_bytes
      fits_b xs total = omega (
        arith,
        total,
        length-append (drained_of c e xs).0.read_accum b,
        length-drained_of (length xs) c e xs (omega arith),
      )

      either :
          (xs : List ℕ)
          → length ((drained_of c e xs).0.read_accum ++ b) ≤ max_read_accum_bytes
          → let r = drained_of c e xs in
            then_more r b ≡ (
              if is_failed r.0.state
              then r
              else on_readable config now (chunk b drained) (r.0) (r.1))
      either xs fits =
          let r = drained_of c e xs in
          ap (λ (s : Connection S × Env S). if is_failed r.0.state then r else s)
            (sym (one_read (r.0) (r.1) b fits))
