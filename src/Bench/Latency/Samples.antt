-- ===== src/Bench/Latency/Samples.antt =====
-- How many samples a trial takes.
use vigil_low_latency_tcp_he.Prelude.{
  ℕ, suc, ◌+◌, ◌-◌, ◌≤◌, ◌≡◌, refl, ◌∙◌, inl, inr, List, [], ◌∷◌, arith, length, length-append, ltb,
  Bool-cases, ap, sym, subst,
}
use vigil_low_latency_tcp_he.Prelude.Int.{ℤ}
use vigil_low_latency_tcp_he.Config.{Config}
use vigil_low_latency_tcp_he.Connection.{Env, SendResult}
use vigil_low_latency_tcp_he.Bench.Latency.Defs.{
  Latency, LatencyEvent, LatencyWakeup, timed_out, ready, NoCaller, start_latency, latency_event,
  latency_events, ping_now, first_ping, next_ping, rearm, latency_round, latency_loop,
}

-- The samples are those of the completed PINGs behind the warmup.
pub record IsCounted (warmup : ℕ) (l : Latency) : Type 0 where
  pub counted : length l.samples ≡ l.completed - warmup

latency_events-same :
    (config : Config) (now : ℤ) (events : List LatencyEvent) (l : Latency)
    → ((latency_events config now events l).samples ≡ l.samples)
      × ((latency_events config now events l).completed ≡ l.completed)
unfolding latency_events latency_event
latency_events-same config now [] l = (refl, refl)
latency_events-same config now (ev ∷ events) l =
    latency_events-same config now events (latency_event config now ev l)

first_ping-same :
    (clock : ℤ) (l : Latency)
    → ((first_ping clock l).samples ≡ l.samples) × ((first_ping clock l).completed ≡ l.completed)
unfolding first_ping ping_now
first_ping-same clock l = ground arith

next_ping-IsCounted :
    (warmup : ℕ) (clock : ℤ) (l : Latency)
    → IsCounted warmup l
    → IsCounted warmup (next_ping warmup clock l)
      × ((next_ping warmup clock l).completed ≤ suc l.completed)
unfolding next_ping ping_now
next_ping-IsCounted warmup clock l h =
    ground (arith, h.counted, length-append l.samples (l.conn.stats.last_rtt_ns ∷ []))

latency_round-IsCounted :
    (config : Config) (warmup : ℕ) (now clock : ℤ) (sends : List SendResult)
    (events : List LatencyEvent) (l : Latency)
    → IsCounted warmup l
    → IsCounted warmup (latency_round config warmup now clock sends events l)
      × ((latency_round config warmup now clock sends events l).completed ≤ suc l.completed)
unfolding latency_round rearm
latency_round-IsCounted config warmup now clock sends events l h =
    let l1 =
      latency_events config now events (record l { env = record (l.env) { sends = sends } }) in
    let before =
      latency_events-same config now events (record l { env = record (l.env) { sends = sends } }) in
    let pinged = first_ping-same clock l1 in
    let l2 = first_ping clock l1 in
    let still : IsCounted warmup l2 = record {
      counted =
          ap length (pinged.0 ∙ before.0)
          ∙ h.counted
          ∙ sym (ap (λ (n : ℕ). n - warmup) (pinged.1 ∙ before.1));
    } in
    let after = next_ping-IsCounted warmup clock l2 still in
    (
      record { counted = after.0.counted },
      subst (λ (n : ℕ). (next_ping warmup clock l2).completed ≤ suc n) (pinged.1 ∙ before.1)
          after.1,
    )

latency_loop-IsCounted :
    (config : Config) (warmup measured : ℕ) (wakeups : List LatencyWakeup) (l : Latency)
    → IsCounted warmup l
    → l.completed ≤ warmup + measured
    → IsCounted warmup (latency_loop config warmup measured wakeups l)
      × ((latency_loop config warmup measured wakeups l).completed ≤ warmup + measured)
unfolding latency_loop
latency_loop-IsCounted config warmup measured [] l h le = (h, le)
latency_loop-IsCounted config warmup measured (timed_out ∷ wakeups) l h le = (h, le)
latency_loop-IsCounted config warmup measured (ready now clock sends events ∷ wakeups) l h le =
    elim (Bool-cases (ltb l.completed (warmup + measured))) [
      | inr enough ↦ rw (enough, latency_loop) (h, le)
      | inl more ↦
          let l' = latency_round config warmup now clock sends events l in
          let (h', step) = latency_round-IsCounted config warmup now clock sends events l h in
          rw (more, latency_loop)
            (latency_loop-IsCounted config warmup measured wakeups l' h'
              (ground (arith, step, more)))
    ]

-- Whatever happens on the connection, a trial that completes `c` PINGs has a sample for each of those
-- behind the first `warmup`, and it completes at most `warmup + measured`: it returns at most
-- `measured` samples, and exactly that many where it is not cut short.
pub latency_loop-samples :
    (config : Config) (client_fd port warmup measured : ℕ) (e : Env NoCaller)
    (wakeups : List LatencyWakeup)
    → (length
          (latency_loop config warmup measured wakeups
            (start_latency config client_fd port e)).samples
        ≡ (latency_loop config warmup measured wakeups
            (start_latency config client_fd port e)).completed
          - warmup)
      × ((latency_loop config warmup measured wakeups
            (start_latency config client_fd port e)).completed
          ≤ warmup + measured)
unfolding start_latency
latency_loop-samples config client_fd port warmup measured e wakeups =
    let start = start_latency config client_fd port e in
    let r =
      latency_loop-IsCounted config warmup measured wakeups start (record { counted = omega arith })
        (omega arith) in
    (r.0.counted, r.1)
