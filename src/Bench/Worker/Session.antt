-- ===== src/Bench/Worker/Session.antt =====
-- What a worker does over its whole life, whatever its calls return.
use vigil_low_latency_tcp_he.Prelude.{
  ℕ, zero, suc, ◌+◌, ◌-◌, min, ◌≤◌, ◌≡◌, refl, sym, ap, ◌∙◌, true, false, Option, none, some, List,
  [], ◌∷◌, ◌++◌, arith, length, take, drop, ◌==◌, Bool-cases, Option-cases, inl, inr, ◌⊎◌,
  take-append-take, drop-drop, if_both, subst,
}
use vigil_low_latency_tcp_he.Prelude.Int.{ℤ}
use vigil_low_latency_tcp_he.Heartbeat.{decode_heartbeat, heartbeat_message_size}
use vigil_low_latency_tcp_he.Stats.{next_u64}
use vigil_low_latency_tcp_he.Bench.Worker.Defs.{
  Reading, given, ended, fill, WorkerRound, ping_frame, hello_frame, ping_rounds, WorkerCalls,
  Worker, is_connect_ack, after_ack, with_socket, naive_worker, gives_up, after_hello, from_socket,
}

-- The bytes come in order, and exactly as many as are missing.
pub fill_lem :
    (readings : List Reading) (missing : ℕ) (peer bytes rest : List ℕ)
    → fill readings missing peer ≡ some (bytes, rest)
    → (bytes ≡ take missing peer) × (rest ≡ drop missing peer)
unfolding fill
fill_lem readings zero peer bytes rest h =
    let same : ([], peer) ≡ (bytes, rest) = cc in
    (sym (ap (λ (r : List ℕ × List ℕ). r.0) same), sym (ap (λ (r : List ℕ × List ℕ). r.1) same))
fill_lem [] (suc missing) peer bytes rest h = cc
fill_lem (ended ∷ readings) (suc missing) peer bytes rest h = cc
fill_lem (given n ∷ readings) (suc missing) peer bytes rest h =
    by_rest (Bool-cases (got == 0)) (Option-cases (fill readings left (drop got peer)))
      (fill_lem readings left (drop got peer))
  where
    got : ℕ
    got = min n (min (suc missing) (length peer))

    left : ℕ
    left = suc missing - got

    all_bytes : got + left ≡ suc missing
    all_bytes = omega arith

    by_rest :
        ((got == 0) ≡ true) ⊎ ((got == 0) ≡ false)
        → (fill readings left (drop got peer) ≡ none)
          ⊎ ((r : List ℕ × List ℕ) × (fill readings left (drop got peer) ≡ some r))
        → ((bytes rest : List ℕ)
            → fill readings left (drop got peer) ≡ some (bytes, rest)
            → (bytes ≡ take left (drop got peer)) × (rest ≡ drop left (drop got peer)))
        → (bytes ≡ take (suc missing) peer) × (rest ≡ drop (suc missing) peer)
    by_rest (inl nothing) r later =
        let fails : fill (given n ∷ readings) (suc missing) peer ≡ none = rw (nothing, fill) in
        let e : ◌≡◌ {A = Option (List ℕ × List ℕ)} none (some (bytes, rest)) = sym fails ∙ h in cc
    by_rest (inr some_bytes) (inl failed) later =
        let fails : fill (given n ∷ readings) (suc missing) peer ≡ none =
          rw (some_bytes, failed, fill) in
        let e : ◌≡◌ {A = Option (List ℕ × List ℕ)} none (some (bytes, rest)) = sym fails ∙ h in cc
    by_rest (inr some_bytes) (inr ((more, after), filled)) later =
        let e : some (take got peer ++ more, after) ≡ some (bytes, rest) =
          sym (rw (some_bytes, filled, fill)) ∙ h in
        let same : (take got peer ++ more, after) ≡ (bytes, rest) = cc in
        let ih = later more after filled in
        (
          sym (ap (λ (r : List ℕ × List ℕ). r.0) same)
              ∙ ap (λ (xs : List ℕ). take got peer ++ xs) ih.0
              ∙ take-append-take got left peer
              ∙ ap (λ (k : ℕ). take k peer) all_bytes,
          sym (ap (λ (r : List ℕ × List ℕ). r.1) same)
              ∙ ih.1
              ∙ drop-drop got left peer
              ∙ ap (λ (k : ℕ). drop k peer) all_bytes,
        )

-- The PINGs of the rounds: sequences from `sequence` on, with the readings of the clock.
abbrev pub pings : ℕ → List WorkerRound → List (List ℕ)
pings sequence [] = []
pings sequence (r ∷ rounds) = ping_frame sequence r.clock ∷ pings (next_u64 sequence) rounds

ping_rounds-pings :
    (interval_ms : ℤ) (rounds : List WorkerRound) (sequence : ℕ) (peer : List ℕ)
    → (n : ℕ) × ((ping_rounds interval_ms rounds sequence peer).0 ≡ take n (pings sequence rounds))
unfolding ping_rounds
ping_rounds-pings interval_ms [] sequence peer = (0, refl)
ping_rounds-pings interval_ms (r ∷ rounds) sequence peer = elim (Bool-cases r.sent_all) [
  | inr broken ↦ (1, rw (broken, ping_rounds))
  | inl sent ↦ elim (Option-cases (fill r.readings heartbeat_message_size peer)) [
    | inl lost ↦ (1, rw (sent, lost, ping_rounds))
    | inr ((pong, peer'), full) ↦
        let (n, ih) = ping_rounds-pings interval_ms rounds (next_u64 sequence) peer' in
        (
          suc n,
          rw (sent, full, ping_rounds)
              (ap (λ (fs : List (List ℕ)). ping_frame sequence r.clock ∷ fs) ih),
        )
  ]
]

abbrev pub closed_once : Option ℕ → List ℕ
closed_once none = []
closed_once (some fd) = fd ∷ []

pub record IsRun (io : WorkerCalls) (peer : List ℕ) (w : Worker) : Type 0 where
  pub closes : w.closed ≡ closed_once io.socket_fd
  pub frames : ℕ
  pub sends : w.sent ≡ take frames (hello_frame ∷ pings 0 io.rounds)
  pub quiet : w.connected ≡ false → frames ≤ 1
  pub acked :
      w.connected ≡ true
      → is_connect_ack (decode_heartbeat (take heartbeat_message_size peer)) ≡ true

given_up :
    (io : WorkerCalls) (peer : List ℕ) (fd : ℕ) (n : ℕ)
    → io.socket_fd ≡ some fd
    → n ≤ 1
    → IsRun io peer (gives_up fd (take n (hello_frame ∷ pings 0 io.rounds)))
given_up io peer fd n opened few = record {
  closes = ap closed_once (sym opened);
  frames = n;
  sends = refl;
  quiet = λ h. few;
  acked = λ h. cc;
}

after_ack-IsRun :
    (interval_ms : ℤ) (io : WorkerCalls) (peer rest : List ℕ) (fd : ℕ)
    → io.socket_fd ≡ some fd
    → IsRun io peer (after_ack interval_ms fd io.rounds (take heartbeat_message_size peer) rest)
unfolding after_ack
after_ack-IsRun interval_ms io peer rest fd opened =
    elim (Bool-cases (is_connect_ack (decode_heartbeat (take heartbeat_message_size peer)))) [
      | inr refused ↦ rw (refused, after_ack) (given_up io peer fd 1 opened (omega arith))
      | inl good ↦
          let (n, sent) = ping_rounds-pings interval_ms io.rounds 0 rest in
          rw (good, after_ack)
            (record {
              closes = ap closed_once (sym opened);
              frames = suc n;
              sends = ap (λ (fs : List (List ℕ)). hello_frame ∷ fs) sent;
              quiet = λ h. cc;
              acked = λ h. good;
            })
    ]

after_hello-IsRun :
    (interval_ms : ℤ) (io : WorkerCalls) (peer : List ℕ) (fd : ℕ)
    (filled : Option (List ℕ × List ℕ))
    → io.socket_fd ≡ some fd
    → fill io.ack_readings heartbeat_message_size peer ≡ filled
    → IsRun io peer (after_hello interval_ms io fd filled)
unfolding after_hello
after_hello-IsRun interval_ms io peer fd none opened h = given_up io peer fd 1 opened (omega arith)
after_hello-IsRun interval_ms io peer fd (some (ack, rest)) opened h =
    subst (λ (bytes : List ℕ). IsRun io peer (after_ack interval_ms fd io.rounds bytes rest))
      (sym (fill_lem io.ack_readings heartbeat_message_size peer ack rest h).0)
      (after_ack-IsRun interval_ms io peer rest fd opened)

with_socket-IsRun :
    (interval_ms : ℤ) (io : WorkerCalls) (peer : List ℕ) (fd : ℕ)
    → io.socket_fd ≡ some fd
    → IsRun io peer (with_socket interval_ms io peer fd)
unfolding with_socket
with_socket-IsRun interval_ms io peer fd opened =
    if_both (IsRun io peer) io.connects
      (if_both (IsRun io peer) io.hello_sent
        (after_hello-IsRun interval_ms io peer fd (fill io.ack_readings heartbeat_message_size peer)
          opened refl)
        (given_up io peer fd 1 opened (omega arith)))
      (given_up io peer fd 0 opened (omega arith))

from_socket-IsRun :
    (interval_ms : ℤ) (io : WorkerCalls) (peer : List ℕ) (opened : Option ℕ)
    → io.socket_fd ≡ opened
    → IsRun io peer (from_socket interval_ms io peer opened)
unfolding from_socket
from_socket-IsRun interval_ms io peer none h = record {
  closes = ap closed_once (sym h);
  frames = 0;
  sends = refl;
  quiet = λ off. omega arith;
  acked = λ on. cc;
}
from_socket-IsRun interval_ms io peer (some fd) h = with_socket-IsRun interval_ms io peer fd h

-- Whatever the worker's calls return, and however the peer's bytes are cut into reads: a socket that was
-- opened is closed exactly once, and nothing else is closed; the frames that it sends are the first
-- ones of a HELLO and the PINGs of its rounds, which are numbered from 0 on and carry the reading of
-- the clock; it reports a connection only if the first 28 bytes of the peer's stream are a CONNECT_ACK,
-- and without a connection it sends at most the HELLO.
pub naive_worker-IsRun :
    (interval_ms : ℤ) (io : WorkerCalls) (peer : List ℕ)
    → IsRun io peer (naive_worker interval_ms io peer)
unfolding naive_worker
naive_worker-IsRun interval_ms io peer = from_socket-IsRun interval_ms io peer io.socket_fd refl
