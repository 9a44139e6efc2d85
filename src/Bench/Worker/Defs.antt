-- ===== src/Bench/Worker/Defs.antt =====
-- The worker's calls in order, with what each returns as an argument.
use vigil_low_latency_tcp_he.Prelude.{
  ℕ, zero, suc, ◌+◌, ◌-◌, min, Bool, true, false, ◌&&◌, not, Option, none, some, List, [], ◌∷◌,
  ◌++◌, take, drop, ltb, ◌==◌, if◌then◌else◌, length,
}
use vigil_low_latency_tcp_he.Prelude.Int.{ℤ, pos, pos_part}
use vigil_low_latency_tcp_he.Heartbeat.{
  HeartbeatMessage, MessageType, message_type, new_message, encode_heartbeat, decode_heartbeat,
  heartbeat_message_size,
}
use vigil_low_latency_tcp_he.Stats.{next_u64}

-- One blocking `recv`: how many bytes are there at most, or an error, the timeout, or the peer's end.
pub data Reading : Type 0 where
  given : ℕ → Reading
  ended : Reading

-- `while (got < size)`: `missing` is `size - got`, `peer` what the peer sends from here on. The frame and
-- what follows it; `none` where a `recv` fails.
unfoldable pub fill : List Reading → ℕ → List ℕ → Option (List ℕ × List ℕ)
fill readings zero peer = some ([], peer)
fill [] (suc missing) peer = none
fill (ended ∷ readings) (suc missing) peer = none
fill (given n ∷ readings) (suc missing) peer =
    let got = min n (min (suc missing) (length peer)) in
    let rest = fill readings (suc missing - got) (drop got peer) in
    if got == 0
    then none
    else elim rest [ none ↦ none | some (bytes, peer') ↦ some (take got peer ++ bytes, peer') ]

-- The sleep in slices: `stops i` is the reading of the flag before the slice `i`. A slice takes at
-- least a millisecond, so one round for each is enough.
unfoldable pub sleep_loop : ℕ → (ℕ → Bool) → ℕ → ℕ → List ℕ
sleep_loop zero stops i remaining = []
sleep_loop (suc fuel) stops i remaining =
    let slice = min remaining 50 in
    let rest = sleep_loop fuel stops (i + 1) (remaining - slice) in
    if ltb 0 remaining && not (stops i) then slice ∷ rest else []

unfoldable pub sleep_slices : (ℕ → Bool) → ℤ → List ℕ
sleep_slices stops interval_ms = sleep_loop (pos_part interval_ms) stops 0 (pos_part interval_ms)

-- One round of the loop, which starts while the flag is not set; `sent_all` tells whether `send` takes
-- the whole frame.
pub record WorkerRound : Type 0 where
  pub clock : ℤ
  pub sent_all : Bool
  pub readings : List Reading
  pub stops : ℕ → Bool

abbrev pub ping_frame : ℕ → ℤ → List ℕ
ping_frame sequence now_ns = encode_heartbeat (new_message MessageType.ping 1 sequence now_ns)

abbrev pub hello_frame : List ℕ
hello_frame = encode_heartbeat (new_message MessageType.connect_hello 1 0 (pos 0))

-- The frames passed to `send` and the slices slept. Behind the last round the flag is set.
unfoldable pub ping_rounds : ℤ → List WorkerRound → ℕ → List ℕ → List (List ℕ) × List ℕ
ping_rounds interval_ms [] sequence peer = ([], [])
ping_rounds interval_ms (r ∷ rounds) sequence peer =
    if r.sent_all
    then elim (fill r.readings heartbeat_message_size peer) [
      | none ↦ (ping_frame sequence r.clock ∷ [], [])
      | some (pong, peer') ↦
          let (frames, slices) = ping_rounds interval_ms rounds (next_u64 sequence) peer' in
          (ping_frame sequence r.clock ∷ frames, sleep_slices r.stops interval_ms ++ slices)
    ]
    else (ping_frame sequence r.clock ∷ [], [])

-- What the calls before the loop return: `socket_fd` is `none` where `socket` fails.
pub record WorkerCalls : Type 0 where
  pub socket_fd : Option ℕ
  pub connects : Bool
  pub hello_sent : Bool
  pub ack_readings : List Reading
  pub rounds : List WorkerRound

-- What the worker leaves: `NaiveWorkerState`, and its calls of `send`, `sleep_for` and `close` in order.
pub record Worker : Type 0 where
  pub connected : Bool
  pub sent : List (List ℕ)
  pub slept : List ℕ
  pub closed : List ℕ

abbrev pub is_connect_ack : Option HeartbeatMessage → Bool
is_connect_ack none = false
is_connect_ack (some m) = elim (message_type m.type) [
  | some MessageType.connect_ack ↦ true
  | _ ↦ false
]

abbrev pub gives_up : ℕ → List (List ℕ) → Worker
gives_up fd sent = record { connected = false; sent = sent; slept = []; closed = fd ∷ [] }

-- The worker from the acknowledgement on.
unfoldable pub after_ack : ℤ → ℕ → List WorkerRound → List ℕ → List ℕ → Worker
after_ack interval_ms fd rounds ack peer =
    let (frames, slices) = ping_rounds interval_ms rounds 0 peer in
    if is_connect_ack (decode_heartbeat ack)
    then record { connected = true; sent = hello_frame ∷ frames; slept = slices; closed = fd ∷ [] }
    else gives_up fd (hello_frame ∷ [])

-- The worker from the outcome of the loop that reads the acknowledgement.
unfoldable pub after_hello : ℤ → WorkerCalls → ℕ → Option (List ℕ × List ℕ) → Worker
after_hello interval_ms io fd none = gives_up fd (hello_frame ∷ [])
after_hello interval_ms io fd (some (ack, peer')) = after_ack interval_ms fd io.rounds ack peer'

-- The worker with its socket.
unfoldable pub with_socket : ℤ → WorkerCalls → List ℕ → ℕ → Worker
with_socket interval_ms io peer fd =
    if io.connects
    then if io.hello_sent
      then after_hello interval_ms io fd (fill io.ack_readings heartbeat_message_size peer)
      else gives_up fd (hello_frame ∷ [])
    else gives_up fd []

-- The worker with the result of `socket`.
unfoldable pub from_socket : ℤ → WorkerCalls → List ℕ → Option ℕ → Worker
from_socket interval_ms io peer none = record {
  connected = false;
  sent = [];
  slept = [];
  closed = [];
}
from_socket interval_ms io peer (some fd) = with_socket interval_ms io peer fd

-- `peer` is the stream that the peer sends.
unfoldable pub naive_worker : ℤ → WorkerCalls → List ℕ → Worker
naive_worker interval_ms io peer = from_socket interval_ms io peer io.socket_fd
