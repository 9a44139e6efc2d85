-- ===== src/Bench/Worker/Examples.antt =====
-- Tests of the blocking worker, and its theorems at concrete inputs.
use vigil_low_latency_tcp_he.Prelude.{
  ℕ, ◌≡◌, refl, Bool, true, false, leb, some, List, [], ◌∷◌, ◌++◌,
}
use vigil_low_latency_tcp_he.Prelude.Int.{pos}
use vigil_low_latency_tcp_he.Heartbeat.{MessageType, new_message, encode_heartbeat}
use vigil_low_latency_tcp_he.Bench.Worker.Defs.{
  given, ended, fill, sleep_loop, sleep_slices, WorkerRound, WorkerCalls, naive_worker,
}
use vigil_low_latency_tcp_he.Bench.Worker.Session.{IsRun, naive_worker-IsRun}

filled_in_two_reads :
    fill (given 2 ∷ given 5 ∷ []) 3 (10 ∷ 11 ∷ 12 ∷ 13 ∷ []) ≡ some (10 ∷ 11 ∷ 12 ∷ [], 13 ∷ [])
unfolding fill
filled_in_two_reads = refl

-- The flag is set while the third slice is slept.
abbrev set_at_three : ℕ → Bool
set_at_three i = leb 3 i

three_slices : sleep_slices set_at_three (pos 1000) ≡ 50 ∷ 50 ∷ 50 ∷ []
unfolding sleep_slices sleep_loop
three_slices = refl

last_slice_is_shorter : sleep_slices (λ i. false) (pos 120) ≡ 50 ∷ 50 ∷ 20 ∷ []
unfolding sleep_slices sleep_loop
last_slice_is_shorter = refl

abbrev a_round : WorkerRound
a_round = record {
  clock = pos 700;
  sent_all = true;
  readings = given 28 ∷ [];
  stops = set_at_three;
}

abbrev connects_and_pings : WorkerCalls
connects_and_pings = record {
  socket_fd = some 6;
  connects = true;
  hello_sent = true;
  ack_readings = given 20 ∷ given 28 ∷ [];
  rounds = a_round ∷ record a_round { clock = pos 1800; readings = ended ∷ [] } ∷ [];
}

abbrev peer_bytes : List ℕ
peer_bytes =
    encode_heartbeat (new_message MessageType.connect_ack 1 0 (pos 0))
    ++ encode_heartbeat (new_message MessageType.pong 1 0 (pos 700))

naive_worker-IsRun_example :
    IsRun connects_and_pings peer_bytes (naive_worker (pos 1000) connects_and_pings peer_bytes)
naive_worker-IsRun_example = naive_worker-IsRun (pos 1000) connects_and_pings peer_bytes
