-- ===== src/Stats/Defs.antt =====
-- `RingBuffer` and `ConnectionStats`. Counters are uint64_t and wrap; times are integers.
use vigil_low_latency_tcp_he.Prelude.{
  ℕ, ◌+◌, ◌-◌, ◌%◌, ◌^◌, Option, none, some, List, [], ◌∷◌, set, length, take, replicate, ltb, leb,
  ◌==◌, if◌then◌else◌,
}
use vigil_low_latency_tcp_he.Prelude.Int.{ℤ, pos, min_ℤ, max_ℤ, leb_ℤ}
use vigil_low_latency_tcp_he.Prelude.Double.{Double, decimal, of_int, add, sub, mul}

-- `data` and `next` of the source are `slots` and `cursor`; the array's size N is an argument of
-- each operation.
pub record RingBuffer (A : Type 0) : Type 0 where
  pub slots : List A
  pub count : ℕ
  pub cursor : ℕ

module _ {A : Type 0} where
  -- `std::array<T, N> data_{}` holds N default values.
  abbrev pub new_ring : ℕ → A → RingBuffer A
  new_ring n a = record { slots = replicate n a; count = 0; cursor = 0 }

  unfoldable pub push : ℕ → RingBuffer A → A → RingBuffer A
  push n r value = record {
    slots = set r.slots r.cursor value;
    count = if ltb r.count n then r.count + 1 else r.count;
    cursor = (r.cursor + 1) % n;
  }

-- `std::sort` into ascending order.
unfoldable pub insert_sorted : ℤ → List ℤ → List ℤ
insert_sorted x [] = x ∷ []
insert_sorted x (y ∷ ys) = if leb_ℤ x y then x ∷ y ∷ ys else y ∷ insert_sorted x ys

unfoldable pub sort : List ℤ → List ℤ
sort [] = []
sort (x ∷ xs) = insert_sorted x (sort xs)

-- The copy of the first `count` places. Where `count` passes the end of the array, which reads outside of
-- it, the result is `none`.
unfoldable pub sorted_copy : RingBuffer ℤ → Option (List ℤ)
sorted_copy r = if leb r.count (length r.slots) then some (sort (take r.count r.slots)) else none

abbrev pub rtt_capacity : ℕ
rtt_capacity = 256

-- `++` on a uint64_t.
abbrev pub next_u64 : ℕ → ℕ
next_u64 n = (n + 1) % 2 ^ 64

abbrev pub int64_max : ℤ
int64_max = pos (2 ^ 63 - 1)

pub record ConnectionStats : Type 0 where
  pub heartbeats_sent : ℕ
  pub heartbeats_acked : ℕ
  pub missed : ℕ
  pub reconnects : ℕ
  pub last_rtt_ns : ℤ
  pub min_rtt_ns : ℤ
  pub max_rtt_ns : ℤ
  pub ewma_rtt_ns : Double
  pub rtt_samples_ns : RingBuffer ℤ
  pub connected_since_ns : ℤ

unfoldable pub new_stats : ConnectionStats
new_stats = record {
  heartbeats_sent = 0;
  heartbeats_acked = 0;
  missed = 0;
  reconnects = 0;
  last_rtt_ns = pos 0;
  min_rtt_ns = int64_max;
  max_rtt_ns = pos 0;
  ewma_rtt_ns = decimal 0 0;
  rtt_samples_ns = new_ring rtt_capacity (pos 0);
  connected_since_ns = pos 0;
}

abbrev pub ewma_alpha : Double
ewma_alpha = decimal 2 1

unfoldable pub record_ping_sent : ConnectionStats → ConnectionStats
record_ping_sent s = record s { heartbeats_sent = next_u64 s.heartbeats_sent }

unfoldable pub record_pong_received : ConnectionStats → ℤ → ConnectionStats
record_pong_received s rtt_ns =
    let acked = next_u64 s.heartbeats_acked in
    record s {
      heartbeats_acked = acked;
      last_rtt_ns = rtt_ns;
      min_rtt_ns = min_ℤ s.min_rtt_ns rtt_ns;
      max_rtt_ns = max_ℤ s.max_rtt_ns rtt_ns;
      ewma_rtt_ns =
          if acked == 1
          then of_int rtt_ns
          else add (mul ewma_alpha (of_int rtt_ns))
              (mul (sub (decimal 1 0) ewma_alpha) s.ewma_rtt_ns);
      rtt_samples_ns = push rtt_capacity s.rtt_samples_ns rtt_ns;
    }

unfoldable pub record_missed : ConnectionStats → ConnectionStats
record_missed s = record s { missed = next_u64 s.missed }

unfoldable pub record_reconnect : ConnectionStats → ConnectionStats
record_reconnect s = record s { reconnects = next_u64 s.reconnects }
