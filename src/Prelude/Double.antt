-- ===== src/Prelude/Double.antt =====
-- A `double` is kept as the expression that the source computes: its rounding belongs to the
-- hardware and is not modelled. Two equal expressions give the same double.
use vigil_low_latency_tcp_he.Prelude.{ℕ}
use vigil_low_latency_tcp_he.Prelude.Int.{ℤ}

pub data Double : Type 0 where
  -- The literal `n / 10 ^ k`.
  decimal : ℕ → ℕ → Double
  of_int : ℤ → Double
  add sub mul div : Double → Double → Double
