-- ===== src/Bench/Throughput.antt =====
-- src/bench/throughput_bench.cpp but for its peer and its worker: one trial of each kind, their
-- repetitions, and `main`.
mod Trial
mod Options
pub mod Counts
mod Examples
unfoldable pub use Trial.*
unfoldable pub use Options.*
