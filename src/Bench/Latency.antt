-- ===== src/Bench/Latency.antt =====
-- src/bench/latency_bench.cpp: PINGs one after the other on a connection, and the comparison of two
-- socket options.
mod Defs
pub mod Samples
unfoldable pub use Defs.*
