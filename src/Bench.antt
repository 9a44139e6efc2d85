-- ===== src/Bench.antt =====
-- The benchmarks of src/bench, and the pieces that they share.
pub mod Common
pub mod Peer
pub mod Worker
pub mod Throughput
pub mod Latency
