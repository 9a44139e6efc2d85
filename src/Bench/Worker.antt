-- ===== src/Bench/Worker.antt =====
-- `naive_worker` of src/bench/throughput_bench.cpp: one blocking thread for each connection, the
-- baseline that the monitor is compared with.
mod Defs
pub mod Sleep
pub mod Session
mod Examples
unfoldable pub use Defs.*
