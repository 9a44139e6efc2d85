-- ===== src/Bench/Common.antt =====
-- src/bench/bench_common.h and src/bench/bench_common.cpp: samples, their summary, and the process's
-- memory.
mod Defs
pub mod Measure
pub mod Summary
pub mod Memory
pub mod Spreads
mod Examples
unfoldable pub use Defs.*
