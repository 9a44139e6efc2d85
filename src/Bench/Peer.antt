-- ===== src/Bench/Peer.antt =====
-- `MultiFeedEchoPeer` of src/bench/throughput_bench.cpp: one listener that answers the HELLO and the
-- PING frames of any feed.
mod Defs
mod Loop
pub mod Frames
pub mod Stream
mod Examples
unfoldable pub use Defs.*
unfoldable pub use Loop.*
