-- ===== src/Stats.antt =====
-- The per-connection statistics of src/stats.h: the ring of recent round-trip times and the
-- counters around it.
mod Defs
pub mod Window
pub mod Order
pub mod Percentile
mod Examples
unfoldable pub use Defs.*
