-- ===== src/FeedSimulator.antt =====
-- The simulated exchange: src/feed_simulator.h and src/feed_simulator.cpp.
mod Types
mod Clients
mod Loop
pub mod Table
pub mod Replies
pub mod DueReplies
pub mod Runs
pub mod Ticks
pub mod Deferral
mod Examples
unfoldable pub use Types.*
unfoldable pub use Clients.*
unfoldable pub use Loop.*
