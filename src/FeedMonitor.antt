-- ===== src/FeedMonitor.antt =====
-- The reactor's state and its operations: src/feed_monitor.h and src/feed_monitor.cpp.
mod Types
mod Failure
mod Feeds
mod Reactor
mod Loop
pub mod Ticks
pub mod Accessors
pub mod Retries
pub mod Reconnect
pub mod GiveUp
pub mod Routes
pub mod Descriptors
pub mod Rules
pub mod Moved
pub mod System
pub mod Reached
mod Examples
pub mod Directory
pub mod Index
pub mod Kept
pub mod Runs
pub mod Backoff
unfoldable pub use Types.*
unfoldable pub use Failure.*
unfoldable pub use Feeds.*
unfoldable pub use Reactor.*
unfoldable pub use Loop.*
