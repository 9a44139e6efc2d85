-- ===== src/Connection.antt =====
-- One TCP peer: src/connection.h and src/connection.cpp.
mod Types
mod Output
mod Handlers
mod Events
mod Timers
mod Examples
pub mod Session
pub mod Replies
pub mod Frames
pub mod Liveness
pub mod Lifecycle
pub mod Drain
pub mod StateMachine
pub mod Outgoing
pub mod Caller
pub mod Accum
pub mod Rounds
pub mod Framing
unfoldable pub use Types.*
unfoldable pub use Output.*
unfoldable pub use Handlers.*
unfoldable pub use Events.*
unfoldable pub use Timers.*
