-- ===== src/Config.antt =====
-- The configuration of src/config.h and src/config.cpp.
mod Defs
mod Values
mod Settings
mod Parse
mod Cli
mod Examples
pub mod Feeds
unfoldable pub use Defs.*
unfoldable pub use Values.*
unfoldable pub use Settings.*
unfoldable pub use Parse.*
unfoldable pub use Cli.*
