-- ===== src/CliDisplay.antt =====
-- The table of src/cli_display.cpp, and the formatting of durations in src/time_utils.h.
mod Defs
pub mod Fields
pub mod Table
mod Examples
unfoldable pub use Defs.*
