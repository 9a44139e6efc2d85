-- ===== src/CommandInput.antt =====
-- Lines of commands from a descriptor, as src/feed_monitor.cpp and src/feed_simulator.cpp both read
-- them, and the extraction of words and numbers from a line.
mod Defs
mod Words
pub mod Lines
pub mod Numbers
mod Examples
unfoldable pub use Defs.*
unfoldable pub use Words.*
