-- ===== src/Demo.antt =====
-- src/demo/lifecycle_demo.cpp: a monitor with three feeds, of which only the first is made to fail.
mod Defs
pub mod Isolation
mod Examples
unfoldable pub use Defs.*
