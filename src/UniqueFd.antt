-- ===== src/UniqueFd.antt =====
-- `UniqueFd` of src/unique_fd.h: the one owner of a descriptor, and several such objects together.
mod Defs
pub mod Ownership
mod Examples
unfoldable pub use Defs.*
