-- ===== src/Heartbeat.antt =====
-- The wire protocol of src/heartbeat.h and src/heartbeat.cpp: the 28-byte message, its checksum,
-- and the two directions of the codec. A byte is a number below 256, a buffer a list of bytes; a
-- value of w bits is a number below 2 ^ w, and the int64_t timestamp an integer.
mod Defs
pub mod Words
pub mod Crc
pub mod Codec
pub mod Corruption
pub mod Detection
mod Examples
unfoldable pub use Defs.*
