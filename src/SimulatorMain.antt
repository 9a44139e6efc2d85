-- ===== src/SimulatorMain.antt =====
-- src/main_simulator.cpp: the simulator's options, its operator's commands, and how it starts.
mod Options
mod Commands
mod Session
mod Digits
mod Numerals
mod Verdict
mod Examples
unfoldable pub use Options.*
unfoldable pub use Commands.*
