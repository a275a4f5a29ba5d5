-- ===== src/Tests.antt =====
-- The theorems about src/gdb_stub.c at concrete inputs.
pub mod Fixtures
pub mod Tables
pub mod Packets
pub mod Commands
pub mod Emulator
