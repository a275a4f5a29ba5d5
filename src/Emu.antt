-- ===== src/Emu.antt =====
-- The emulator of emu/: the processor, the harts together, and the main program that joins them to
-- the stub.
pub mod Ram
pub mod Cpu
pub mod Decode
pub mod Step
pub mod Instr
pub mod Disassemble
pub mod System
pub mod Sync
pub mod Board
pub mod Program
pub mod Callbacks
pub mod Run
pub mod Memory
pub mod Valid
pub mod Stops
pub mod Break
pub mod Workers
