-- ===== src/Handlers.antt =====
-- The command handlers of src/gdb_stub.c, one module for each group of commands.
pub mod Query
pub mod Registers
pub mod Memory
pub mod Binary
pub mod Table
pub mod Threads
pub mod VCont
pub mod Search
