-- ===== src/Lib.antt =====
-- A model of this repository's GDB remote stub (src/gdb_stub.c, src/gdb_stub.h) and of the RISC-V
-- emulator that uses it (emu/), with proofs.
--
-- The stub serves one GDB client. A simulator calls `gdb_stub_process` for each packet, the checks of
-- breakpoints and watchpoints while it runs, and `gdb_stub_send_stop_reason` when it stops; the stub
-- reaches the simulator through the function pointers of `gdb_callbacks_t`. All of its state is in
-- `gdb_context_t`. Functions keep their names from the source.
--
--   Prelude      names shared by all files: lists, Boolean tests, integers, bits, C strings
--   Hex          hexadecimal numbers and the checksum, for both values of GDB_STUB_XLEN
--   Context      the types of src/gdb_stub.h
--   Slots        an array of which the first slots are in use: the loops of both tables
--   Breakpoints, Watchpoints   the two tables and their checks
--   Wire         the connection and `write_all`
--   Packet       `send_packet` and `receive_packet`
--   Thread       thread ids and the choice of the threads that run
--   World        the callbacks, and the state that a handler changes: context, simulator, connection
--   Stop         stop replies
--   Handlers     the command handlers, one file for each group of commands
--   Process      `gdb_stub_process`
--   Invariant    an invariant of the tables and of the packet buffer
--   Server       `gdb_stub_init`, `gdb_stub_accept`, `gdb_stub_close`
--   Emu          the emulator, below
--   Tests        the theorems at concrete inputs
--
-- The emulator has up to eight harts on one RAM. Its main program gives the stub its callbacks and runs
-- the harts between two packets; a hart's access to memory calls the stub's watchpoint checks through
-- hooks, and hart 0 hands jobs to the workers through an area in RAM. In Emu:
--   Ram, Cpu, Decode, Step, Disassemble   emu/rv32_cpu.c and emu/rv32_cpu.h
--   System       emu/rv32_system.h, the global variables of emu/main.c and the hooks
--   Sync         emu/smp_sync.c and emu/smp_sync.h
--   Board        the `sys_…` functions of emu/main.c
--   Program      the start (emu/main.c) and the programs in RAM (emu/smp_program.h)
--   Callbacks    the `gdb_…` functions of emu/main.c and the record of callbacks
--   Run          the run loops, the reports of stops and the loop of `main` (emu/main.c)
--   Instr        RV32I without FENCE: the manual's encoding and effect of the instructions, and the decoder
--   Memory, Valid, Workers, Stops, Break   what is proved of memory, ranges, jobs, stops, breakpoints
--
-- A component's file holds its definitions, and its child modules what is proved about them. A
-- function that changes the context or the world returns the new one beside its result. A `char` is a
-- number below 256 and a `const char *` the list of the bytes from there on; arrays are whole lists, so
-- what an old packet left in the buffer is still in the model. Numbers of w bits wrap with `% 2 ^ w`.
-- Undefined behaviour of C (an access outside an array, a shift by the width of the word or more) is
-- `none`; so is a search of memory that has not ended within its fuel. The writes of `receive_packet` to its
-- buffer, which its own test keeps inside, are the exception: one behind the end would change nothing.
--
-- Loops are recursion on what they count: the bytes that the connection delivers, the slots, the
-- length. `handle_vcont` takes as fuel the length of its text, which each round shortens. The search of
-- memory takes its fuel from the caller of `gdb_stub_process`; one unit for each place in the range is
-- enough where the range ends before the last address, and no fuel is enough for some searches that
-- end there.
--
-- In the emulator the worker loop has the source's own bound, 128 steps. The loop of `continue_all_harts`
-- and that of `main` take a list of what their rounds meet from outside (a SIGINT before the test, a byte
-- from the client at `select`, the user's `q`) and are `none` when they still run behind its end. A RAM
-- is a function from offsets to bytes, little-endian; an `int32_t` is its pattern of 32 bits. The system
-- holds the context that `g_gdb_ctx` points to; a callback is run with the stub's context in its place.
--
-- The socket library and the stub's simulator are not modelled. The bytes that `read` delivers and the
-- results of `write` are data of the connection; the results of `socket`, `bind`, `listen` and `accept`
-- are arguments; the simulator is a parameter, a type and a record of callbacks, which the emulator
-- fills, and a theorem on the search assumes that reading memory gives one byte for each address and
-- changes nothing. A callback may change `last_watchpoint_addr` and no other part of the context.
--
-- Not modelled: what the emulator prints (`rv32_cpu_print_state`, messages, usage), its arguments, the
-- installation of the signal handler, a SIGINT in the middle of a round, and unaligned or big-endian
-- access of the machine that runs it.
pub mod Prelude
pub mod Hex
pub mod Context
pub mod Slots
pub mod Breakpoints
pub mod Watchpoints
pub mod Wire
pub mod Packet
pub mod Thread
pub mod World
pub mod Stop
pub mod Handlers
pub mod Process
pub mod Invariant
pub mod Server
pub mod Emu
pub mod Tests
