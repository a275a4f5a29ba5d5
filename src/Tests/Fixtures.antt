-- ===== src/Tests/Fixtures.antt =====
-- Contexts and a simulator to run the functions of src/gdb_stub.c on.
use gdb_stub.Prelude.{ℕ, ◌+◌, ◌%◌, ◌≡◌, refl, true, false, none, some, List, [], replicate, arith}
use gdb_stub.Prelude.Int.{pos}
use gdb_stub.Slots
use gdb_stub.Context.{Context, watchpoint_write, initial_context}
use gdb_stub.Breakpoints.{gdb_stub_add_breakpoint}
use gdb_stub.Breakpoints.Laws
use gdb_stub.Watchpoints.{WatchpointKey, gdb_stub_add_watchpoint}
use gdb_stub.Watchpoints.Laws as WatchLaws
use gdb_stub.Watchpoints.Laws.{watches, same_key_iff, watches-gdb_stub_add_watchpoint}
use gdb_stub.Watchpoints.Check.{Fits}
use gdb_stub.Wire.{Wire}
use gdb_stub.World.{World, Callbacks}

abbrev pub fresh : Context
fresh = initial_context 3333

pub fresh-IsValid : Laws.IsValid fresh
unfolding initial_context Slots.IsDistinct
fresh-IsValid = record { array = refl; count_le = omega arith; distinct = tt }

pub fresh-watch_IsValid : WatchLaws.IsValid fresh
unfolding initial_context Slots.IsDistinct
fresh-watch_IsValid = record { array = refl; count_le = omega arith; distinct = tt }

-- a breakpoint at 0x80
abbrev pub stopping : Context
stopping = (gdb_stub_add_breakpoint fresh 0x80).0

-- a write watchpoint on four bytes at 0x100
abbrev pub watching : Context
watching = (gdb_stub_add_watchpoint fresh 0x100 4 watchpoint_write).0

watching_ok : (gdb_stub_add_watchpoint fresh 0x100 4 watchpoint_write).1 ≡ pos 0
unfolding initial_context gdb_stub_add_watchpoint
watching_ok = refl

watches-fresh : (j : WatchpointKey) → watches fresh j ≡ false
unfolding initial_context Slots.is_armed
watches-fresh j = refl

pub watching_only :
    (k : WatchpointKey) → watches watching k ≡ true → (0x100, 4, watchpoint_write) ≡ k
watching_only k h = ground (
  arith,
  same_key_iff (0x100, 4, watchpoint_write) k,
  watches-gdb_stub_add_watchpoint fresh 0x100 4 watchpoint_write fresh-watch_IsValid watching_ok k,
  watches-fresh k,
)

pub watching-Fits : Fits watching
watching-Fits k h = rw (← watching_only k h) (omega arith)

-- a connection that has these bytes to read, and takes a thousand writes
abbrev pub wire_with : List ℕ → Wire
wire_with bytes = record { inbox = bytes; outbox = []; write_results = replicate 1000 (some 7) }

-- a simulator that counts how often it is resumed, with byte `a % 256` at address `a`
abbrev pub counter : Callbacks ℕ
counter = record {
  read_reg = λ sim i. i;
  write_reg = λ i value ctx sim. (sim, ctx.last_watchpoint_addr);
  read_mem = λ addr size ctx sim. (addr % 256, sim, ctx.last_watchpoint_addr);
  write_mem = λ addr value size ctx sim. (sim, ctx.last_watchpoint_addr);
  get_pc = λ sim. 0;
  set_pc = λ pc ctx sim. (sim, ctx.last_watchpoint_addr);
  reset = none;
  resume = some (λ ctx sim. (sim + 1, ctx.last_watchpoint_addr));
  get_num_harts = some (λ sim. pos 4);
  set_focus_hart = none;
  get_focus_hart = none;
  get_stop_hart = none;
  halt_cpus = none;
}

-- a client on a connection with these bytes to read
abbrev pub connected_world : List ℕ → World ℕ
connected_world bytes = record {
  ctx = record fresh { stub = record fresh.stub { connected = true; client_fd = pos 4 } };
  sim = 0;
  wire = wire_with bytes;
}
