-- ===== src/Context.antt =====
-- The types of src/gdb_stub.h: the stub, its breakpoint and watchpoint tables, the context.
use gdb_stub.Prelude.{ℕ, Bool, false, List, replicate}
use gdb_stub.Prelude.Int.{ℤ, pos, minus_one}

-- `GDB_BUFFER_SIZE`, `MAX_BREAKPOINTS`, `MAX_WATCHPOINTS`
abbrev pub gdb_buffer_size : ℕ
gdb_buffer_size = 4096

abbrev pub max_breakpoints : ℕ
max_breakpoints = 64

abbrev pub max_watchpoints : ℕ
max_watchpoints = 32

-- `gdb_stub_t`; the buffer is its 4096 bytes, those behind the packet included.
pub record Stub : Type 0 where
  pub socket_fd : ℤ
  pub client_fd : ℤ
  pub port : ℕ
  pub connected : Bool
  pub enabled : Bool
  pub no_ack_mode : Bool
  pub consecutive_failures : ℕ
  pub packet_buffer : List ℕ
  pub packet_size : ℕ

-- `breakpoint_t`
pub record Breakpoint : Type 0 where
  pub addr : ℕ
  pub enabled : Bool

-- `watchpoint_type_t`
pub data WatchpointType : Type 0 where
  watchpoint_write watchpoint_read watchpoint_access : WatchpointType

-- `watchpoint_t`
pub record Watchpoint : Type 0 where
  pub addr : ℕ
  pub len : ℕ
  pub type : WatchpointType
  pub enabled : Bool

-- `gdb_context_t`; the tables are whole arrays, of which the first `…_count` slots are in use.
pub record Context : Type 0 where
  pub stub : Stub
  pub breakpoints : List Breakpoint
  pub breakpoint_count : ℕ
  pub watchpoints : List Watchpoint
  pub watchpoint_count : ℕ
  pub single_step : Bool
  pub should_stop : Bool
  pub last_watchpoint_addr : ℕ
  pub last_stop_signal : ℕ
  pub breakpoint_hit : Bool
  pub current_thread : ℤ
  pub continue_thread : ℤ
  pub stop_thread : ℤ
  pub multiprocess_active : Bool

abbrev empty_stub : ℕ → Stub
empty_stub port = record {
  socket_fd = minus_one;
  client_fd = minus_one;
  port = port;
  connected = false;
  enabled = false;
  no_ack_mode = false;
  consecutive_failures = 0;
  packet_buffer = replicate gdb_buffer_size 0;
  packet_size = 0;
}

-- `gdb_stub_init` up to the calls of the socket library: `memset` and the first assignments
unfoldable pub initial_context : ℕ → Context
initial_context port = record {
  stub = empty_stub port;
  breakpoints = replicate max_breakpoints (record { addr = 0; enabled = false });
  breakpoint_count = 0;
  watchpoints =
      replicate max_watchpoints
        (record { addr = 0; len = 0; type = watchpoint_write; enabled = false });
  watchpoint_count = 0;
  single_step = false;
  should_stop = false;
  last_watchpoint_addr = 0;
  last_stop_signal = 0;
  breakpoint_hit = false;
  current_thread = pos 1;
  continue_thread = minus_one;
  stop_thread = pos 0;
  multiprocess_active = false;
}
