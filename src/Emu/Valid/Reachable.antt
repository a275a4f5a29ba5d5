-- ===== src/Emu/Valid/Reachable.antt =====
-- What can happen to the system of emu/main.c, as a step relation.
use gdb_stub.Prelude.{ℕ, ◌^◌, ◌<◌}
use gdb_stub.Prelude.Int.{ℤ, pos}
use gdb_stub.Context.{Context}
use gdb_stub.Emu.System.{System}
use gdb_stub.Emu.Board.{sys_cpu_step}
use gdb_stub.Emu.Program.{init_system}
use gdb_stub.Emu.Callbacks.{
  with_gdb_ctx, gdb_write_reg, gdb_read_mem, gdb_write_mem, gdb_set_pc, gdb_reset, gdb_resume,
  gdb_set_focus_hart, gdb_halt_cpus,
}

-- A step of a hart by the run loops or by the debugger, the stop of a hart by `handle_hart_stop`, a callback
-- that changes the system, or a change of the context behind `g_gdb_ctx`.
pub data SystemStep : System → System → Type 0 where
  hart_step : (h : ℕ) (sys : System) → SystemStep sys (sys_cpu_step h sys)
  hart_stop :
      (h : ℕ) (sys : System)
      → (sys.harts h).hart_id < sys.num_harts
      → SystemStep sys
          (record sys { stop_hart = pos (sys.harts h).hart_id; focus_hart = (sys.harts h).hart_id })
  attach : (ctx : Context) (sys : System) → SystemStep sys (with_gdb_ctx ctx sys)
  read_mem : (addr size : ℕ) (sys : System) → SystemStep sys (gdb_read_mem addr size sys).1
  write_mem :
      (addr value size : ℕ) (sys : System) → SystemStep sys (gdb_write_mem addr value size sys)
  write_reg :
      (reg value : ℕ) (sys : System) → value < 2 ^ 32 → SystemStep sys (gdb_write_reg reg value sys)
  set_pc : (pc : ℕ) (sys : System) → pc < 2 ^ 32 → SystemStep sys (gdb_set_pc pc sys)
  reset : (sys : System) → SystemStep sys (gdb_reset sys)
  resume : (sys : System) → SystemStep sys (gdb_resume sys)
  halt : (sys : System) → SystemStep sys (gdb_halt_cpus sys)
  focus : (hart : ℤ) (sys : System) → SystemStep sys (gdb_set_focus_hart hart sys)

pub data Reachable : System → Type 0 where
  started : (harts : ℕ) → Reachable (init_system harts)
  stepped : {s t : System} → Reachable s → SystemStep s t → Reachable t
