-- ===== src/Emu/Callbacks.antt =====
-- The callbacks that emu/main.c gives to the stub. `sim` is always `&g_sys`; each runs with the
-- context that the stub holds at `g_gdb_ctx`.
use gdb_stub.Prelude.{ℕ, Bool, none, some, set, ltb, ◌==◌, if◌then◌else◌}
use gdb_stub.Prelude.Int.{ℤ, pos, negsuc, minus_one}
use gdb_stub.Context.{Context}
use gdb_stub.World.{Effect, Callbacks}
use gdb_stub.Emu.Cpu.{Cpu, rv32_reg_tp, rv32_cpu_reset, rv32_cpu_read_reg, rv32_cpu_write_reg}
use gdb_stub.Emu.System.{System, Hooks, with_hart, map_harts}
use gdb_stub.Emu.Sync.{smp_sync_reset, smp_sync_ram_init}
use gdb_stub.Emu.Board.{
  sys_any_running, sys_resume_runnable, sys_read_mem, sys_write_mem, sys_cpu_step, stop_at_focus,
}
use gdb_stub.Emu.Program.{start_worker}

abbrev pub context_of : System → Context → Context
context_of sys ctx = elim sys.gdb_ctx [ none ↦ ctx | some after ↦ after ]

abbrev pub with_gdb_ctx : Context → System → System
with_gdb_ctx ctx sys = record sys { gdb_ctx = some ctx }

-- a callback, as the stub sees it
abbrev pub on_system : (System → System) → Effect System
on_system f ctx sys =
    let after = f (with_gdb_ctx ctx sys) in (after, (context_of after ctx).last_watchpoint_addr)

unfoldable pub gdb_read_reg : System → ℕ → ℕ
gdb_read_reg sys reg_num =
    let cpu = sys.harts sys.focus_hart in
    if ltb reg_num 32 then rv32_cpu_read_reg cpu reg_num else if reg_num == 32 then cpu.pc else 0

unfoldable pub gdb_write_reg : ℕ → ℕ → System → System
gdb_write_reg reg_num value sys =
    let cpu = sys.harts sys.focus_hart in
    if ltb reg_num 32
    then with_hart sys.focus_hart (rv32_cpu_write_reg cpu reg_num value) sys
    else if reg_num == 32
    then with_hart sys.focus_hart (record cpu { pc = value }) sys
    else sys

unfoldable pub gdb_read_mem : ℕ → ℕ → System → ℕ × System
unfolding sys_read_mem
gdb_read_mem = sys_read_mem

unfoldable pub gdb_write_mem : ℕ → ℕ → ℕ → System → System
unfolding sys_write_mem
gdb_write_mem addr value size sys = sys_write_mem (some sys.focus_hart) addr value size sys

unfoldable pub gdb_get_pc : System → ℕ
gdb_get_pc sys = (sys.harts sys.focus_hart).pc

unfoldable pub gdb_set_pc : ℕ → System → System
gdb_set_pc pc sys = with_hart sys.focus_hart (record (sys.harts sys.focus_hart) { pc = pc }) sys

unfoldable pub gdb_single_step : System → System
unfolding sys_cpu_step
gdb_single_step sys = sys_cpu_step sys.focus_hart sys

unfoldable pub gdb_is_running : System → Bool
unfolding sys_any_running
gdb_is_running = sys_any_running

-- the body of the loop of `gdb_reset`
unfoldable pub reset_hart : ℕ → Cpu Hooks → Cpu Hooks
reset_hart h cpu =
    let fresh = rv32_cpu_reset cpu in
    start_worker h (record fresh { regs = set fresh.regs rv32_reg_tp h })

unfoldable pub gdb_reset : System → System
unfolding reset_hart smp_sync_ram_init
gdb_reset sys =
    record (smp_sync_ram_init (map_harts reset_hart (smp_sync_reset sys.num_harts sys))) {
      focus_hart = 0;
      stop_hart = minus_one;
    }

unfoldable pub gdb_resume : System → System
unfolding sys_resume_runnable
gdb_resume = sys_resume_runnable

unfoldable pub gdb_get_num_harts : System → ℤ
gdb_get_num_harts sys = pos sys.num_harts

unfoldable pub gdb_set_focus_hart : ℤ → System → System
gdb_set_focus_hart (negsuc n) sys = sys
gdb_set_focus_hart (pos hart) sys =
    if ltb hart sys.num_harts then record sys { focus_hart = hart } else sys

unfoldable pub gdb_get_focus_hart : System → ℤ
gdb_get_focus_hart sys = pos sys.focus_hart

unfoldable pub gdb_get_stop_hart : System → ℤ
gdb_get_stop_hart sys = sys.stop_hart

unfoldable pub gdb_halt_cpus : System → System
unfolding stop_at_focus
gdb_halt_cpus = stop_at_focus

-- `callbacks` of `main`; the stub never calls `single_step` and `is_running`.
abbrev pub callbacks : Callbacks System
callbacks = record {
  read_reg = gdb_read_reg;
  write_reg = λ reg_num value. on_system (gdb_write_reg reg_num value);
  read_mem = λ addr size ctx sys.
      let (value, after) = gdb_read_mem addr size (with_gdb_ctx ctx sys) in
      (value, after, (context_of after ctx).last_watchpoint_addr);
  write_mem = λ addr value size. on_system (gdb_write_mem addr value size);
  get_pc = gdb_get_pc;
  set_pc = λ pc. on_system (gdb_set_pc pc);
  reset = some (on_system gdb_reset);
  resume = some (on_system gdb_resume);
  get_num_harts = some gdb_get_num_harts;
  set_focus_hart = some (λ hart. on_system (gdb_set_focus_hart hart));
  get_focus_hart = some gdb_get_focus_hart;
  get_stop_hart = some gdb_get_stop_hart;
  halt_cpus = some (on_system gdb_halt_cpus);
}
