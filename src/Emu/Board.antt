-- ===== src/Emu/Board.antt =====
-- The `sys_…` functions of emu/main.c, and `sigint_handler`.
use gdb_stub.Prelude.{
  ℕ, zero, suc, ◌+◌, Bool, true, false, ◌&&◌, ◌||◌, Option, none, some, get_or, leb, ltb, ◌==◌,
  if◌then◌else◌,
}
use gdb_stub.Prelude.Int.{ℤ, pos}
use gdb_stub.Context.{Context}
use gdb_stub.Thread.{gdb_stub_should_run_thread}
use gdb_stub.Emu.Cpu.{Cpu, rv32_reg_t1, rv32_cpu_read_mem, rv32_cpu_write_mem}
use gdb_stub.Emu.Step.{rv32_cpu_step}
use gdb_stub.Emu.System.{System, Hooks, on_hart, machine_of, put_back, map_harts, can_step}
use gdb_stub.Emu.Sync.{
  smp_sync_base, smp_ipi_mmio, smp_sync_read_ram, smp_sync_read_mmio, smp_sync_write_ram,
  smp_sync_handle_mmio, smp_sync_on_counter_store,
}

unfoldable pub valid_hart_count : ℕ → Bool
valid_hart_count n = n == 1 || n == 2 || n == 4 || n == 8

abbrev pub sys_thread_id : ℕ → ℤ
sys_thread_id hart = pos (hart + 1)

-- some hart below `n` can step
unfoldable pub any_hart : ℕ → (ℕ → Cpu Hooks) → Bool
any_hart zero harts = false
any_hart (suc n) harts = any_hart n harts || can_step (harts n)

unfoldable pub sys_any_running : System → Bool
unfolding any_hart
sys_any_running sys = any_hart sys.num_harts sys.harts

unfoldable pub sys_halt_all : System → System
sys_halt_all = map_harts (λ h cpu. record cpu { halted = true })

-- `!g_gdb_ctx || gdb_stub_should_run_thread(g_gdb_ctx, sys_thread_id(h))`
abbrev pub should_resume : Option Context → ℕ → Bool
should_resume none h = true
should_resume (some ctx) h = gdb_stub_should_run_thread ctx (sys_thread_id h)

unfoldable pub sys_resume_runnable : System → System
sys_resume_runnable sys =
    map_harts (λ h cpu. if should_resume sys.gdb_ctx h then record cpu { halted = false } else cpu)
      sys

abbrev pub in_sync_area : ℕ → Bool
in_sync_area addr = leb smp_sync_base addr && ltb addr (smp_sync_base + 0x40)

unfoldable pub sys_read_mem : ℕ → ℕ → System → ℕ × System
unfolding smp_sync_read_ram smp_sync_read_mmio
sys_read_mem addr size sys =
    if in_sync_area addr
    then (smp_sync_read_ram sys addr size, sys)
    else if addr == smp_ipi_mmio
    then (smp_sync_read_mmio sys addr, sys)
    else let (value, m) = rv32_cpu_read_mem addr size (machine_of 0 sys) in
      (value, put_back 0 m sys)

-- `src ? src : &sys->harts[0]`
abbrev pub source_hart : Option ℕ → ℕ
source_hart none = 0
source_hart (some hart) = hart

unfoldable pub sys_write_mem : Option ℕ → ℕ → ℕ → ℕ → System → System
unfolding smp_sync_handle_mmio smp_sync_write_ram
sys_write_mem src addr value size sys =
    let (taken, after) = smp_sync_handle_mmio addr value size sys in
    if taken
    then after
    else if in_sync_area addr
    then (smp_sync_write_ram addr value size after).1
    else on_hart (source_hart src) (rv32_cpu_write_mem addr value size) after

unfoldable pub sys_post_step : ℕ → ℕ → System → System
unfolding smp_sync_on_counter_store
sys_post_step hart prev_pc sys =
    let cpu = sys.harts hart in
    if leb sys.num_harts 1
    then sys
    else if cpu.hart_id == 0 && prev_pc == 0x80000014
    then smp_sync_on_counter_store 0 (get_or cpu.regs rv32_reg_t1 0) sys
    else sys

unfoldable pub sys_cpu_step : ℕ → System → System
unfolding sys_post_step
sys_cpu_step hart sys = sys_post_step hart (sys.harts hart).pc (on_hart hart rv32_cpu_step sys)

-- the effect of `sigint_handler` on the system; it also stops the context and raises
-- `g_interrupt_received`
unfoldable pub stop_at_focus : System → System
unfolding sys_halt_all
stop_at_focus sys = record (sys_halt_all sys) { stop_hart = pos sys.focus_hart }
