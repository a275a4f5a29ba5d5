-- ===== src/Emu/Valid/System.antt =====
-- When the system of emu/main.c is well formed, and the functions of emu/main.c and emu/smp_sync.c
-- that step harts and write memory.
use gdb_stub.Prelude.{
  ℕ, zero, suc, ◌-◌, ◌/◌, ◌%◌, ◌^◌, ◌<◌, ◌≡◌, Bool, true, false, not, ◌&&◌, ◌||◌, Option, get_or,
  length, leb, ◌==◌, if◌then◌else◌,
}
use gdb_stub.Prelude.Int.{ℤ, pos, negsuc}
use gdb_stub.Thread.{is_negative}
use gdb_stub.Emu.Ram.{IsBytes, Ram, ram_base}
use gdb_stub.Emu.Cpu.{Cpu, Machine, store_sized, rv32_cpu_read_mem}
use gdb_stub.Emu.Step.{rv32_cpu_step}
use gdb_stub.Emu.System.{System, Hooks, update, array_of, machine_of, put_back, on_hart, can_step}
use gdb_stub.Emu.Sync.{
  smp_ipi_pending, smp_work_ready, smp_work_item, ram_write32, smp_deliver_ipi, worker_loop,
  worker_idle, smp_sync_run_worker_jobs, smp_worker_target, smp_sync_on_counter_store,
  smp_sync_handle_mmio, smp_sync_write_ram, smp_sync_read_ram, smp_sync_read_mmio, smp_ipi_mmio,
  not_worker, is_access_size, with_sync_ram, ipi_target,
}
use gdb_stub.Emu.Board.{
  valid_hart_count, sys_post_step, sys_cpu_step, sys_write_mem, source_hart, in_sync_area,
  sys_read_mem,
}
use gdb_stub.Emu.Valid.{
  IsValid, rv32_cpu_read_mem-IsValid, rv32_cpu_write_mem-IsValid, store_sized-IsBytes,
}
use gdb_stub.Emu.Valid.Step.{rv32_cpu_step-IsValid}

-- the invariant of a hart's registers
pub record CpuIsValid (cpu : Cpu Hooks) : Type 0 where
  pub count : length cpu.regs ≡ 32
  pub x0 : get_or cpu.regs 0 0 ≡ 0
  pub words : (i : ℕ) → get_or cpu.regs i 0 < 2 ^ 32
  pub pc_word : cpu.pc < 2 ^ 32

-- the invariant of all harts, of their arrays, and of the focus
pub record SystemIsValid (sys : System) : Type 0 where
  pub cpus : (h : ℕ) → CpuIsValid (sys.harts h)
  pub arrays : (a : ℕ) → IsBytes (sys.memory a)
  pub hart_count : valid_hart_count sys.num_harts ≡ true
  pub focused : sys.focus_hart < sys.num_harts

pub IsValid-cpu : (m : Machine Hooks) → IsValid m → CpuIsValid m.cpu
IsValid-cpu m v = record { count = v.count; x0 = v.x0; words = v.words; pc_word = v.pc_word }

machine_of-IsValid : (h : ℕ) (sys : System) → SystemIsValid sys → IsValid (machine_of h sys)
machine_of-IsValid h sys v =
    let c = v.cpus h in
    record {
      count = c.count;
      x0 = c.x0;
      words = c.words;
      pc_word = c.pc_word;
      bytes = v.arrays (array_of sys h);
    }

pub update_all :
    {A : Type 0} (P : A → Type 0) (i : ℕ) (a : A) (f : ℕ → A)
    → P a
    → ((j : ℕ) → P (f j))
    → (j : ℕ) → P (update i a f j)
update_all P i a f p q j = if-all P (i == j) a (f j) p (q j)
  where
    if-all : {A : Type 0} (P : A → Type 0) (b : Bool) (x y : A) → P x → P y → P (if b then x else y)
    if-all P true x y p q = p
    if-all P false x y p q = q

pub put_back-SystemIsValid :
    (h : ℕ) (m : Machine Hooks) (sys : System)
    → IsValid m
    → SystemIsValid sys
    → SystemIsValid (put_back h m sys)
put_back-SystemIsValid h m sys w v = record {
  cpus = update_all CpuIsValid h m.cpu sys.harts (IsValid-cpu m w) v.cpus;
  arrays = update_all IsBytes (array_of sys h) m.ram sys.memory w.bytes v.arrays;
  hart_count = v.hart_count;
  focused = v.focused;
}

pub SystemIsValid-if :
    (b : Bool) (s t : System)
    → SystemIsValid s
    → SystemIsValid t
    → SystemIsValid (if b then s else t)
SystemIsValid-if true s t p q = p
SystemIsValid-if false s t p q = q

with_ram-SystemIsValid :
    (a : ℕ) (ram : Ram) (sys : System)
    → IsBytes ram
    → SystemIsValid sys
    → SystemIsValid (record sys { memory = update a ram sys.memory })
with_ram-SystemIsValid a ram sys b v = record {
  cpus = v.cpus;
  arrays = update_all IsBytes a ram sys.memory b v.arrays;
  hart_count = v.hart_count;
  focused = v.focused;
}

pub ram_write32-SystemIsValid :
    (addr value : ℕ) (sys : System) → SystemIsValid sys → SystemIsValid (ram_write32 addr value sys)
unfolding ram_write32 store_sized
ram_write32-SystemIsValid addr value sys v = SystemIsValid-if _ sys _ v (
    with_ram-SystemIsValid (array_of sys 0) _ sys
      (store_sized-IsBytes 4 (addr - ram_base) value (sys.memory (array_of sys 0))
        (v.arrays (array_of sys 0)))
      v)

smp_deliver_ipi-SystemIsValid :
    (target : ℤ) (item : ℕ) (sys : System)
    → SystemIsValid sys
    → SystemIsValid (smp_deliver_ipi target item sys)
unfolding smp_deliver_ipi
smp_deliver_ipi-SystemIsValid (negsuc n) item sys v = v
smp_deliver_ipi-SystemIsValid (pos target) item sys v =
    SystemIsValid-if (not_worker sys target) sys _ v (
      ram_write32-SystemIsValid (smp_ipi_pending target) 1 _ (
        ram_write32-SystemIsValid smp_work_ready 1 _
          (ram_write32-SystemIsValid smp_work_item item sys v)))

step-SystemIsValid :
    (h : ℕ) (sys : System) → SystemIsValid sys → SystemIsValid (on_hart h rv32_cpu_step sys)
step-SystemIsValid h sys v =
    put_back-SystemIsValid h _ sys
      (rv32_cpu_step-IsValid (machine_of h sys) (machine_of-IsValid h sys v)) v

elim-SystemIsValid :
    (b : Bool) (s t : System)
    → SystemIsValid s
    → SystemIsValid t
    → SystemIsValid (elim b [ true ↦ s | false ↦ t ])
elim-SystemIsValid true s t p q = p
elim-SystemIsValid false s t p q = q

worker_loop-SystemIsValid :
    (guard h : ℕ) (sys : System) → SystemIsValid sys → SystemIsValid (worker_loop guard h sys)
unfolding worker_loop
worker_loop-SystemIsValid zero h sys v = v
worker_loop-SystemIsValid (suc guard) h sys v =
    let stepped = on_hart h rv32_cpu_step sys in
    let w = step-SystemIsValid h sys v in
    elim-SystemIsValid (can_step (sys.harts h)) _ sys
      (elim-SystemIsValid (worker_idle h stepped) stepped (worker_loop guard h stepped) w
        (worker_loop-SystemIsValid guard h stepped w))
      v

smp_sync_run_worker_jobs-SystemIsValid :
    (target : ℤ) (sys : System)
    → SystemIsValid sys
    → SystemIsValid (smp_sync_run_worker_jobs target sys)
unfolding smp_sync_run_worker_jobs
smp_sync_run_worker_jobs-SystemIsValid (negsuc n) sys v = v
smp_sync_run_worker_jobs-SystemIsValid (pos h) sys v =
    SystemIsValid-if _ sys _ v (SystemIsValid-if _ sys _ v (worker_loop-SystemIsValid 128 h sys v))

dispatch-SystemIsValid :
    (target : ℤ) (item : ℕ) (sys : System)
    → SystemIsValid sys
    → SystemIsValid (smp_sync_run_worker_jobs target (smp_deliver_ipi target item sys))
dispatch-SystemIsValid target item sys v =
    smp_sync_run_worker_jobs-SystemIsValid target _
      (smp_deliver_ipi-SystemIsValid target item sys v)

sys_post_step-SystemIsValid :
    (h prev_pc : ℕ) (sys : System) → SystemIsValid sys → SystemIsValid (sys_post_step h prev_pc sys)
unfolding sys_post_step smp_sync_on_counter_store
sys_post_step-SystemIsValid h prev_pc sys v =
    let counter = get_or (sys.harts h).regs 6 0 in
    let target = smp_worker_target sys counter in
    SystemIsValid-if (leb sys.num_harts 1) sys _ v (
      SystemIsValid-if ((sys.harts h).hart_id == 0 && prev_pc == 0x80000014) _ sys
        (SystemIsValid-if (leb sys.num_harts 1 || not (0 == 0)) sys _ v (
          SystemIsValid-if (is_negative target) sys _ v
            (dispatch-SystemIsValid target counter sys v)))
        v)

pub sys_cpu_step-SystemIsValid :
    (h : ℕ) (sys : System) → SystemIsValid sys → SystemIsValid (sys_cpu_step h sys)
unfolding sys_cpu_step
sys_cpu_step-SystemIsValid h sys v = sys_post_step-SystemIsValid h _ _ (step-SystemIsValid h sys v)

pair-if :
    {A : Type 0} (b : Bool) (r s : A × System)
    → SystemIsValid r.1
    → SystemIsValid s.1
    → SystemIsValid (if b then r else s).1
pair-if true r s p q = p
pair-if false r s p q = q

handle_mmio-SystemIsValid :
    (addr value size : ℕ) (sys : System)
    → SystemIsValid sys
    → SystemIsValid (smp_sync_handle_mmio addr value size sys).1
unfolding smp_sync_handle_mmio
handle_mmio-SystemIsValid addr value size sys v =
    let item = value % 2 ^ 16 in
    let target = ipi_target sys (value / 2 ^ 16 % 2 ^ 8) item in
    pair-if _ (false, sys) (true, smp_sync_run_worker_jobs target (smp_deliver_ipi target item sys))
      v (dispatch-SystemIsValid target item sys v)

write_ram-SystemIsValid :
    (addr value size : ℕ) (sys : System)
    → SystemIsValid sys
    → SystemIsValid (smp_sync_write_ram addr value size sys).1
unfolding smp_sync_write_ram
write_ram-SystemIsValid addr value size sys v =
    let ram = sys.memory (array_of sys 0) in
    let stored = store_sized size (addr - ram_base) value ram in
    pair-if _ (false, sys) (is_access_size size, with_sync_ram stored sys) v
      (with_ram-SystemIsValid (array_of sys 0) stored sys
        (store_sized-IsBytes size (addr - ram_base) value ram (v.arrays (array_of sys 0))) v)

pub sys_read_mem-SystemIsValid :
    (addr size : ℕ) (sys : System)
    → SystemIsValid sys
    → SystemIsValid (sys_read_mem addr size sys).1
unfolding sys_read_mem
sys_read_mem-SystemIsValid addr size sys v =
    let read =
      put_back-SystemIsValid 0 (rv32_cpu_read_mem addr size (machine_of 0 sys)).1 sys
        (rv32_cpu_read_mem-IsValid addr size (machine_of 0 sys) (machine_of-IsValid 0 sys v)) v in
    pair-if (in_sync_area addr) (smp_sync_read_ram sys addr size, sys) _ v
      (pair-if (addr == smp_ipi_mmio) (smp_sync_read_mmio sys addr, sys)
        (
          (rv32_cpu_read_mem addr size (machine_of 0 sys)).0,
          put_back 0 (rv32_cpu_read_mem addr size (machine_of 0 sys)).1 sys,
        )
        v read)

pub sys_write_mem-SystemIsValid :
    (src : Option ℕ) (addr value size : ℕ) (sys : System)
    → SystemIsValid sys
    → SystemIsValid (sys_write_mem src addr value size sys)
unfolding sys_write_mem smp_sync_handle_mmio smp_sync_write_ram
sys_write_mem-SystemIsValid src addr value size sys v =
    let after = (smp_sync_handle_mmio addr value size sys).1 in
    let w = handle_mmio-SystemIsValid addr value size sys v in
    let hart = source_hart src in
    SystemIsValid-if (smp_sync_handle_mmio addr value size sys).0 after _ w (
      SystemIsValid-if (in_sync_area addr) (smp_sync_write_ram addr value size after).1 _
        (write_ram-SystemIsValid addr value size after w)
        (put_back-SystemIsValid hart _ after
          (rv32_cpu_write_mem-IsValid addr value size (machine_of hart after)
            (machine_of-IsValid hart after w))
          w))
