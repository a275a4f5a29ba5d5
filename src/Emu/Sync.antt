-- ===== src/Emu/Sync.antt =====
-- emu/smp_sync.c: the area in RAM by which the harts share work, and the interrupts between harts.
-- `sync_ram` is never null, since it is an array of hart 0 or shared.
use gdb_stub.Prelude.{
  ℕ, zero, suc, ◌+◌, ◌-◌, ◌*◌, ◌/◌, ◌%◌, ◌^◌, Bool, true, false, not, ◌&&◌, ◌||◌, set, leb, ltb,
  ◌==◌, if◌then◌else◌,
}
use gdb_stub.Prelude.Int.{ℤ, pos, negsuc, minus_one}
use gdb_stub.Thread.{is_negative}
use gdb_stub.Emu.Ram.{Ram, ram_size, ram_base, load32, store32}
use gdb_stub.Emu.Cpu.{Cpu, rv32_reg_s0, load_sized, store_sized}
use gdb_stub.Emu.Step.{rv32_cpu_step}
use gdb_stub.Emu.System.{System, Hooks, update, array_of, on_hart, can_step}

-- The constants of emu/smp_sync.h and emu/smp_program.h.
abbrev pub smp_sync_base : ℕ
smp_sync_base = 0x80002000

abbrev pub smp_ipi_mmio : ℕ
smp_ipi_mmio = 0x10000004

abbrev pub smp_lock : ℕ
smp_lock = smp_sync_base + 0

abbrev pub smp_work_item : ℕ
smp_work_item = smp_sync_base + 4

abbrev pub smp_work_ready : ℕ
smp_work_ready = smp_sync_base + 8

abbrev pub smp_shared_done : ℕ
smp_shared_done = smp_sync_base + 0xc

-- `SMP_SYNC_BASE + SMP_OFF_IPI_PENDING + hart * 4`
abbrev pub smp_ipi_pending : ℕ → ℕ
smp_ipi_pending hart = smp_sync_base + 0x10 + hart * 4

abbrev pub smp_num_harts : ℕ
smp_num_harts = smp_sync_base + 0x30

abbrev pub rv32_max_harts : ℕ
rv32_max_harts = 8

abbrev pub smp_worker_poll : ℕ
smp_worker_poll = 0x80000034

abbrev pub smp_worker_spin : ℕ
smp_worker_spin = 0x80000050

abbrev pub smp_worker_handle : ℕ
smp_worker_handle = 0x80000054

abbrev pub smp_worker_end : ℕ
smp_worker_end = 0x80000090

abbrev pub sync_ram : System → Ram
sync_ram sys = sys.memory (array_of sys 0)

abbrev pub with_sync_ram : Ram → System → System
with_sync_ram ram sys = record sys { memory = update (array_of sys 0) ram sys.memory }

-- `addr < RAM_BASE || addr + 4 > RAM_BASE + RAM_SIZE`, a `uint32_t` sum
abbrev pub outside_ram : ℕ → Bool
outside_ram addr = ltb addr ram_base || ltb (ram_base + ram_size) ((addr + 4) % 2 ^ 32)

unfoldable pub ram_read32 : System → ℕ → ℕ
ram_read32 sys addr = if outside_ram addr then 0 else load32 (sync_ram sys) (addr - ram_base)

unfoldable pub ram_write32 : ℕ → ℕ → System → System
ram_write32 addr value sys =
    if outside_ram addr
    then sys
    else with_sync_ram (store32 (addr - ram_base) value (sync_ram sys)) sys

unfoldable pub smp_worker_target : System → ℕ → ℤ
smp_worker_target sys work_item =
    if leb sys.num_harts 1 then minus_one else pos (work_item % (sys.num_harts - 1) + 1)

-- `hart <= 0 || hart >= sys->num_harts`
abbrev pub not_worker : System → ℕ → Bool
not_worker sys hart = hart == 0 || leb sys.num_harts hart

unfoldable pub smp_deliver_ipi : ℤ → ℕ → System → System
unfolding ram_write32
smp_deliver_ipi (negsuc n) work_item sys = sys
smp_deliver_ipi (pos target) work_item sys =
    if not_worker sys target
    then sys
    else ram_write32 (smp_ipi_pending target) 1
        (ram_write32 smp_work_ready 1 (ram_write32 smp_work_item work_item sys))

unfoldable pub smp_sync_reset : ℕ → System → System
smp_sync_reset num_harts sys = record sys { sync_num_harts = num_harts % 2 ^ 32 }

-- the loop that clears the words of harts `n - 1`, …, 0, here from the last write to the first
unfoldable pub clear_ipis : ℕ → System → System
unfolding ram_write32
clear_ipis zero sys = sys
clear_ipis (suc n) sys = ram_write32 (smp_ipi_pending n) 0 (clear_ipis n sys)

unfoldable pub smp_sync_ram_init : System → System
unfolding ram_write32
smp_sync_ram_init sys = clear_ipis rv32_max_harts (
    ram_write32 smp_num_harts sys.num_harts (
      ram_write32 smp_shared_done 0
        (ram_write32 smp_work_ready 0 (ram_write32 smp_work_item 0 (ram_write32 smp_lock 0 sys)))))

unfoldable pub smp_sync_init_worker_hart : Cpu Hooks → Cpu Hooks
smp_sync_init_worker_hart cpu = record cpu {
  regs = set cpu.regs rv32_reg_s0 smp_sync_base;
  pc = smp_worker_poll;
}

abbrev pub in_handler : ℕ → Bool
in_handler pc = leb smp_worker_handle pc && ltb pc smp_worker_end

unfoldable pub smp_sync_worker_should_run : System → ℕ → Bool
unfolding ram_read32
smp_sync_worker_should_run sys hart_id =
    if not_worker sys hart_id
    then false
    else in_handler (sys.harts hart_id).pc || not (ram_read32 sys (smp_ipi_pending hart_id) == 0)

-- the end of the loop's body: at the poll or the spin with no interrupt pending
abbrev pub worker_idle : ℕ → System → Bool
worker_idle hart_id sys =
    let pc = (sys.harts hart_id).pc in
    (pc == smp_worker_poll || pc == smp_worker_spin)
    && ram_read32 sys (smp_ipi_pending hart_id) == 0

-- the loop, by its counter `guard`
unfoldable pub worker_loop : ℕ → ℕ → System → System
unfolding ram_read32
worker_loop zero hart_id sys = sys
worker_loop (suc guard) hart_id sys = elim (can_step (sys.harts hart_id)) [
  | false ↦ sys
  | true ↦
      let stepped = on_hart hart_id rv32_cpu_step sys in
      elim (worker_idle hart_id stepped) [
        | true ↦ stepped
        | false ↦ worker_loop guard hart_id stepped
      ]
]

unfoldable pub smp_sync_run_worker_jobs : ℤ → System → System
unfolding smp_sync_worker_should_run worker_loop
smp_sync_run_worker_jobs (negsuc n) sys = sys
smp_sync_run_worker_jobs (pos hart_id) sys =
    if not_worker sys hart_id
    then sys
    else if not (smp_sync_worker_should_run sys hart_id)
    then sys
    else worker_loop 128 hart_id sys

-- `if (target <= 0) target = smp_worker_target(sys, work_item)`
unfoldable pub ipi_target : System → ℕ → ℕ → ℤ
unfolding smp_worker_target
ipi_target sys named work_item = if named == 0 then smp_worker_target sys work_item else pos named

unfoldable pub smp_sync_handle_mmio : ℕ → ℕ → ℕ → System → Bool × System
unfolding ipi_target smp_deliver_ipi smp_sync_run_worker_jobs
smp_sync_handle_mmio addr value size sys =
    if not (addr == smp_ipi_mmio) || not (size == 4)
    then (false, sys)
    else let named = value / 2 ^ 16 % 2 ^ 8 in
      let work_item = value % 2 ^ 16 in
      let target = ipi_target sys named work_item in
      (true, smp_sync_run_worker_jobs target (smp_deliver_ipi target work_item sys))

-- `addr < SMP_SYNC_BASE || addr + size > SMP_SYNC_BASE + 0x40`, a `uint32_t` sum
abbrev pub outside_sync : ℕ → ℕ → Bool
outside_sync addr size =
    ltb addr smp_sync_base || ltb (smp_sync_base + 0x40) ((addr + size) % 2 ^ 32)

abbrev pub is_access_size : ℕ → Bool
is_access_size size = size == 1 || size == 2 || size == 4

unfoldable pub smp_sync_write_ram : ℕ → ℕ → ℕ → System → Bool × System
unfolding store_sized
smp_sync_write_ram addr value size sys = if outside_sync addr size then (false, sys) else (
  is_access_size size,
  with_sync_ram (store_sized size (addr - ram_base) value (sync_ram sys)) sys,
)

unfoldable pub smp_sync_read_ram : System → ℕ → ℕ → ℕ
unfolding load_sized
smp_sync_read_ram sys addr size =
    if outside_sync addr size then 0 else load_sized size (sync_ram sys) (addr - ram_base)

unfoldable pub smp_sync_read_mmio : System → ℕ → ℕ
unfolding ram_read32
smp_sync_read_mmio sys addr = if addr == smp_ipi_mmio then ram_read32 sys smp_shared_done else 0

unfoldable pub smp_sync_on_counter_store : ℕ → ℕ → System → System
unfolding smp_worker_target smp_deliver_ipi smp_sync_run_worker_jobs
smp_sync_on_counter_store src_hart counter sys =
    if leb sys.num_harts 1 || not (src_hart == 0)
    then sys
    else let target = smp_worker_target sys counter in
      if is_negative target
      then sys
      else smp_sync_run_worker_jobs target (smp_deliver_ipi target counter sys)
