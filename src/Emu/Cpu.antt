-- ===== src/Emu/Cpu.antt =====
-- One hart: `rv32_cpu_t` of emu/rv32_cpu.h, and the memory, register, reset and load functions of
-- emu/rv32_cpu.c. Messages on `stderr` are left out.
use gdb_stub.Prelude.{
  ℕ, ◌+◌, ◌-◌, ◌%◌, ◌^◌, Bool, true, false, ◌&&◌, ◌||◌, Option, none, some, List, [], ◌∷◌, ◌++◌,
  set, get_or, replicate, length, ltb, leb, ◌==◌, if◌then◌else◌,
}
use gdb_stub.Emu.Ram.{
  Ram, ram_size, ram_base, uart_base, set_byte, load16, load32, store16, store32, copy_bytes,
}

-- `RV32_REG_COUNT`, `RV32_REG_SP`, `RV32_REG_TP`, `RV32_REG_S0`, `RV32_REG_T1`
abbrev pub rv32_reg_count : ℕ
rv32_reg_count = 32

abbrev pub rv32_reg_sp : ℕ
rv32_reg_sp = 2

abbrev pub rv32_reg_tp : ℕ
rv32_reg_tp = 4

abbrev pub rv32_reg_t1 : ℕ
rv32_reg_t1 = 6

abbrev pub rv32_reg_s0 : ℕ
rv32_reg_s0 = 8

-- `rv32_watchpoint_check_fn` with its `void *` given: it answers, and it may change what it reaches
-- through that pointer and through global variables.
abbrev pub Check : Type 0 → Type 0
Check Env = ℕ → ℕ → Env → Bool × Env

-- `rv32_cpu_t` but for its array `memory`. `shared_ram` is whether the pointer is not null.
pub record Cpu (Env : Type 0) : Type 0 where
  pub regs : List ℕ
  pub pc : ℕ
  pub shared_ram : Bool
  pub hart_id : ℕ
  pub running : Bool
  pub single_step_mode : Bool
  pub halted : Bool
  pub instruction_count : ℕ
  pub check_watchpoint_read : Option (Check Env)
  pub check_watchpoint_write : Option (Check Env)

-- A hart, the array that `rv32_cpu_ram` gives for it, what was put on `stdout` by the UART, and what
-- the checks can reach.
pub record Machine (Env : Type 0) : Type 0 where
  pub cpu : Cpu Env
  pub ram : Ram
  pub output : List ℕ
  pub env : Env

-- the test for an access of `size` bytes inside the RAM
unfoldable pub in_ram : ℕ → ℕ → Bool
in_ram addr size = leb ram_base addr && ltb addr (ram_base + ram_size + 1 - size)

-- the `switch` on the size of a read; another size reads 0
unfoldable pub load_sized : ℕ → Ram → ℕ → ℕ
load_sized size ram offset =
    if size == 1
    then ram offset
    else if size == 2
    then load16 ram offset
    else if size == 4
    then load32 ram offset
    else 0

-- the `switch` on the size of a write; another size writes nothing
unfoldable pub store_sized : ℕ → ℕ → ℕ → Ram → Ram
store_sized size offset value ram =
    if size == 1
    then set_byte offset (value % 2 ^ 8) ram
    else if size == 2
    then store16 offset (value % 2 ^ 16) ram
    else if size == 4
    then store32 offset value ram
    else ram

-- `rv32_cpu_load_program`; the sum of a 32-bit address and a `size_t` does not wrap.
unfoldable pub rv32_cpu_load_program : List ℕ → ℕ → Ram → Bool × Ram
rv32_cpu_load_program program base_addr ram =
    if ltb base_addr ram_base || ltb (ram_base + ram_size) (base_addr + length program)
    then (false, ram)
    else (true, copy_bytes (base_addr - ram_base) program ram)

module _ {Env : Type 0} where
  abbrev pub empty_cpu : Cpu Env
  empty_cpu = record {
    regs = replicate rv32_reg_count 0;
    pc = 0;
    shared_ram = false;
    hart_id = 0;
    running = false;
    single_step_mode = false;
    halted = false;
    instruction_count = 0;
    check_watchpoint_read = none;
    check_watchpoint_write = none;
  }

  abbrev pub rv32_cpu_init : Cpu Env
  rv32_cpu_init = record empty_cpu {
    regs = set empty_cpu.regs rv32_reg_sp (ram_base + ram_size - 4);
    pc = ram_base;
    running = true;
    halted = false;
  }

  unfoldable pub rv32_cpu_reset : Cpu Env → Cpu Env
  rv32_cpu_reset cpu = record cpu {
    regs =
        set (set (replicate rv32_reg_count 0) rv32_reg_sp (ram_base + ram_size - 4)) rv32_reg_tp
          cpu.hart_id;
    pc = ram_base;
    running = true;
    halted = false;
    single_step_mode = false;
    instruction_count = 0;
  }

  -- `if (check && check(ctx, addr, size)) cpu->halted = true`
  unfoldable pub run_check : Option (Check Env) → ℕ → ℕ → Machine Env → Machine Env
  run_check none addr size m = m
  run_check (some check) addr size m =
      let (hit, env) = check addr size m.env in
      record m { cpu = record m.cpu { halted = hit || m.cpu.halted }; env = env }

  unfoldable pub rv32_cpu_read_mem : ℕ → ℕ → Machine Env → ℕ × Machine Env
  unfolding in_ram load_sized
  rv32_cpu_read_mem addr size m =
      let checked = run_check m.cpu.check_watchpoint_read addr size m in
      (if in_ram addr size then load_sized size checked.ram (addr - ram_base) else 0, checked)

  unfoldable pub rv32_cpu_write_mem : ℕ → ℕ → ℕ → Machine Env → Machine Env
  unfolding in_ram store_sized
  rv32_cpu_write_mem addr value size m =
      let checked = run_check m.cpu.check_watchpoint_write addr size m in
      if in_ram addr size
      then record checked { ram = store_sized size (addr - ram_base) value checked.ram }
      else if addr == uart_base && size == 1
      then record checked { output = checked.output ++ (value % 2 ^ 8 ∷ []) }
      else checked

  unfoldable pub rv32_cpu_read_reg : Cpu Env → ℕ → ℕ
  rv32_cpu_read_reg cpu reg =
      if reg == 0 then 0 else if leb rv32_reg_count reg then 0 else get_or cpu.regs reg 0

  unfoldable pub rv32_cpu_write_reg : Cpu Env → ℕ → ℕ → Cpu Env
  rv32_cpu_write_reg cpu reg value =
      if reg == 0
      then cpu
      else if leb rv32_reg_count reg
      then cpu
      else record cpu { regs = set cpu.regs reg value }
