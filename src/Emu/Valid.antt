-- ===== src/Emu/Valid.antt =====
-- When a machine of emu/rv32_cpu.c is well formed, and the functions that access its registers and
-- its memory.
pub mod Values
pub mod Step
pub mod System
pub mod Harts
pub mod Start
pub mod Reachable
use gdb_stub.Prelude.{
  ℕ, zero, suc, ◌+◌, ◌-◌, ◌*◌, ◌/◌, ◌%◌, ◌^◌, ◌<◌, ◌≡◌, refl, ◌∙◌, Bool, true, false, Bool-cases,
  inl, inr, Option, none, some, List, [], ◌∷◌, ◌++◌, ◌&&◌, set, get_or, length, length-set, leb,
  ltb, ◌==◌, if◌then◌else◌, arith,
}
use gdb_stub.Emu.Ram.{IsBytes, Ram, ram_base, uart_base, set_byte}
use gdb_stub.Emu.Cpu.{
  Cpu, Machine, Check, in_ram, load_sized, store_sized, run_check, rv32_cpu_read_mem,
  rv32_cpu_write_mem, rv32_cpu_read_reg, rv32_cpu_write_reg,
}

pub record IsValid {Env : Type 0} (m : Machine Env) : Type 0 where
  pub count : length m.cpu.regs ≡ 32
  pub x0 : get_or m.cpu.regs 0 0 ≡ 0
  pub words : (i : ℕ) → get_or m.cpu.regs i 0 < 2 ^ 32
  pub pc_word : m.cpu.pc < 2 ^ 32
  pub bytes : IsBytes m.ram

pub get_or-set-word :
    (xs : List ℕ) (i v : ℕ)
    → v < 2 ^ 32
    → ((j : ℕ) → get_or xs j 0 < 2 ^ 32)
    → (j : ℕ) → get_or (set xs i v) j 0 < 2 ^ 32
get_or-set-word [] i v h p j = p j
get_or-set-word (x ∷ xs) zero v h p zero = h
get_or-set-word (x ∷ xs) zero v h p (suc j) = p (suc j)
get_or-set-word (x ∷ xs) (suc i) v h p zero = p zero
get_or-set-word (x ∷ xs) (suc i) v h p (suc j) = get_or-set-word xs i v h (λ k. p (suc k)) j

pub get_or-set-zero :
    (xs : List ℕ) (i v : ℕ) → (i == 0) ≡ false → get_or (set xs i v) 0 0 ≡ get_or xs 0 0
get_or-set-zero [] i v h = refl
get_or-set-zero (x ∷ xs) zero v h = absurd (ground arith)
get_or-set-zero (x ∷ xs) (suc i) v h = refl

set_byte-IsBytes : (ram : Ram) (i b : ℕ) → b < 2 ^ 8 → IsBytes ram → IsBytes (set_byte i b ram)
set_byte-IsBytes ram i b h p j = ground (arith, p j)

pub store_sized-IsBytes :
    (size i v : ℕ) (ram : Ram) → IsBytes ram → IsBytes (store_sized size i v ram)
unfolding store_sized
store_sized-IsBytes size i v ram p j = ground (arith, p j)

module _ {Env : Type 0} where
  pub read_reg-word : (m : Machine Env) (r : ℕ) → IsValid m → rv32_cpu_read_reg m.cpu r < 2 ^ 32
  unfolding rv32_cpu_read_reg
  read_reg-word m r v = ground (arith, v.words r)

  pub with_reg-IsValid :
      (rd value : ℕ) (m : Machine Env)
      → value < 2 ^ 32
      → IsValid m
      → IsValid (record m { cpu = rv32_cpu_write_reg m.cpu rd value })
  unfolding rv32_cpu_write_reg
  with_reg-IsValid rd value m h v = elim (Bool-cases (rd == 0)) [
    | inl zero_reg ↦ rw (rv32_cpu_write_reg, zero_reg) v
    | inr other ↦ elim (Bool-cases (leb 32 rd)) [
      | inl past ↦ rw (rv32_cpu_write_reg, other, past) v
      | inr inside ↦
          rw (rv32_cpu_write_reg, other, inside)
            (record {
              count = length-set m.cpu.regs rd value ∙ v.count;
              x0 = get_or-set-zero m.cpu.regs rd value other ∙ v.x0;
              words = get_or-set-word m.cpu.regs rd value h v.words;
              pc_word = v.pc_word;
              bytes = v.bytes;
            })
    ]
  ]

  pub run_check-IsValid :
      (c : Option (Check Env)) (addr size : ℕ) (m : Machine Env)
      → IsValid m
      → IsValid (run_check c addr size m)
  unfolding run_check
  run_check-IsValid none addr size m v = v
  run_check-IsValid (some c) addr size m v = record {
    count = v.count;
    x0 = v.x0;
    words = v.words;
    pc_word = v.pc_word;
    bytes = v.bytes;
  }

  pub with_pc-IsValid :
      (pc : ℕ) (m : Machine Env)
      → pc < 2 ^ 32
      → IsValid m
      → IsValid (record m { cpu = record m.cpu { pc = pc } })
  with_pc-IsValid pc m h v = record {
    count = v.count;
    x0 = v.x0;
    words = v.words;
    pc_word = h;
    bytes = v.bytes;
  }

  pub rv32_cpu_read_mem-IsValid :
      (addr size : ℕ) (m : Machine Env) → IsValid m → IsValid (rv32_cpu_read_mem addr size m).1
  unfolding rv32_cpu_read_mem
  rv32_cpu_read_mem-IsValid addr size m v =
      run_check-IsValid m.cpu.check_watchpoint_read addr size m v

  with_ram-IsValid :
      (ram : Ram) (m : Machine Env) → IsBytes ram → IsValid m → IsValid (record m { ram = ram })
  with_ram-IsValid ram m b v = record {
    count = v.count;
    x0 = v.x0;
    words = v.words;
    pc_word = v.pc_word;
    bytes = b;
  }

  with_output-IsValid :
      (output : List ℕ) (m : Machine Env) → IsValid m → IsValid (record m { output = output })
  with_output-IsValid output m v = record {
    count = v.count;
    x0 = v.x0;
    words = v.words;
    pc_word = v.pc_word;
    bytes = v.bytes;
  }

  pub IsValid-if :
      (b : Bool) (m n : Machine Env) → IsValid m → IsValid n → IsValid (if b then m else n)
  IsValid-if true m n p q = p
  IsValid-if false m n p q = q

  pub rv32_cpu_write_mem-IsValid :
      (addr value size : ℕ) (m : Machine Env)
      → IsValid m
      → IsValid (rv32_cpu_write_mem addr value size m)
  unfolding rv32_cpu_write_mem
  rv32_cpu_write_mem-IsValid addr value size m v =
      let checked = run_check m.cpu.check_watchpoint_write addr size m in
      let w = run_check-IsValid m.cpu.check_watchpoint_write addr size m v in
      let stored = store_sized size (addr - ram_base) value checked.ram in
      let printed = checked.output ++ (value % 2 ^ 8 ∷ []) in
      IsValid-if (in_ram addr size) (record checked { ram = stored }) _
        (with_ram-IsValid stored checked
          (store_sized-IsBytes size (addr - ram_base) value checked.ram w.bytes) w)
        (IsValid-if (addr == uart_base && size == 1) (record checked { output = printed }) checked
          (with_output-IsValid printed checked w) w)
