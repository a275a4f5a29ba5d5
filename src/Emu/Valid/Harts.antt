-- ===== src/Emu/Valid/Harts.antt =====
-- The functions of emu/main.c that change harts, and well-formed harts.
use gdb_stub.Prelude.{
  ℕ, zero, suc, ◌+◌, ◌-◌, ◌^◌, ◌<◌, ◌≡◌, refl, ◌∙◌, Bool, true, false, Bool-cases, inl, inr,
  replicate, set, get_or, length-set, leb, ltb, ltb→lt, ◌==◌, if◌then◌else◌, arith,
}
use gdb_stub.Emu.Ram.{ram_base, ram_size}
use gdb_stub.Emu.Cpu.{
  Cpu, rv32_reg_sp, rv32_reg_tp, rv32_reg_s0, rv32_cpu_reset, rv32_cpu_write_reg,
}
use gdb_stub.Emu.System.{System, Hooks, map_harts, with_hart, setup_hart_watchpoints}
use gdb_stub.Emu.Sync.{smp_sync_base, smp_worker_poll, smp_sync_init_worker_hart}
use gdb_stub.Emu.Program.{start_worker, init_hart}
use gdb_stub.Emu.Callbacks.{reset_hart}
use gdb_stub.Emu.Valid.{get_or-set-word, get_or-set-zero}
use gdb_stub.Emu.Valid.System.{CpuIsValid, SystemIsValid, update_all}

CpuIsValid-cond :
    (b : Bool) (c d : Cpu Hooks)
    → (b ≡ true → CpuIsValid c)
    → CpuIsValid d
    → CpuIsValid (if b then c else d)
CpuIsValid-cond true c d p q = p refl
CpuIsValid-cond false c d p q = q

pub map_harts-SystemIsValid :
    (f : ℕ → Cpu Hooks → Cpu Hooks) (sys : System)
    → ((h : ℕ) → h < sys.num_harts → CpuIsValid (sys.harts h) → CpuIsValid (f h (sys.harts h)))
    → SystemIsValid sys
    → SystemIsValid (map_harts f sys)
map_harts-SystemIsValid f sys p v = record {
  cpus = λ h.
      CpuIsValid-cond (ltb h sys.num_harts) (f h (sys.harts h)) (sys.harts h)
        (λ e. p h (ltb→lt h sys.num_harts e) (v.cpus h)) (v.cpus h);
  arrays = v.arrays;
  hart_count = v.hart_count;
  focused = v.focused;
}

pub with_hart-SystemIsValid :
    (h : ℕ) (cpu : Cpu Hooks) (sys : System)
    → CpuIsValid cpu
    → SystemIsValid sys
    → SystemIsValid (with_hart h cpu sys)
with_hart-SystemIsValid h cpu sys c v = record {
  cpus = update_all CpuIsValid h cpu sys.harts c v.cpus;
  arrays = v.arrays;
  hart_count = v.hart_count;
  focused = v.focused;
}

pub set_halted-CpuIsValid :
    (b : Bool) (cpu : Cpu Hooks) → CpuIsValid cpu → CpuIsValid (record cpu { halted = b })
set_halted-CpuIsValid b cpu v = record {
  count = v.count;
  x0 = v.x0;
  words = v.words;
  pc_word = v.pc_word;
}

pub set_pc-CpuIsValid :
    (pc : ℕ) (cpu : Cpu Hooks) → pc < 2 ^ 32 → CpuIsValid cpu → CpuIsValid (record cpu { pc = pc })
set_pc-CpuIsValid pc cpu h v = record { count = v.count; x0 = v.x0; words = v.words; pc_word = h }

pub CpuIsValid-if :
    (b : Bool) (c d : Cpu Hooks) → CpuIsValid c → CpuIsValid d → CpuIsValid (if b then c else d)
CpuIsValid-if true c d p q = p
CpuIsValid-if false c d p q = q

pub get_or-replicate : (n i : ℕ) → get_or (replicate n 0) i 0 < 2 ^ 32
get_or-replicate zero i = omega arith
get_or-replicate (suc n) zero = omega arith
get_or-replicate (suc n) (suc i) = get_or-replicate n i

set_reg-CpuIsValid :
    (r value : ℕ) (cpu : Cpu Hooks)
    → (r == 0) ≡ false
    → value < 2 ^ 32
    → CpuIsValid cpu
    → CpuIsValid (record cpu { regs = set cpu.regs r value })
set_reg-CpuIsValid r value cpu nonzero h v = record {
  count = length-set cpu.regs r value ∙ v.count;
  x0 = get_or-set-zero cpu.regs r value nonzero ∙ v.x0;
  words = get_or-set-word cpu.regs r value h v.words;
  pc_word = v.pc_word;
}

pub start_worker-CpuIsValid :
    (h : ℕ) (cpu : Cpu Hooks) → CpuIsValid cpu → CpuIsValid (start_worker h cpu)
unfolding smp_sync_init_worker_hart
start_worker-CpuIsValid h cpu v = CpuIsValid-if (h == 0) cpu _ v (
    set_pc-CpuIsValid smp_worker_poll _ (omega arith)
      (set_reg-CpuIsValid rv32_reg_s0 smp_sync_base cpu refl (omega arith) v))

pub reset_hart-CpuIsValid : (h : ℕ) (cpu : Cpu Hooks) → h < 2 ^ 32 → CpuIsValid (reset_hart h cpu)
unfolding reset_hart rv32_cpu_reset
reset_hart-CpuIsValid h cpu l = start_worker-CpuIsValid h _ (record {
  count = refl;
  x0 = refl;
  words =
      get_or-set-word (set (replicate 32 0) rv32_reg_sp (ram_base + ram_size - 4)) rv32_reg_tp h l (
        get_or-set-word (replicate 32 0) rv32_reg_sp (ram_base + ram_size - 4) (omega arith)
          (get_or-replicate 32));
  pc_word = omega arith;
})

pub write_reg-CpuIsValid :
    (r value : ℕ) (cpu : Cpu Hooks)
    → value < 2 ^ 32
    → CpuIsValid cpu
    → CpuIsValid (rv32_cpu_write_reg cpu r value)
unfolding rv32_cpu_write_reg
write_reg-CpuIsValid r value cpu h v = elim (Bool-cases (r == 0)) [
  | inl zero_reg ↦ rw (rv32_cpu_write_reg, zero_reg) v
  | inr other ↦ elim (Bool-cases (leb 32 r)) [
    | inl past ↦ rw (rv32_cpu_write_reg, other, past) v
    | inr inside ↦ rw (rv32_cpu_write_reg, other, inside) (set_reg-CpuIsValid r value cpu other h v)
  ]
]

pub init_hart-CpuIsValid : (h : ℕ) → h < 2 ^ 32 → CpuIsValid (init_hart h)
unfolding init_hart setup_hart_watchpoints
init_hart-CpuIsValid h l = record {
  count = refl;
  x0 = refl;
  words =
      get_or-set-word (set (replicate 32 0) rv32_reg_sp (ram_base + ram_size - 4)) rv32_reg_tp h l (
        get_or-set-word (replicate 32 0) rv32_reg_sp (ram_base + ram_size - 4) (omega arith)
          (get_or-replicate 32));
  pc_word = omega arith;
}
