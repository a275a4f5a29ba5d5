-- ===== src/Emu/Instr/Effects.antt =====
-- The effect of an instruction by the functions of emu/rv32_cpu.c is the one of the manual.
use gdb_stub.Prelude.{
  ℕ, zero, suc, ◌+◌, ◌-◌, ◌*◌, ◌%◌, ◌^◌, ◌<◌, ◌≡◌, ◌∙◌, refl, ap, ap₂, Bool, none, some, Option,
  get_or, if◌then◌else◌, arith,
}
use gdb_stub.Emu.Cpu.{
  Check, Cpu, Machine, run_check, rv32_cpu_read_mem, rv32_cpu_write_mem, rv32_cpu_read_reg,
  rv32_cpu_write_reg,
}
use gdb_stub.Emu.Step.{fetch, with_reg, add32}
use gdb_stub.Emu.Instr.{
  Instr, IsEncodable, LoadOp, extend, perform, load_result, store_size, alu_value, imm_value,
  shift_value, branch_taken,
}
use gdb_stub.Emu.Instr.Meaning.{reg, put, jump, advance, load_meaning, meaning}
use gdb_stub.Emu.Instr.Words.{
  alu_value-alu_meaning, imm_value-imm_meaning, shift_value-shift_meaning,
  branch_taken-branch_meaning,
}

-- the registers are words
abbrev pub HasWords : {Env : Type 0} → Cpu Env → Type 0
HasWords cpu = (i : ℕ) → get_or cpu.regs i 0 < 2 ^ 32

extend_12_lt : (imm : ℕ) → imm < 2 ^ 12 → extend 12 imm < 2 ^ 32
extend_12_lt imm h = ground arith

module _ {Env : Type 0} where
  pub fetch-advance : (m : Machine Env) → (fetch m).1 ≡ advance m
  unfolding fetch rv32_cpu_read_mem run_check
  fetch-advance m = go m.cpu.check_watchpoint_read
    where
      go :
          (c : Option (Check Env))
          → (record (run_check c m.cpu.pc 4 m) {
            cpu = record (run_check c m.cpu.pc 4 m).cpu {
              pc = add32 (run_check c m.cpu.pc 4 m).cpu.pc 4;
              instruction_count = ((run_check c m.cpu.pc 4 m).cpu.instruction_count + 1) % 2 ^ 64;
            };
          })
            ≡ record (run_check c m.cpu.pc 4 m) {
              cpu = record (run_check c m.cpu.pc 4 m).cpu {
                pc = (m.cpu.pc + 4) % 2 ^ 32;
                instruction_count = (m.cpu.instruction_count + 1) % 2 ^ 64;
              };
            }
      go none = refl
      go (some c) = refl

  pub advance-HasWords : (m : Machine Env) → HasWords m.cpu → HasWords (advance m).cpu
  unfolding rv32_cpu_read_mem run_check
  advance-HasWords m h = go m.cpu.check_watchpoint_read
    where
      go : (c : Option (Check Env)) → HasWords (run_check c m.cpu.pc 4 m).cpu
      go none = h
      go (some c) = h

  with_reg-put : (rd v : ℕ) (m : Machine Env) → rd < 32 → with_reg rd v m ≡ put rd v m
  unfolding rv32_cpu_write_reg
  with_reg-put zero v m h = refl
  with_reg-put (suc r) v m h = ground arith

  read_reg-reg : (cpu : Cpu Env) (r : ℕ) → r < 32 → rv32_cpu_read_reg cpu r ≡ reg cpu r
  unfolding rv32_cpu_read_reg
  read_reg-reg cpu r h = ground arith

  reg_lt : (cpu : Cpu Env) (r : ℕ) → HasWords cpu → reg cpu r < 2 ^ 32
  reg_lt cpu r h = ground (arith, h r)

  load_result-load_meaning :
      (l : LoadOp) (addr : ℕ) (m : Machine Env) → load_result l addr m ≡ load_meaning l addr m
  load_result-load_meaning LoadOp.lb addr m = refl
  load_result-load_meaning LoadOp.lh addr m = refl
  load_result-load_meaning LoadOp.lw addr m = refl
  load_result-load_meaning LoadOp.lbu addr m = refl
  load_result-load_meaning LoadOp.lhu addr m = refl

  pub perform-meaning :
      (i : Instr) (pc : ℕ) (m : Machine Env)
      → IsEncodable i
      → HasWords m.cpu
      → perform i pc m ≡ meaning i pc m
  unfolding perform meaning
  perform-meaning (Instr.lui rd imm) pc m (a, b) words = with_reg-put rd (imm * 2 ^ 12) m a
  perform-meaning (Instr.auipc rd imm) pc m (a, b) words =
      with_reg-put rd ((pc + imm * 2 ^ 12) % 2 ^ 32) m a
  perform-meaning (Instr.jal rd offset) pc m (a, b, c) words =
      ap (jump ((pc + extend 21 offset) % 2 ^ 32)) (with_reg-put rd m.cpu.pc m a)
  perform-meaning (Instr.jalr rd rs1 imm) pc m (a, b, c) words =
      ap₂ (λ (x : ℕ) (n : Machine Env). let t = (x + extend 12 imm) % 2 ^ 32 in jump (t - t % 2) n)
        (read_reg-reg m.cpu rs1 b) (with_reg-put rd m.cpu.pc m a)
  perform-meaning (Instr.branch o rs1 rs2 offset) pc m (a, b, c, d) words =
      let x = reg m.cpu rs1 in
      let y = reg m.cpu rs2 in
      ap (λ (t : Bool). if t then jump ((pc + extend 13 offset) % 2 ^ 32) m else m)
        (ap₂ (branch_taken o) (read_reg-reg m.cpu rs1 a) (read_reg-reg m.cpu rs2 b)
          ∙ branch_taken-branch_meaning x y (reg_lt m.cpu rs1 words) (reg_lt m.cpu rs2 words) o)
  perform-meaning (Instr.load l rd rs1 imm) pc m (a, b, c) words =
      let r = load_meaning l ((reg m.cpu rs1 + extend 12 imm) % 2 ^ 32) m in
      ap (λ (p : ℕ × Machine Env). with_reg rd p.0 p.1)
        (ap (λ (x : ℕ). load_result l ((x + extend 12 imm) % 2 ^ 32) m) (read_reg-reg m.cpu rs1 b)
          ∙ load_result-load_meaning l ((reg m.cpu rs1 + extend 12 imm) % 2 ^ 32) m)
      ∙ with_reg-put rd r.0 r.1 a
  perform-meaning (Instr.store s rs1 rs2 imm) pc m (a, b, c) words =
      ap₂ (λ (x y : ℕ). rv32_cpu_write_mem ((x + extend 12 imm) % 2 ^ 32) y (store_size s) m)
        (read_reg-reg m.cpu rs1 a) (read_reg-reg m.cpu rs2 b)
  perform-meaning (Instr.op_imm o rd rs1 imm) pc m (a, b, c) words =
      ap (λ (v : ℕ). with_reg rd v m)
        (ap (λ (x : ℕ). imm_value o x (extend 12 imm)) (read_reg-reg m.cpu rs1 b)
          ∙ imm_value-imm_meaning (reg m.cpu rs1) (extend 12 imm) (reg_lt m.cpu rs1 words)
              (extend_12_lt imm c) o)
      ∙ with_reg-put rd _ m a
  perform-meaning (Instr.shift_imm o rd rs1 amount) pc m (a, b, c) words =
      ap (λ (v : ℕ). with_reg rd v m)
        (ap (λ (x : ℕ). shift_value o x amount) (read_reg-reg m.cpu rs1 b)
          ∙ shift_value-shift_meaning o (reg m.cpu rs1) amount (reg_lt m.cpu rs1 words))
      ∙ with_reg-put rd _ m a
  perform-meaning (Instr.op o rd rs1 rs2) pc m (a, b, c) words =
      ap (λ (v : ℕ). with_reg rd v m)
        (ap₂ (alu_value o) (read_reg-reg m.cpu rs1 b) (read_reg-reg m.cpu rs2 c)
          ∙ alu_value-alu_meaning (reg m.cpu rs1) (reg m.cpu rs2) (reg_lt m.cpu rs1 words)
              (reg_lt m.cpu rs2 words) o)
      ∙ with_reg-put rd _ m a
  perform-meaning Instr.ecall pc m e words = refl
  perform-meaning Instr.ebreak pc m e words = refl
