-- ===== src/Emu/Instr/Meaning.antt =====
-- What an instruction of RV32I does, after the RISC-V manual: on words below 2 ^ 32, without the
-- functions by which emu/rv32_cpu.c computes it.
use gdb_stub.Prelude.{
  ℕ, zero, suc, ◌+◌, ◌-◌, ◌*◌, ◌/◌, ◌%◌, ◌^◌, bit_or, bit_and, bit_xor, Bool, true, false, not, ltb,
  leb, ◌==◌, set, get_or, if◌then◌else◌,
}
use gdb_stub.Emu.Cpu.{Cpu, Machine, rv32_cpu_read_mem, rv32_cpu_write_mem}
use gdb_stub.Emu.Instr.{Instr, AluOp, ImmOp, ShiftOp, BranchOp, LoadOp, extend, store_size}

-- the sign bit
abbrev pub is_minus : ℕ → Bool
is_minus a = leb (2 ^ 31) a

-- the order of two's complement numbers
abbrev pub signed_less : ℕ → ℕ → Bool
signed_less a b =
    if is_minus a
    then (if is_minus b then ltb a b else true)
    else (if is_minus b then false else ltb a b)

-- shifts by one bit; the last keeps the sign bit
abbrev pub double : ℕ → ℕ
double a = a * 2 % 2 ^ 32

abbrev pub halve : ℕ → ℕ
halve a = a / 2

abbrev pub halve_signed : ℕ → ℕ
halve_signed a = if is_minus a then a / 2 + 2 ^ 31 else a / 2

abbrev pub times : ℕ → (ℕ → ℕ) → ℕ → ℕ
times zero f a = a
times (suc n) f a = f (times n f a)

abbrev pub flag : Bool → ℕ
flag true = 1
flag false = 0

abbrev pub alu_meaning : AluOp → ℕ → ℕ → ℕ
alu_meaning AluOp.add a b = (a + b) % 2 ^ 32
alu_meaning AluOp.sub a b = (a + (2 ^ 32 - b)) % 2 ^ 32
alu_meaning AluOp.sll a b = times (b % 32) double a
alu_meaning AluOp.slt a b = flag (signed_less a b)
alu_meaning AluOp.sltu a b = flag (ltb a b)
alu_meaning AluOp.xor a b = bit_xor a b
alu_meaning AluOp.srl a b = times (b % 32) halve a
alu_meaning AluOp.sra a b = times (b % 32) halve_signed a
alu_meaning AluOp.or a b = bit_or a b
alu_meaning AluOp.and a b = bit_and a b

abbrev pub imm_meaning : ImmOp → ℕ → ℕ → ℕ
imm_meaning ImmOp.addi a b = (a + b) % 2 ^ 32
imm_meaning ImmOp.slti a b = flag (signed_less a b)
imm_meaning ImmOp.sltiu a b = flag (ltb a b)
imm_meaning ImmOp.xori a b = bit_xor a b
imm_meaning ImmOp.ori a b = bit_or a b
imm_meaning ImmOp.andi a b = bit_and a b

abbrev pub shift_meaning : ShiftOp → ℕ → ℕ → ℕ
shift_meaning ShiftOp.slli a k = times k double a
shift_meaning ShiftOp.srli a k = times k halve a
shift_meaning ShiftOp.srai a k = times k halve_signed a

abbrev pub branch_meaning : BranchOp → ℕ → ℕ → Bool
branch_meaning BranchOp.beq a b = a == b
branch_meaning BranchOp.bne a b = not (a == b)
branch_meaning BranchOp.blt a b = signed_less a b
branch_meaning BranchOp.bge a b = not (signed_less a b)
branch_meaning BranchOp.bltu a b = ltb a b
branch_meaning BranchOp.bgeu a b = leb b a

module _ {Env : Type 0} where
  -- x0 reads 0, and is not written
  abbrev pub reg : Cpu Env → ℕ → ℕ
  reg cpu r = if r == 0 then 0 else get_or cpu.regs r 0

  abbrev pub put : ℕ → ℕ → Machine Env → Machine Env
  put rd v m = record m {
    cpu = record m.cpu { regs = if rd == 0 then m.cpu.regs else set m.cpu.regs rd v };
  }

  abbrev pub jump : ℕ → Machine Env → Machine Env
  jump target m = record m { cpu = record m.cpu { pc = target } }

  -- the read of the instruction, with its watchpoint check, has been done, and `pc` is the next address
  abbrev pub advance : Machine Env → Machine Env
  advance m =
      let after = (rv32_cpu_read_mem m.cpu.pc 4 m).1 in
      record after {
        cpu = record after.cpu {
          pc = (m.cpu.pc + 4) % 2 ^ 32;
          instruction_count = (m.cpu.instruction_count + 1) % 2 ^ 64;
        };
      }

  -- the value loaded, and the machine after the access with its watchpoint check
  abbrev pub load_meaning : LoadOp → ℕ → Machine Env → ℕ × Machine Env
  load_meaning LoadOp.lb addr m = let (v, after) = rv32_cpu_read_mem addr 1 m in (extend 8 v, after)
  load_meaning LoadOp.lh addr m =
      let (v, after) = rv32_cpu_read_mem addr 2 m in (extend 16 v, after)
  load_meaning LoadOp.lw addr m = rv32_cpu_read_mem addr 4 m
  load_meaning LoadOp.lbu addr m = rv32_cpu_read_mem addr 1 m
  load_meaning LoadOp.lhu addr m = rv32_cpu_read_mem addr 2 m

  -- the instruction at `pc`, on the machine after `advance`
  unfoldable pub meaning : Instr → ℕ → Machine Env → Machine Env
  meaning (Instr.lui rd imm) pc m = put rd (imm * 2 ^ 12) m
  meaning (Instr.auipc rd imm) pc m = put rd ((pc + imm * 2 ^ 12) % 2 ^ 32) m
  meaning (Instr.jal rd offset) pc m = jump ((pc + extend 21 offset) % 2 ^ 32) (put rd m.cpu.pc m)
  meaning (Instr.jalr rd rs1 imm) pc m =
      let target = (reg m.cpu rs1 + extend 12 imm) % 2 ^ 32 in
      jump (target - target % 2) (put rd m.cpu.pc m)
  meaning (Instr.branch b rs1 rs2 offset) pc m =
      if branch_meaning b (reg m.cpu rs1) (reg m.cpu rs2)
      then jump ((pc + extend 13 offset) % 2 ^ 32) m
      else m
  meaning (Instr.load l rd rs1 imm) pc m =
      let (v, after) = load_meaning l ((reg m.cpu rs1 + extend 12 imm) % 2 ^ 32) m in put rd v after
  meaning (Instr.store s rs1 rs2 imm) pc m =
      rv32_cpu_write_mem ((reg m.cpu rs1 + extend 12 imm) % 2 ^ 32) (reg m.cpu rs2) (store_size s) m
  meaning (Instr.op_imm o rd rs1 imm) pc m =
      put rd (imm_meaning o (reg m.cpu rs1) (extend 12 imm)) m
  meaning (Instr.shift_imm o rd rs1 amount) pc m = put rd (shift_meaning o (reg m.cpu rs1) amount) m
  meaning (Instr.op o rd rs1 rs2) pc m = put rd (alu_meaning o (reg m.cpu rs1) (reg m.cpu rs2)) m
  meaning Instr.ecall pc m = m
  meaning Instr.ebreak pc m = record m { cpu = record m.cpu { halted = true } }
