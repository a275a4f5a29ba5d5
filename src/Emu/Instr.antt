-- ===== src/Emu/Instr.antt =====
-- The instructions of RV32I that emu/rv32_cpu.c executes: their encoding, after the RISC-V manual, and
-- their effect in the terms of Emu.Step. Instr.Meaning gives the effect again, without those terms.
pub mod Fields
pub mod Results
pub mod Cases
pub mod Meaning
pub mod Words
pub mod Effects
pub mod Laws
use gdb_stub.Prelude.{
  ℕ, ◌+◌, ◌-◌, ◌*◌, ◌/◌, ◌%◌, ◌^◌, ◌<◌, ◌≡◌, bit_or, bit_and, bit_xor, Bool, true, false, not, ltb,
  ◌==◌, if◌then◌else◌,
}
use gdb_stub.Emu.Cpu.{Machine, rv32_cpu_read_mem, rv32_cpu_write_mem, rv32_cpu_read_reg}
use gdb_stub.Emu.Step.{add32, sub32, shl32, shr32, sar32, slt32, bool_word, with_reg, with_pc}

pub data AluOp : Type 0 where
  add sub sll slt sltu xor srl sra or and : AluOp

pub data ImmOp : Type 0 where
  addi slti sltiu xori ori andi : ImmOp

pub data ShiftOp : Type 0 where
  slli srli srai : ShiftOp

pub data BranchOp : Type 0 where
  beq bne blt bge bltu bgeu : BranchOp

pub data LoadOp : Type 0 where
  lb lh lw lbu lhu : LoadOp

pub data StoreOp : Type 0 where
  sb sh sw : StoreOp

-- Registers are numbers, and an immediate or an offset is its two's complement pattern.
pub data Instr : Type 0 where
  lui auipc : (rd imm : ℕ) → Instr
  jal : (rd offset : ℕ) → Instr
  jalr : (rd rs1 imm : ℕ) → Instr
  branch : BranchOp → (rs1 rs2 offset : ℕ) → Instr
  load : LoadOp → (rd rs1 imm : ℕ) → Instr
  store : StoreOp → (rs1 rs2 imm : ℕ) → Instr
  op_imm : ImmOp → (rd rs1 imm : ℕ) → Instr
  shift_imm : ShiftOp → (rd rs1 amount : ℕ) → Instr
  op : AluOp → (rd rs1 rs2 : ℕ) → Instr
  ecall ebreak : Instr

abbrev pub IsReg : ℕ → Type 0
IsReg r = r < 32

-- the operands fit in their fields, and offsets are even
abbrev pub IsEncodable : Instr → Type 0
IsEncodable (lui rd imm) = IsReg rd × (imm < 2 ^ 20)
IsEncodable (auipc rd imm) = IsReg rd × (imm < 2 ^ 20)
IsEncodable (jal rd offset) = IsReg rd × (offset < 2 ^ 21) × (offset % 2 ≡ 0)
IsEncodable (jalr rd rs1 imm) = IsReg rd × IsReg rs1 × (imm < 2 ^ 12)
IsEncodable (branch b rs1 rs2 offset) = IsReg rs1 × IsReg rs2 × (offset < 2 ^ 13) × (offset % 2 ≡ 0)
IsEncodable (load l rd rs1 imm) = IsReg rd × IsReg rs1 × (imm < 2 ^ 12)
IsEncodable (store s rs1 rs2 imm) = IsReg rs1 × IsReg rs2 × (imm < 2 ^ 12)
IsEncodable (op_imm o rd rs1 imm) = IsReg rd × IsReg rs1 × (imm < 2 ^ 12)
IsEncodable (shift_imm o rd rs1 amount) = IsReg rd × IsReg rs1 × (amount < 32)
IsEncodable (op o rd rs1 rs2) = IsReg rd × IsReg rs1 × IsReg rs2
IsEncodable ecall = Unit
IsEncodable ebreak = Unit

abbrev pub alu_funct3 : AluOp → ℕ
alu_funct3 add = 0
alu_funct3 sub = 0
alu_funct3 sll = 1
alu_funct3 slt = 2
alu_funct3 sltu = 3
alu_funct3 xor = 4
alu_funct3 srl = 5
alu_funct3 sra = 5
alu_funct3 or = 6
alu_funct3 and = 7

abbrev pub alu_funct7 : AluOp → ℕ
alu_funct7 sub = 0x20
alu_funct7 sra = 0x20
alu_funct7 _ = 0

abbrev pub imm_funct3 : ImmOp → ℕ
imm_funct3 addi = 0
imm_funct3 slti = 2
imm_funct3 sltiu = 3
imm_funct3 xori = 4
imm_funct3 ori = 6
imm_funct3 andi = 7

abbrev pub shift_funct3 : ShiftOp → ℕ
shift_funct3 slli = 1
shift_funct3 _ = 5

abbrev pub shift_funct7 : ShiftOp → ℕ
shift_funct7 srai = 0x20
shift_funct7 _ = 0

abbrev pub branch_funct3 : BranchOp → ℕ
branch_funct3 beq = 0
branch_funct3 bne = 1
branch_funct3 blt = 4
branch_funct3 bge = 5
branch_funct3 bltu = 6
branch_funct3 bgeu = 7

abbrev pub load_funct3 : LoadOp → ℕ
load_funct3 lb = 0
load_funct3 lh = 1
load_funct3 lw = 2
load_funct3 lbu = 4
load_funct3 lhu = 5

abbrev pub store_funct3 : StoreOp → ℕ
store_funct3 sb = 0
store_funct3 sh = 1
store_funct3 sw = 2

abbrev pub store_size : StoreOp → ℕ
store_size sb = 1
store_size sh = 2
store_size sw = 4

-- the R-type word of its fields; the other types are made of the same fields
abbrev pub word : ℕ → ℕ → ℕ → ℕ → ℕ → ℕ → ℕ
word opcode rd funct3 rs1 rs2 funct7 =
    opcode + rd * 2 ^ 7 + funct3 * 2 ^ 12 + rs1 * 2 ^ 15 + rs2 * 2 ^ 20 + funct7 * 2 ^ 25

abbrev pub i_word : ℕ → ℕ → ℕ → ℕ → ℕ → ℕ
i_word opcode rd funct3 rs1 imm = word opcode rd funct3 rs1 (imm % 2 ^ 5) (imm / 2 ^ 5)

abbrev pub s_word : ℕ → ℕ → ℕ → ℕ → ℕ → ℕ
s_word opcode funct3 rs1 rs2 imm = word opcode (imm % 2 ^ 5) funct3 rs1 rs2 (imm / 2 ^ 5)

-- imm[12|10:5] rs2 rs1 funct3 imm[4:1|11]
abbrev pub b_word : ℕ → ℕ → ℕ → ℕ → ℕ
b_word funct3 rs1 rs2 offset =
    word 0x63 (offset / 2 % 2 ^ 4 * 2 + offset / 2 ^ 11 % 2) funct3 rs1 rs2
      (offset / 2 ^ 12 * 2 ^ 6 + offset / 2 ^ 5 % 2 ^ 6)

abbrev pub u_word : ℕ → ℕ → ℕ → ℕ
u_word opcode rd imm = opcode + rd * 2 ^ 7 + imm * 2 ^ 12

-- imm[20|10:1|11|19:12] rd
abbrev pub j_word : ℕ → ℕ → ℕ
j_word rd offset =
    0x6f
    + rd * 2 ^ 7
    + offset / 2 ^ 12 % 2 ^ 8 * 2 ^ 12
    + offset / 2 ^ 11 % 2 * 2 ^ 20
    + offset / 2 % 2 ^ 10 * 2 ^ 21
    + offset / 2 ^ 20 * 2 ^ 31

unfoldable pub encode : Instr → ℕ
encode (lui rd imm) = u_word 0x37 rd imm
encode (auipc rd imm) = u_word 0x17 rd imm
encode (jal rd offset) = j_word rd offset
encode (jalr rd rs1 imm) = i_word 0x67 rd 0 rs1 imm
encode (branch b rs1 rs2 offset) = b_word (branch_funct3 b) rs1 rs2 offset
encode (load l rd rs1 imm) = i_word 0x03 rd (load_funct3 l) rs1 imm
encode (store s rs1 rs2 imm) = s_word 0x23 (store_funct3 s) rs1 rs2 imm
encode (op_imm o rd rs1 imm) = i_word 0x13 rd (imm_funct3 o) rs1 imm
encode (shift_imm o rd rs1 amount) = word 0x13 rd (shift_funct3 o) rs1 amount (shift_funct7 o)
encode (op o rd rs1 rs2) = word 0x33 rd (alu_funct3 o) rs1 rs2 (alu_funct7 o)
encode ecall = 0x73
encode ebreak = 0x73 + 2 ^ 20

-- a two's complement pattern of `bits` bits as one of 32 bits
abbrev pub extend : ℕ → ℕ → ℕ
extend bits v = if ltb v (2 ^ (bits - 1)) then v else v + (2 ^ 32 - 2 ^ bits)

abbrev pub alu_value : AluOp → ℕ → ℕ → ℕ
alu_value add a b = add32 a b
alu_value sub a b = sub32 a b
alu_value sll a b = shl32 a (b % 32)
alu_value slt a b = bool_word (slt32 a b)
alu_value sltu a b = bool_word (ltb a b)
alu_value xor a b = bit_xor a b
alu_value srl a b = shr32 a (b % 32)
alu_value sra a b = sar32 a (b % 32)
alu_value or a b = bit_or a b
alu_value and a b = bit_and a b

abbrev pub imm_value : ImmOp → ℕ → ℕ → ℕ
imm_value addi a b = add32 a b
imm_value slti a b = bool_word (slt32 a b)
imm_value sltiu a b = bool_word (ltb a b)
imm_value xori a b = bit_xor a b
imm_value ori a b = bit_or a b
imm_value andi a b = bit_and a b

abbrev pub shift_value : ShiftOp → ℕ → ℕ → ℕ
shift_value slli a k = shl32 a k
shift_value srli a k = shr32 a k
shift_value srai a k = sar32 a k

abbrev pub branch_taken : BranchOp → ℕ → ℕ → Bool
branch_taken beq a b = a == b
branch_taken bne a b = not (a == b)
branch_taken blt a b = slt32 a b
branch_taken bge a b = not (slt32 a b)
branch_taken bltu a b = ltb a b
branch_taken bgeu a b = not (ltb a b)

module _ {Env : Type 0} where
  -- the value loaded, and the machine after the access
  abbrev pub load_result : LoadOp → ℕ → Machine Env → ℕ × Machine Env
  load_result lb addr m = let (v, after) = rv32_cpu_read_mem addr 1 m in (extend 8 v, after)
  load_result lh addr m = let (v, after) = rv32_cpu_read_mem addr 2 m in (extend 16 v, after)
  load_result lw addr m = rv32_cpu_read_mem addr 4 m
  load_result lbu addr m = rv32_cpu_read_mem addr 1 m
  load_result lhu addr m = rv32_cpu_read_mem addr 2 m

  -- the effect of an instruction at `pc`, on a machine whose `pc` is already that of the next one
  unfoldable pub perform : Instr → ℕ → Machine Env → Machine Env
  perform (lui rd imm) pc m = with_reg rd (imm * 2 ^ 12) m
  perform (auipc rd imm) pc m = with_reg rd (add32 pc (imm * 2 ^ 12)) m
  perform (jal rd offset) pc m = with_pc (add32 pc (extend 21 offset)) (with_reg rd m.cpu.pc m)
  perform (jalr rd rs1 imm) pc m =
      let target = add32 (rv32_cpu_read_reg m.cpu rs1) (extend 12 imm) in
      with_pc (target - target % 2) (with_reg rd m.cpu.pc m)
  perform (branch b rs1 rs2 offset) pc m =
      if branch_taken b (rv32_cpu_read_reg m.cpu rs1) (rv32_cpu_read_reg m.cpu rs2)
      then with_pc (add32 pc (extend 13 offset)) m
      else m
  perform (load l rd rs1 imm) pc m =
      let (v, after) = load_result l (add32 (rv32_cpu_read_reg m.cpu rs1) (extend 12 imm)) m in
      with_reg rd v after
  perform (store s rs1 rs2 imm) pc m =
      rv32_cpu_write_mem (add32 (rv32_cpu_read_reg m.cpu rs1) (extend 12 imm))
        (rv32_cpu_read_reg m.cpu rs2) (store_size s) m
  perform (op_imm o rd rs1 imm) pc m =
      with_reg rd (imm_value o (rv32_cpu_read_reg m.cpu rs1) (extend 12 imm)) m
  perform (shift_imm o rd rs1 amount) pc m =
      with_reg rd (shift_value o (rv32_cpu_read_reg m.cpu rs1) amount) m
  perform (op o rd rs1 rs2) pc m =
      with_reg rd (alu_value o (rv32_cpu_read_reg m.cpu rs1) (rv32_cpu_read_reg m.cpu rs2)) m
  perform ecall pc m = m
  perform ebreak pc m = record m { cpu = record m.cpu { halted = true } }
