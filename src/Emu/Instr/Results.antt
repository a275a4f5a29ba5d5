-- ===== src/Emu/Instr/Results.antt =====
-- The functions of emu/rv32_cpu.c that compute results, on the operations of encoded instructions.
use gdb_stub.Prelude.{
  ℕ, suc, ◌+◌, ◌-◌, ◌*◌, ◌/◌, ◌%◌, ◌^◌, ◌<◌, ◌≡◌, refl, ap, Bool-cases, inl, inr, arith,
}
use gdb_stub.Emu.Ram.{IsBytes, Ram, ram_base}
use gdb_stub.Emu.Cpu.{Machine, in_ram, load_sized, rv32_cpu_read_mem}
use gdb_stub.Emu.Decode.{opcode_of, rd_of, funct3_of, rs1_of, i_imm}
use gdb_stub.Emu.Step.{take_branch, op_imm_result, op_result, load_value}
use gdb_stub.Emu.Memory.{rv32_cpu_read_mem_inside}
use gdb_stub.Emu.Instr.{
  IsReg, AluOp, ImmOp, ShiftOp, BranchOp, LoadOp, StoreOp, alu_funct3, alu_funct7, alu_value,
  imm_funct3, imm_value, shift_funct3, shift_funct7, shift_value, branch_funct3, branch_taken,
  load_funct3, load_result, store_funct3, word,
}
use gdb_stub.Emu.Instr.Fields.{sign_extend_8, sign_extend_16}

pub op_result-alu_value :
    (o : AluOp) (a b : ℕ) → op_result (alu_funct3 o) (alu_funct7 o) a b ≡ alu_value o a b
unfolding op_result
op_result-alu_value AluOp.add a b = refl
op_result-alu_value AluOp.sub a b = refl
op_result-alu_value AluOp.sll a b = refl
op_result-alu_value AluOp.slt a b = refl
op_result-alu_value AluOp.sltu a b = refl
op_result-alu_value AluOp.xor a b = refl
op_result-alu_value AluOp.srl a b = refl
op_result-alu_value AluOp.sra a b = refl
op_result-alu_value AluOp.or a b = refl
op_result-alu_value AluOp.and a b = refl

pub alu_funct_bounds : (o : AluOp) → (alu_funct3 o < 2 ^ 3) × (alu_funct7 o < 2 ^ 7)
alu_funct_bounds AluOp.add = (omega arith, omega arith)
alu_funct_bounds AluOp.sub = (omega arith, omega arith)
alu_funct_bounds AluOp.sll = (omega arith, omega arith)
alu_funct_bounds AluOp.slt = (omega arith, omega arith)
alu_funct_bounds AluOp.sltu = (omega arith, omega arith)
alu_funct_bounds AluOp.xor = (omega arith, omega arith)
alu_funct_bounds AluOp.srl = (omega arith, omega arith)
alu_funct_bounds AluOp.sra = (omega arith, omega arith)
alu_funct_bounds AluOp.or = (omega arith, omega arith)
alu_funct_bounds AluOp.and = (omega arith, omega arith)

pub op_imm_result-imm_value :
    (o : ImmOp) (imm v a : ℕ) → op_imm_result (imm_funct3 o) imm v a ≡ imm_value o a v
unfolding op_imm_result
op_imm_result-imm_value ImmOp.addi imm v a = refl
op_imm_result-imm_value ImmOp.slti imm v a = refl
op_imm_result-imm_value ImmOp.sltiu imm v a = refl
op_imm_result-imm_value ImmOp.xori imm v a = refl
op_imm_result-imm_value ImmOp.ori imm v a = refl
op_imm_result-imm_value ImmOp.andi imm v a = refl

pub imm_funct3_bound : (o : ImmOp) → imm_funct3 o < 2 ^ 3
imm_funct3_bound ImmOp.addi = omega arith
imm_funct3_bound ImmOp.slti = omega arith
imm_funct3_bound ImmOp.sltiu = omega arith
imm_funct3_bound ImmOp.xori = omega arith
imm_funct3_bound ImmOp.ori = omega arith
imm_funct3_bound ImmOp.andi = omega arith

pub op_imm_result-shift_value :
    (o : ShiftOp) (amount v a : ℕ)
    → amount < 32
    → op_imm_result (shift_funct3 o) (amount + shift_funct7 o * 2 ^ 5) v a ≡ shift_value o a amount
unfolding op_imm_result
op_imm_result-shift_value ShiftOp.slli k v a h = ground arith
op_imm_result-shift_value ShiftOp.srli k v a h = ground arith
op_imm_result-shift_value ShiftOp.srai k v a h = ground arith

pub take_branch-branch_taken :
    (b : BranchOp) (x y : ℕ) → take_branch (branch_funct3 b) x y ≡ branch_taken b x y
unfolding take_branch
take_branch-branch_taken BranchOp.beq x y = refl
take_branch-branch_taken BranchOp.bne x y = refl
take_branch-branch_taken BranchOp.blt x y = refl
take_branch-branch_taken BranchOp.bge x y = refl
take_branch-branch_taken BranchOp.bltu x y = refl
take_branch-branch_taken BranchOp.bgeu x y = refl

byte_mod : (v : ℕ) → v < 2 ^ 8 → v % 2 ^ 8 ≡ v
byte_mod v h = omega arith

half_mod : (v : ℕ) → v < 2 ^ 16 → v % 2 ^ 16 ≡ v
half_mod v h = omega arith

pub even_part : (t : ℕ) → t / 2 * 2 ≡ t - t % 2
even_part t = omega arith

pub load_sized_bound :
    (ram : Ram) (i : ℕ)
    → IsBytes ram
    → (load_sized 1 ram i < 2 ^ 8) × (load_sized 2 ram i < 2 ^ 16) × (load_sized 4 ram i < 2 ^ 32)
unfolding load_sized
load_sized_bound ram i b =
    (b i, omega (arith, b i, b (i + 1)), omega (arith, b i, b (i + 1), b (i + 2), b (i + 2 + 1)))

module _ {Env : Type 0} (addr : ℕ) (m : Machine Env) (bytes : IsBytes m.ram) where
  pub read_bound :
      (size k : ℕ)
      → load_sized size m.ram (addr - ram_base) < suc k
      → (rv32_cpu_read_mem addr size m).0 < suc k
  unfolding rv32_cpu_read_mem
  read_bound size k h = elim (Bool-cases (in_ram addr size)) [
    | inl inside ↦ rw (rv32_cpu_read_mem_inside addr size m inside) h
    | inr outside ↦ rw (rv32_cpu_read_mem, outside) (omega arith)
  ]

  pub load_value-load_result :
      (l : LoadOp) → load_value (load_funct3 l) addr m ≡ load_result l addr m
  unfolding load_value
  load_value-load_result LoadOp.lb =
      ap (λ (v : ℕ). (v, (rv32_cpu_read_mem addr 1 m).1))
        (sign_extend_8 _
          (read_bound 1 (2 ^ 8 - 1) (load_sized_bound m.ram (addr - ram_base) bytes).0))
  load_value-load_result LoadOp.lh =
      ap (λ (v : ℕ). (v, (rv32_cpu_read_mem addr 2 m).1))
        (sign_extend_16 _
          (read_bound 2 (2 ^ 16 - 1) (load_sized_bound m.ram (addr - ram_base) bytes).1))
  load_value-load_result LoadOp.lw = refl
  load_value-load_result LoadOp.lbu =
      ap (λ (v : ℕ). (v, (rv32_cpu_read_mem addr 1 m).1))
        (byte_mod _ (read_bound 1 (2 ^ 8 - 1) (load_sized_bound m.ram (addr - ram_base) bytes).0))
  load_value-load_result LoadOp.lhu =
      ap (λ (v : ℕ). (v, (rv32_cpu_read_mem addr 2 m).1))
        (half_mod _ (read_bound 2 (2 ^ 16 - 1) (load_sized_bound m.ram (addr - ram_base) bytes).1))

pub funct3_bounds :
    (b : BranchOp) (l : LoadOp) (s : StoreOp)
    → (branch_funct3 b < 2 ^ 3) × (load_funct3 l < 2 ^ 3) × (store_funct3 s < 2 ^ 3)
funct3_bounds b l s = (branch_bound b, load_bound l, store_bound s)
  where
    branch_bound : (b : BranchOp) → branch_funct3 b < 2 ^ 3
    branch_bound b = ground arith

    load_bound : (l : LoadOp) → load_funct3 l < 2 ^ 3
    load_bound l = ground arith

    store_bound : (s : StoreOp) → store_funct3 s < 2 ^ 3
    store_bound s = ground arith

pub shift_word-i_imm :
    (o : ShiftOp) (rd rs1 amount : ℕ)
    → IsReg rd
    → IsReg rs1
    → amount < 32
    → let w = word 0x13 rd (shift_funct3 o) rs1 amount (shift_funct7 o) in
      (opcode_of w ≡ 0x13)
      × (rd_of w ≡ rd)
      × (funct3_of w ≡ shift_funct3 o)
      × (rs1_of w ≡ rs1)
      × (i_imm w ≡ amount + shift_funct7 o * 2 ^ 5)
shift_word-i_imm ShiftOp.slli rd rs1 amount a b c =
    (omega arith, omega arith, omega arith, omega arith, omega arith)
shift_word-i_imm ShiftOp.srli rd rs1 amount a b c =
    (omega arith, omega arith, omega arith, omega arith, omega arith)
shift_word-i_imm ShiftOp.srai rd rs1 amount a b c =
    (omega arith, omega arith, omega arith, omega arith, omega arith)
