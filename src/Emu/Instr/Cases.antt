-- ===== src/Emu/Instr/Cases.antt =====
-- The cases of `rv32_cpu_step` of emu/rv32_cpu.c, on words with known fields.
use gdb_stub.Prelude.{ℕ, ◌+◌, ◌*◌, ◌^◌, ◌<◌, ◌≡◌, refl, ap, ◌∙◌, Bool, if◌then◌else◌}
use gdb_stub.Emu.Ram.{IsBytes}
use gdb_stub.Emu.Cpu.{Machine, rv32_cpu_read_reg}
use gdb_stub.Emu.Decode.{
  opcode_of, rd_of, funct3_of, rs1_of, rs2_of, u_imm, i_imm, s_imm, b_imm, j_imm, sign_extend,
}
use gdb_stub.Emu.Step.{
  add32, with_reg, with_pc, exec_jal, exec_jalr, exec_branch, exec_load, exec_store, exec_op_imm,
  exec_op, execute,
}
use gdb_stub.Emu.Instr.{
  Instr, AluOp, ImmOp, ShiftOp, BranchOp, LoadOp, StoreOp, perform, extend, alu_funct3, alu_funct7,
  imm_funct3, shift_funct3, shift_funct7, branch_funct3, load_funct3, store_funct3,
}
use gdb_stub.Emu.Instr.Fields.{HasFields, sign_extend_12, sign_extend_13, sign_extend_21}
use gdb_stub.Emu.Instr.Results.{
  op_result-alu_value, op_imm_result-imm_value, op_imm_result-shift_value, take_branch-branch_taken,
  even_part, load_value-load_result,
}

-- the cases of `rv32_cpu_step`
module _ {Env : Type 0} (w pc : ℕ) (m : Machine Env) where
  case_jal : opcode_of w ≡ 0x6f → execute w pc m ≡ exec_jal w pc m
  unfolding execute
  case_jal e = rw (execute, e) refl

  case_jalr : opcode_of w ≡ 0x67 → execute w pc m ≡ exec_jalr w m
  unfolding execute
  case_jalr e = rw (execute, e) refl

  case_branch : opcode_of w ≡ 0x63 → execute w pc m ≡ exec_branch w pc m
  unfolding execute
  case_branch e = rw (execute, e) refl

  case_load : opcode_of w ≡ 0x03 → execute w pc m ≡ exec_load w m
  unfolding execute
  case_load e = rw (execute, e) refl

  case_store : opcode_of w ≡ 0x23 → execute w pc m ≡ exec_store w m
  unfolding execute
  case_store e = rw (execute, e) refl

  case_op_imm : opcode_of w ≡ 0x13 → execute w pc m ≡ exec_op_imm w m
  unfolding execute
  case_op_imm e = rw (execute, e) refl

  case_op : opcode_of w ≡ 0x33 → execute w pc m ≡ exec_op w m
  unfolding execute
  case_op e = rw (execute, e) refl

  pub op_at :
      (o : AluOp) {rd rs1 rs2 : ℕ}
      → HasFields w 0x33 rd (alu_funct3 o) rs1 rs2 (alu_funct7 o)
      → execute w pc m ≡ perform (Instr.op o rd rs1 rs2) pc m
  unfolding perform exec_op
  op_at o {rd} {rs1} {rs2} f =
      let a = rv32_cpu_read_reg m.cpu rs1 in
      let b = rv32_cpu_read_reg m.cpu rs2 in
      case_op f.opcode_eq
      ∙ rw (exec_op, f.rd_eq, f.funct3_eq, f.rs1_eq, f.rs2_eq, f.funct7_eq)
          (ap (λ (v : ℕ). with_reg rd v m) (op_result-alu_value o a b))

  pub lui_at :
      (rd imm : ℕ)
      → opcode_of w ≡ 0x37
      → rd_of w ≡ rd
      → u_imm w ≡ imm * 2 ^ 12
      → execute w pc m ≡ perform (Instr.lui rd imm) pc m
  unfolding perform execute
  lui_at rd imm p d i = rw (execute, p, d, i) refl

  pub auipc_at :
      (rd imm : ℕ)
      → opcode_of w ≡ 0x17
      → rd_of w ≡ rd
      → u_imm w ≡ imm * 2 ^ 12
      → execute w pc m ≡ perform (Instr.auipc rd imm) pc m
  unfolding perform execute
  auipc_at rd imm p d i = rw (execute, p, d, i) refl

  pub op_imm_at :
      (o : ImmOp) (rd rs1 imm : ℕ)
      → opcode_of w ≡ 0x13
      → rd_of w ≡ rd
      → funct3_of w ≡ imm_funct3 o
      → rs1_of w ≡ rs1
      → i_imm w ≡ imm
      → imm < 2 ^ 12
      → execute w pc m ≡ perform (Instr.op_imm o rd rs1 imm) pc m
  unfolding perform exec_op_imm
  op_imm_at o rd rs1 imm p d f s i h =
      case_op_imm p
      ∙ rw (exec_op_imm, d, f, s, i, sign_extend_12 imm h)
          (ap (λ (v : ℕ). with_reg rd v m)
            (op_imm_result-imm_value o imm (extend 12 imm) (rv32_cpu_read_reg m.cpu rs1)))

  pub shift_at :
      (o : ShiftOp) (rd rs1 amount : ℕ)
      → opcode_of w ≡ 0x13
      → rd_of w ≡ rd
      → funct3_of w ≡ shift_funct3 o
      → rs1_of w ≡ rs1
      → i_imm w ≡ amount + shift_funct7 o * 2 ^ 5
      → amount < 32
      → execute w pc m ≡ perform (Instr.shift_imm o rd rs1 amount) pc m
  unfolding perform exec_op_imm
  shift_at o rd rs1 amount p d f s i h =
      let imm = amount + shift_funct7 o * 2 ^ 5 in
      case_op_imm p
      ∙ rw (exec_op_imm, d, f, s, i)
          (ap (λ (v : ℕ). with_reg rd v m)
            (op_imm_result-shift_value o amount (sign_extend imm 12) (rv32_cpu_read_reg m.cpu rs1)
              h))

  pub jal_at :
      (rd offset : ℕ)
      → opcode_of w ≡ 0x6f
      → rd_of w ≡ rd
      → j_imm w ≡ offset
      → offset < 2 ^ 21
      → execute w pc m ≡ perform (Instr.jal rd offset) pc m
  unfolding perform exec_jal
  jal_at rd offset p d i h = case_jal p ∙ rw (exec_jal, d, i, sign_extend_21 offset h) refl

  pub jalr_at :
      (rd rs1 imm : ℕ)
      → opcode_of w ≡ 0x67
      → rd_of w ≡ rd
      → rs1_of w ≡ rs1
      → i_imm w ≡ imm
      → imm < 2 ^ 12
      → execute w pc m ≡ perform (Instr.jalr rd rs1 imm) pc m
  unfolding perform exec_jalr
  jalr_at rd rs1 imm p d s i h =
      let target = add32 (rv32_cpu_read_reg m.cpu rs1) (extend 12 imm) in
      case_jalr p
      ∙ rw (exec_jalr, d, s, i, sign_extend_12 imm h)
          (ap (λ (t : ℕ). with_pc t (with_reg rd m.cpu.pc m)) (even_part target))

  pub branch_at :
      (b : BranchOp) (rs1 rs2 offset : ℕ)
      → opcode_of w ≡ 0x63
      → funct3_of w ≡ branch_funct3 b
      → rs1_of w ≡ rs1
      → rs2_of w ≡ rs2
      → b_imm w ≡ offset
      → offset < 2 ^ 13
      → execute w pc m ≡ perform (Instr.branch b rs1 rs2 offset) pc m
  unfolding perform exec_branch
  branch_at b rs1 rs2 offset p f s t i h =
      case_branch p
      ∙ rw (exec_branch, f, s, t, i, sign_extend_13 offset h)
          (ap (λ (c : Bool). if c then with_pc (add32 pc (extend 13 offset)) m else m)
            (take_branch-branch_taken b (rv32_cpu_read_reg m.cpu rs1)
              (rv32_cpu_read_reg m.cpu rs2)))

  pub load_at :
      (l : LoadOp) (rd rs1 imm : ℕ)
      → opcode_of w ≡ 0x03
      → rd_of w ≡ rd
      → funct3_of w ≡ load_funct3 l
      → rs1_of w ≡ rs1
      → i_imm w ≡ imm
      → imm < 2 ^ 12
      → IsBytes m.ram
      → execute w pc m ≡ perform (Instr.load l rd rs1 imm) pc m
  unfolding perform exec_load
  load_at l rd rs1 imm p d f s i h bytes =
      let addr = add32 (rv32_cpu_read_reg m.cpu rs1) (extend 12 imm) in
      case_load p
      ∙ rw (exec_load, d, f, s, i, sign_extend_12 imm h)
          (ap (λ (r : ℕ × Machine Env). with_reg rd r.0 r.1)
            (load_value-load_result addr m bytes l))

  pub store_at :
      (o : StoreOp) (rs1 rs2 imm : ℕ)
      → opcode_of w ≡ 0x23
      → funct3_of w ≡ store_funct3 o
      → rs1_of w ≡ rs1
      → rs2_of w ≡ rs2
      → s_imm w ≡ imm
      → imm < 2 ^ 12
      → execute w pc m ≡ perform (Instr.store o rs1 rs2 imm) pc m
  unfolding perform exec_store
  store_at StoreOp.sb rs1 rs2 imm p f s t i h =
      case_store p ∙ rw (exec_store, f, s, t, i, sign_extend_12 imm h) refl
  store_at StoreOp.sh rs1 rs2 imm p f s t i h =
      case_store p ∙ rw (exec_store, f, s, t, i, sign_extend_12 imm h) refl
  store_at StoreOp.sw rs1 rs2 imm p f s t i h =
      case_store p ∙ rw (exec_store, f, s, t, i, sign_extend_12 imm h) refl
