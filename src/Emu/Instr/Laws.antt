-- ===== src/Emu/Instr/Laws.antt =====
-- `rv32_cpu_step` of emu/rv32_cpu.c on encoded instructions.
use gdb_stub.Prelude.{ℕ, ◌≡◌, refl, subst, sym, ap, ◌∙◌, Bool, true, if◌then◌else◌, arith}
use gdb_stub.Emu.Ram.{IsBytes}
use gdb_stub.Emu.Cpu.{Machine, rv32_cpu_read_mem}
use gdb_stub.Emu.Step.{exec_system, execute, fetch, rv32_cpu_step}
use gdb_stub.Emu.Memory.{run_check-ram}
use gdb_stub.Emu.Instr.{
  Instr, IsEncodable, BranchOp, LoadOp, StoreOp, encode, perform, alu_funct3, alu_funct7,
  imm_funct3, branch_funct3, load_funct3, store_funct3,
}
use gdb_stub.Emu.Instr.Meaning.{advance, meaning}
use gdb_stub.Emu.Instr.Effects.{HasWords, fetch-advance, advance-HasWords, perform-meaning}
use gdb_stub.Emu.Instr.Fields.{
  word-HasFields, i_word_lem, s_word_lem, b_word_lem, u_word_lem, j_word_lem,
}
use gdb_stub.Emu.Instr.Results.{alu_funct_bounds, imm_funct3_bound, funct3_bounds, shift_word-i_imm}
use gdb_stub.Emu.Instr.Cases.{
  op_at, lui_at, auipc_at, op_imm_at, shift_at, jal_at, jalr_at, branch_at, load_at, store_at,
}

-- Executing the encoding of an instruction is `perform`.
pub execute-encode :
    {Env : Type 0} (i : Instr) (pc : ℕ) (m : Machine Env)
    → IsEncodable i
    → IsBytes m.ram
    → execute (encode i) pc m ≡ perform i pc m
unfolding encode perform execute exec_system
execute-encode (Instr.lui rd imm) pc m (a, b) bytes =
    let (p, d, i) = u_word_lem 0x37 rd imm (omega arith) a b in lui_at _ pc m rd imm p d i
execute-encode (Instr.auipc rd imm) pc m (a, b) bytes =
    let (p, d, i) = u_word_lem 0x17 rd imm (omega arith) a b in auipc_at _ pc m rd imm p d i
execute-encode (Instr.jal rd offset) pc m (a, b, c) bytes =
    let (p, d, i) = j_word_lem rd offset a b c in jal_at _ pc m rd offset p d i b
execute-encode (Instr.jalr rd rs1 imm) pc m (a, b, c) bytes =
    let (p, d, f, s, i) = i_word_lem 0x67 rd 0 rs1 imm (omega arith) a (omega arith) b c in
    jalr_at _ pc m rd rs1 imm p d s i c
execute-encode (Instr.branch o rs1 rs2 offset) pc m (a, b, c, e) bytes =
    let bound = (funct3_bounds o LoadOp.lb StoreOp.sb).0 in
    let (p, f, s, t, i) = b_word_lem (branch_funct3 o) rs1 rs2 offset bound a b c e in
    branch_at _ pc m o rs1 rs2 offset p f s t i c
execute-encode (Instr.load o rd rs1 imm) pc m (a, b, c) bytes =
    let bound = (funct3_bounds BranchOp.beq o StoreOp.sb).1 in
    let (p, d, f, s, i) = i_word_lem 0x03 rd (load_funct3 o) rs1 imm (omega arith) a bound b c in
    load_at _ pc m o rd rs1 imm p d f s i c bytes
execute-encode (Instr.store o rs1 rs2 imm) pc m (a, b, c) bytes =
    let bound = (funct3_bounds BranchOp.beq LoadOp.lb o).2 in
    let (p, f, s, t, i) = s_word_lem 0x23 (store_funct3 o) rs1 rs2 imm (omega arith) bound a b c in
    store_at _ pc m o rs1 rs2 imm p f s t i c
execute-encode (Instr.op_imm o rd rs1 imm) pc m (a, b, c) bytes =
    let (p, d, f, s, i) =
      i_word_lem 0x13 rd (imm_funct3 o) rs1 imm (omega arith) a (imm_funct3_bound o) b c in
    op_imm_at _ pc m o rd rs1 imm p d f s i c
execute-encode (Instr.shift_imm o rd rs1 amount) pc m (a, b, c) bytes =
    let (p, d, f, s, i) = shift_word-i_imm o rd rs1 amount a b c in
    shift_at _ pc m o rd rs1 amount p d f s i c
execute-encode (Instr.op o rd rs1 rs2) pc m (a, b, c) bytes =
    let (f3, f7) = alu_funct_bounds o in
    op_at _ pc m o
      (word-HasFields 0x33 rd (alu_funct3 o) rs1 rs2 (alu_funct7 o) (omega arith) a f3 b c f7)
execute-encode Instr.ecall pc m e bytes = refl
execute-encode Instr.ebreak pc m e bytes = refl

-- A step on a running hart whose registers are words and whose `pc` reads the encoding of an instruction of RV32I
-- other than FENCE, whose operands fit in their fields, does what the manual says of that instruction, if the
-- RAM holds bytes: the `pc` goes on by 4 or to the target, one more instruction is counted, register and memory change as they should,
-- x0 never. Loads, stores and the read of the instruction are `rv32_cpu_read_mem` and `rv32_cpu_write_mem`, watchpoint checks included.
pub rv32_cpu_step-encode :
    {Env : Type 0} (i : Instr) (m : Machine Env)
    → m.cpu.running ≡ true
    → (rv32_cpu_read_mem m.cpu.pc 4 m).0 ≡ encode i
    → IsEncodable i
    → HasWords m.cpu
    → IsBytes m.ram
    → rv32_cpu_step m ≡ meaning i m.cpu.pc (advance m)
unfolding rv32_cpu_step fetch rv32_cpu_read_mem
rv32_cpu_step-encode i m running fetched fits words bytes =
    let next = (fetch m).1 in
    let bytes_left =
      subst IsBytes (sym (run_check-ram m.cpu.check_watchpoint_read m.cpu.pc 4 m)) bytes in
    ap (λ (b : Bool). if b then execute (fetch m).0 m.cpu.pc next else m) running
    ∙ (ap (λ (w : ℕ). execute w m.cpu.pc next) fetched
        ∙ execute-encode i m.cpu.pc next fits bytes_left)
    ∙ ap (perform i m.cpu.pc) (fetch-advance m)
    ∙ perform-meaning i m.cpu.pc (advance m) fits (advance-HasWords m words)
