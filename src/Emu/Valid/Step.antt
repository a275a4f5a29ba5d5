-- ===== src/Emu/Valid/Step.antt =====
-- The cases of `rv32_cpu_step` of emu/rv32_cpu.c on well-formed machines.
use gdb_stub.Prelude.{ℕ, ◌-◌, ◌^◌, ◌<◌, Bool, true, false, ◌==◌, if◌then◌else◌, arith}
use gdb_stub.Emu.Ram.{ram_base}
use gdb_stub.Emu.Cpu.{Machine, rv32_cpu_read_reg}
use gdb_stub.Emu.Decode.{
  opcode_of, rd_of, funct3_of, rs1_of, rs2_of, funct7_of, u_imm, i_imm, s_imm, b_imm, sign_extend,
}
use gdb_stub.Emu.Step.{
  add32, with_pc, exec_jal, exec_jalr, exec_branch, load_value, exec_load, exec_store, exec_op_imm,
  exec_op, exec_system, execute, fetch, rv32_cpu_step,
}
use gdb_stub.Emu.Instr.Results.{load_sized_bound, read_bound}
use gdb_stub.Emu.Valid.{
  IsValid, IsValid-if, read_reg-word, with_reg-IsValid, with_pc-IsValid, rv32_cpu_read_mem-IsValid,
  rv32_cpu_write_mem-IsValid,
}
use gdb_stub.Emu.Valid.Values.{op_result-word, op_imm_result-word, i_imm-word, byte-word, half-word}

module _ {Env : Type 0} where
  halted-IsValid :
      (h : Bool) (m : Machine Env)
      → IsValid m
      → IsValid (record m { cpu = record m.cpu { halted = h } })
  halted-IsValid h m v = record {
    count = v.count;
    x0 = v.x0;
    words = v.words;
    pc_word = v.pc_word;
    bytes = v.bytes;
  }

  running-IsValid :
      (r : Bool) (m : Machine Env)
      → IsValid m
      → IsValid (record m { cpu = record m.cpu { running = r } })
  running-IsValid r m v = record {
    count = v.count;
    x0 = v.x0;
    words = v.words;
    pc_word = v.pc_word;
    bytes = v.bytes;
  }

  fetch-IsValid : (m : Machine Env) → IsValid m → IsValid (fetch m).1
  unfolding fetch
  fetch-IsValid m v =
      let w = rv32_cpu_read_mem-IsValid m.cpu.pc 4 m v in
      record { count = w.count; x0 = w.x0; words = w.words; pc_word = omega arith; bytes = w.bytes }

module _ {Env : Type 0} (w pc : ℕ) (m : Machine Env) (v : IsValid m) where
  exec_jal-IsValid : IsValid (exec_jal w pc m)
  unfolding exec_jal
  exec_jal-IsValid =
      with_pc-IsValid _ _ (omega arith) (with_reg-IsValid (rd_of w) m.cpu.pc m v.pc_word v)

  exec_jalr-IsValid : IsValid (exec_jalr w m)
  unfolding exec_jalr
  exec_jalr-IsValid =
      with_pc-IsValid _ _ (omega arith) (with_reg-IsValid (rd_of w) m.cpu.pc m v.pc_word v)

  exec_branch-IsValid : IsValid (exec_branch w pc m)
  unfolding exec_branch
  exec_branch-IsValid =
      let target = add32 pc (sign_extend (b_imm w) 13) in
      IsValid-if _ (with_pc target m) m (with_pc-IsValid target m (omega arith) v) v

  -- what a load leaves
  abbrev Loaded : ℕ × Machine Env → Type 0
  Loaded r = (r.0 < 2 ^ 32) × IsValid r.1

  Loaded-if : (b : Bool) (r s : ℕ × Machine Env) → Loaded r → Loaded s → Loaded (if b then r else s)
  Loaded-if true r s p q = p
  Loaded-if false r s p q = q

  load_value-Loaded : (f3 addr : ℕ) → Loaded (load_value f3 addr m)
  unfolding load_value
  load_value-Loaded f3 addr =
      let (b, h, l) = load_sized_bound m.ram (addr - ram_base) v.bytes in
      let byte = read_bound addr m v.bytes 1 (2 ^ 8 - 1) b in
      let half = read_bound addr m v.bytes 2 (2 ^ 16 - 1) h in
      let word = read_bound addr m v.bytes 4 (2 ^ 32 - 1) l in
      let after_byte = rv32_cpu_read_mem-IsValid addr 1 m v in
      let after_half = rv32_cpu_read_mem-IsValid addr 2 m v in
      let after_word = rv32_cpu_read_mem-IsValid addr 4 m v in
      Loaded-if (f3 == 0) _ _ (byte-word _ byte, after_byte)
        (Loaded-if (f3 == 1) _ _ (half-word _ half, after_half)
          (Loaded-if (f3 == 2) _ _ (word, after_word)
            (Loaded-if (f3 == 4) _ _ (omega arith, after_byte)
              (Loaded-if (f3 == 5) _ _ (omega arith, after_half) (omega arith, v)))))

  exec_load-IsValid : IsValid (exec_load w m)
  unfolding exec_load
  exec_load-IsValid =
      let (word, valid) =
        load_value-Loaded (funct3_of w)
          (add32 (rv32_cpu_read_reg m.cpu (rs1_of w)) (sign_extend (i_imm w) 12)) in
      with_reg-IsValid (rd_of w) _ _ word valid

  exec_store-IsValid : IsValid (exec_store w m)
  unfolding exec_store
  exec_store-IsValid =
      let addr = add32 (rv32_cpu_read_reg m.cpu (rs1_of w)) (sign_extend (s_imm w) 12) in
      let value = rv32_cpu_read_reg m.cpu (rs2_of w) in
      IsValid-if (funct3_of w == 0) _ _ (rv32_cpu_write_mem-IsValid addr value 1 m v) (
        IsValid-if (funct3_of w == 1) _ _ (rv32_cpu_write_mem-IsValid addr value 2 m v)
          (IsValid-if (funct3_of w == 2) _ m (rv32_cpu_write_mem-IsValid addr value 4 m v) v))

  exec_op_imm-IsValid : IsValid (exec_op_imm w m)
  unfolding exec_op_imm
  exec_op_imm-IsValid =
      with_reg-IsValid (rd_of w) _ m
        (op_imm_result-word (funct3_of w) (i_imm w) _ _ (read_reg-word m (rs1_of w) v)
          (i_imm-word w))
        v

  exec_op-IsValid : IsValid (exec_op w m)
  unfolding exec_op
  exec_op-IsValid =
      with_reg-IsValid (rd_of w) _ m
        (op_result-word (funct3_of w) (funct7_of w) _ _ (read_reg-word m (rs1_of w) v)
          (read_reg-word m (rs2_of w) v))
        v

  exec_system-IsValid : IsValid (exec_system w m)
  unfolding exec_system
  exec_system-IsValid =
      IsValid-if (funct3_of w == 0) _ m
        (IsValid-if (i_imm w == 1) (record m { cpu = record m.cpu { halted = true } }) m
          (halted-IsValid true m v) v)
        v

  execute-IsValid : IsValid (execute w pc m)
  unfolding execute
  execute-IsValid =
      IsValid-if (opcode_of w == 0x37) _ _ (with_reg-IsValid (rd_of w) (u_imm w) m (omega arith) v)
        (IsValid-if (opcode_of w == 0x17) _ _
          (with_reg-IsValid (rd_of w) (add32 pc (u_imm w)) m (omega arith) v)
          (IsValid-if (opcode_of w == 0x6f) _ _ exec_jal-IsValid (
            IsValid-if (opcode_of w == 0x67) _ _ exec_jalr-IsValid (
              IsValid-if (opcode_of w == 0x63) _ _ exec_branch-IsValid (
                IsValid-if (opcode_of w == 0x03) _ _ exec_load-IsValid (
                  IsValid-if (opcode_of w == 0x23) _ _ exec_store-IsValid (
                    IsValid-if (opcode_of w == 0x13) _ _ exec_op_imm-IsValid (
                      IsValid-if (opcode_of w == 0x33) _ _ exec_op-IsValid (
                        IsValid-if (opcode_of w == 0x73) _ _ exec_system-IsValid
                          (running-IsValid false m v))))))))))

-- A step, of any instruction word and whatever the watchpoint checks do, keeps the machine well
-- formed: 32 registers below 2 ^ 32 with x0 zero, a `pc` below 2 ^ 32, and bytes in the RAM.
pub rv32_cpu_step-IsValid : {Env : Type 0} (m : Machine Env) → IsValid m → IsValid (rv32_cpu_step m)
unfolding rv32_cpu_step
rv32_cpu_step-IsValid m v =
    IsValid-if m.cpu.running _ m
      (execute-IsValid (fetch m).0 m.cpu.pc (fetch m).1 (fetch-IsValid m v)) v
