-- ===== src/Emu/Step.antt =====
-- `rv32_cpu_step` of emu/rv32_cpu.c, one function for each case of its `switch`.
use gdb_stub.Prelude.{
  ℕ, ◌+◌, ◌-◌, ◌*◌, ◌/◌, ◌%◌, ◌^◌, bit_or, bit_and, bit_xor, Bool, true, false, not, ltb, ◌==◌,
  if◌then◌else◌,
}
use gdb_stub.Prelude.Int.{ltb_ℤ}
use gdb_stub.Prelude.Text.{signed32}
use gdb_stub.Emu.Cpu.{
  Machine, rv32_cpu_read_mem, rv32_cpu_write_mem, rv32_cpu_read_reg, rv32_cpu_write_reg,
}
use gdb_stub.Emu.Decode.{
  opcode_of, rd_of, funct3_of, rs1_of, rs2_of, funct7_of, u_imm, i_imm, s_imm, b_imm, j_imm,
  sign_extend,
}

-- `uint32_t` sums and shifts
abbrev pub add32 : ℕ → ℕ → ℕ
add32 a b = (a + b) % 2 ^ 32

abbrev pub sub32 : ℕ → ℕ → ℕ
sub32 a b = (a + 2 ^ 32 - b) % 2 ^ 32

abbrev pub shl32 : ℕ → ℕ → ℕ
shl32 a k = a * 2 ^ k % 2 ^ 32

abbrev pub shr32 : ℕ → ℕ → ℕ
shr32 a k = a / 2 ^ k

-- `(int32_t)a >> k`, which keeps the sign
abbrev pub sar32 : ℕ → ℕ → ℕ
sar32 a k = if ltb a (2 ^ 31) then a / 2 ^ k else 2 ^ 32 - 1 - (2 ^ 32 - 1 - a) / 2 ^ k

-- `(int32_t)a < (int32_t)b`
abbrev pub slt32 : ℕ → ℕ → Bool
slt32 a b = ltb_ℤ (signed32 a) (signed32 b)

abbrev pub bool_word : Bool → ℕ
bool_word b = if b then 1 else 0

-- the `switch` of a branch
unfoldable pub take_branch : ℕ → ℕ → ℕ → Bool
take_branch funct3 val1 val2 =
    if funct3 == 0
    then val1 == val2
    else if funct3 == 1
    then not (val1 == val2)
    else if funct3 == 4
    then slt32 val1 val2
    else if funct3 == 5
    then not (slt32 val1 val2)
    else if funct3 == 6
    then ltb val1 val2
    else if funct3 == 7
    then not (ltb val1 val2)
    else false

-- the `switch` of an operation with an immediate: `imm` is not extended, `imm_val` is
unfoldable pub op_imm_result : ℕ → ℕ → ℕ → ℕ → ℕ
op_imm_result funct3 imm imm_val val1 =
    if funct3 == 0
    then add32 val1 imm_val
    else if funct3 == 2
    then bool_word (slt32 val1 imm_val)
    else if funct3 == 3
    then bool_word (ltb val1 imm_val)
    else if funct3 == 4
    then bit_xor val1 imm_val
    else if funct3 == 6
    then bit_or val1 imm_val
    else if funct3 == 7
    then bit_and val1 imm_val
    else if funct3 == 1
    then shl32 val1 (imm % 2 ^ 5)
    else if imm / 2 ^ 10 % 2 == 1
    then sar32 val1 (imm % 2 ^ 5)
    else shr32 val1 (imm % 2 ^ 5)

-- the `switch` of an operation on two registers
unfoldable pub op_result : ℕ → ℕ → ℕ → ℕ → ℕ
op_result funct3 funct7 val1 val2 =
    if funct3 == 0
    then (if funct7 == 0x20 then sub32 val1 val2 else add32 val1 val2)
    else if funct3 == 1
    then shl32 val1 (val2 % 2 ^ 5)
    else if funct3 == 2
    then bool_word (slt32 val1 val2)
    else if funct3 == 3
    then bool_word (ltb val1 val2)
    else if funct3 == 4
    then bit_xor val1 val2
    else if funct3 == 5
    then (if funct7 == 0x20 then sar32 val1 (val2 % 2 ^ 5) else shr32 val1 (val2 % 2 ^ 5))
    else if funct3 == 6
    then bit_or val1 val2
    else bit_and val1 val2

module _ {Env : Type 0} where
  abbrev pub with_reg : ℕ → ℕ → Machine Env → Machine Env
  with_reg rd value m = record m { cpu = rv32_cpu_write_reg m.cpu rd value }

  abbrev pub with_pc : ℕ → Machine Env → Machine Env
  with_pc pc m = record m { cpu = record m.cpu { pc = pc } }

  unfoldable pub exec_jal : ℕ → ℕ → Machine Env → Machine Env
  exec_jal instruction current_pc m =
      with_pc (add32 current_pc (sign_extend (j_imm instruction) 21))
        (with_reg (rd_of instruction) m.cpu.pc m)

  -- The target is read before the return address is written.
  unfoldable pub exec_jalr : ℕ → Machine Env → Machine Env
  exec_jalr instruction m =
      let sum =
        add32 (rv32_cpu_read_reg m.cpu (rs1_of instruction)) (sign_extend (i_imm instruction) 12) in
      with_pc (sum / 2 * 2) (with_reg (rd_of instruction) m.cpu.pc m)

  unfoldable pub exec_branch : ℕ → ℕ → Machine Env → Machine Env
  exec_branch instruction current_pc m =
      if take_branch (funct3_of instruction) (rv32_cpu_read_reg m.cpu (rs1_of instruction))
        (rv32_cpu_read_reg m.cpu (rs2_of instruction))
      then with_pc (add32 current_pc (sign_extend (b_imm instruction) 13)) m
      else m

  -- the `switch` of a load: the value, and the machine after the access, if there is one
  unfoldable pub load_value : ℕ → ℕ → Machine Env → ℕ × Machine Env
  load_value funct3 addr m =
      let (byte, after_byte) = rv32_cpu_read_mem addr 1 m in
      let (half, after_half) = rv32_cpu_read_mem addr 2 m in
      let (word, after_word) = rv32_cpu_read_mem addr 4 m in
      if funct3 == 0
      then (sign_extend byte 8, after_byte)
      else if funct3 == 1
      then (sign_extend half 16, after_half)
      else if funct3 == 2
      then (word, after_word)
      else if funct3 == 4
      then (byte % 2 ^ 8, after_byte)
      else if funct3 == 5
      then (half % 2 ^ 16, after_half)
      else (0, m)

  unfoldable pub exec_load : ℕ → Machine Env → Machine Env
  exec_load instruction m =
      let addr =
        add32 (rv32_cpu_read_reg m.cpu (rs1_of instruction)) (sign_extend (i_imm instruction) 12) in
      let (value, loaded) = load_value (funct3_of instruction) addr m in
      with_reg (rd_of instruction) value loaded

  unfoldable pub exec_store : ℕ → Machine Env → Machine Env
  exec_store instruction m =
      let addr =
        add32 (rv32_cpu_read_reg m.cpu (rs1_of instruction)) (sign_extend (s_imm instruction) 12) in
      let value = rv32_cpu_read_reg m.cpu (rs2_of instruction) in
      let funct3 = funct3_of instruction in
      if funct3 == 0
      then rv32_cpu_write_mem addr value 1 m
      else if funct3 == 1
      then rv32_cpu_write_mem addr value 2 m
      else if funct3 == 2
      then rv32_cpu_write_mem addr value 4 m
      else m

  unfoldable pub exec_op_imm : ℕ → Machine Env → Machine Env
  exec_op_imm instruction m =
      with_reg (rd_of instruction)
        (op_imm_result (funct3_of instruction) (i_imm instruction)
          (sign_extend (i_imm instruction) 12) (rv32_cpu_read_reg m.cpu (rs1_of instruction)))
        m

  unfoldable pub exec_op : ℕ → Machine Env → Machine Env
  exec_op instruction m =
      with_reg (rd_of instruction)
        (op_result (funct3_of instruction) (funct7_of instruction)
          (rv32_cpu_read_reg m.cpu (rs1_of instruction))
          (rv32_cpu_read_reg m.cpu (rs2_of instruction)))
        m

  -- ECALL only prints a message.
  unfoldable pub exec_system : ℕ → Machine Env → Machine Env
  exec_system instruction m =
      if funct3_of instruction == 0
      then (if i_imm instruction == 1 then record m { cpu = record m.cpu { halted = true } } else m)
      else m

  -- the `switch` on the opcode
  unfoldable pub execute : ℕ → ℕ → Machine Env → Machine Env
  execute instruction current_pc m =
      let opcode = opcode_of instruction in
      if opcode == 0x37
      then with_reg (rd_of instruction) (u_imm instruction) m
      else if opcode == 0x17
      then with_reg (rd_of instruction) (add32 current_pc (u_imm instruction)) m
      else if opcode == 0x6f
      then exec_jal instruction current_pc m
      else if opcode == 0x67
      then exec_jalr instruction m
      else if opcode == 0x63
      then exec_branch instruction current_pc m
      else if opcode == 0x03
      then exec_load instruction m
      else if opcode == 0x23
      then exec_store instruction m
      else if opcode == 0x13
      then exec_op_imm instruction m
      else if opcode == 0x33
      then exec_op instruction m
      else if opcode == 0x73
      then exec_system instruction m
      else record m { cpu = record m.cpu { running = false } }

  -- the fetch: the instruction, and the machine with the default next `pc`
  unfoldable pub fetch : Machine Env → ℕ × Machine Env
  fetch m =
      let (instruction, fetched) = rv32_cpu_read_mem m.cpu.pc 4 m in
      (
        instruction,
        record fetched {
          cpu = record fetched.cpu {
            pc = add32 fetched.cpu.pc 4;
            instruction_count = (fetched.cpu.instruction_count + 1) % 2 ^ 64;
          };
        },
      )

  unfoldable pub rv32_cpu_step : Machine Env → Machine Env
  rv32_cpu_step m =
      let (instruction, fetched) = fetch m in
      if m.cpu.running then execute instruction m.cpu.pc fetched else m
