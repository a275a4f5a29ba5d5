-- ===== src/Emu/Decode.antt =====
-- The fields of an instruction word and `sign_extend`, as emu/rv32_cpu.c takes them apart. An
-- `int32_t` is its bit pattern, a number below 2 ^ 32.
use gdb_stub.Prelude.{ℕ, ◌-◌, ◌*◌, ◌/◌, ◌%◌, ◌^◌, bit_or, ◌==◌, if◌then◌else◌}

-- `(instruction >> low) & (2 ^ width - 1)`
abbrev pub field : ℕ → ℕ → ℕ → ℕ
field low width instruction = instruction / 2 ^ low % 2 ^ width

abbrev pub opcode_of : ℕ → ℕ
opcode_of = field 0 7

abbrev pub rd_of : ℕ → ℕ
rd_of = field 7 5

abbrev pub funct3_of : ℕ → ℕ
funct3_of = field 12 3

abbrev pub rs1_of : ℕ → ℕ
rs1_of = field 15 5

abbrev pub rs2_of : ℕ → ℕ
rs2_of = field 20 5

abbrev pub funct7_of : ℕ → ℕ
funct7_of = field 25 7

-- `instruction & 0xFFFFF000`
abbrev pub u_imm : ℕ → ℕ
u_imm instruction = instruction / 2 ^ 12 % 2 ^ 20 * 2 ^ 12

abbrev pub i_imm : ℕ → ℕ
i_imm = field 20 12

unfoldable pub s_imm : ℕ → ℕ
s_imm instruction = bit_or (field 25 7 instruction * 2 ^ 5) (field 7 5 instruction)

unfoldable pub b_imm : ℕ → ℕ
b_imm instruction =
    bit_or
      (bit_or (bit_or (field 31 1 instruction * 2 ^ 12) (field 7 1 instruction * 2 ^ 11))
        (field 25 6 instruction * 2 ^ 5))
      (field 8 4 instruction * 2)

unfoldable pub j_imm : ℕ → ℕ
j_imm instruction =
    bit_or
      (bit_or (bit_or (field 31 1 instruction * 2 ^ 20) (field 12 8 instruction * 2 ^ 12))
        (field 20 1 instruction * 2 ^ 11))
      (field 21 10 instruction * 2)

-- `value | ~((1U << bits) - 1)` where the sign bit is set
unfoldable pub sign_extend : ℕ → ℕ → ℕ
sign_extend value bits =
    if value / 2 ^ (bits - 1) % 2 == 1 then bit_or value (2 ^ 32 - 2 ^ bits) else value
