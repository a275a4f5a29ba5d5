-- ===== src/Emu/Disassemble.antt =====
-- `rv32_cpu_disassemble` of emu/rv32_cpu.c: the text of an instruction, cut to the buffer.
use gdb_stub.Prelude.{
  ℕ, zero, suc, ◌+◌, ◌/◌, ◌%◌, ◌^◌, List, [], ◌∷◌, ◌++◌, ltb, ◌==◌, if◌then◌else◌,
}
use gdb_stub.Prelude.Int.{ℤ, pos, negsuc}
use gdb_stub.Prelude.Text.{codes, snprintf, signed32}
use gdb_stub.Hex.{format_hex_width}
use gdb_stub.Emu.Decode.{opcode_of, rd_of, rs1_of, rs2_of, funct3_of, i_imm, j_imm, sign_extend}
use gdb_stub.Emu.Step.{add32}

-- the decimal digits of `n`, which has at most `fuel` of them
unfoldable pub decimal_digits : ℕ → ℕ → List ℕ
decimal_digits zero n = []
decimal_digits (suc fuel) n =
    let before = decimal_digits fuel (n / 10) in
    (if ltb n 10 then [] else before) ++ ((b'0' + n % 10) ∷ [])

-- `%d` of an `int`, which has at most 10 digits
unfoldable pub format_decimal : ℤ → List ℕ
unfolding decimal_digits
format_decimal (pos n) = decimal_digits 10 n
format_decimal (negsuc n) = b'-' ∷ decimal_digits 10 (suc n)

-- `x%d`
abbrev pub register : ℕ → List ℕ
register r = codes "x" ++ format_decimal (pos r)

-- `0x%0<width>x`
abbrev pub hex_number : ℕ → ℕ → List ℕ
hex_number width n = codes "0x" ++ format_hex_width width n

-- `<name> x%d, x%d, %d`
abbrev pub show_op_imm : List ℕ → ℕ → List ℕ
show_op_imm name instruction =
    name
    ++ (register (rd_of instruction)
        ++ (codes ", "
            ++ (register (rs1_of instruction)
                ++ (codes ", " ++ format_decimal (signed32 (sign_extend (i_imm instruction) 12))))))

-- `<name> x%d, x%d, x%d`
abbrev pub show_op : List ℕ → ℕ → List ℕ
show_op name instruction =
    name
    ++ (register (rd_of instruction)
        ++ (codes ", "
            ++ (register (rs1_of instruction) ++ (codes ", " ++ register (rs2_of instruction)))))

abbrev pub show_unknown : List ℕ → ℕ → List ℕ
show_unknown name instruction = name ++ hex_number 8 instruction

-- `<name> x%d, 0x%0<width>x`
abbrev pub show_target : List ℕ → ℕ → ℕ → ℕ → List ℕ
show_target name width target instruction =
    name ++ (register (rd_of instruction) ++ (codes ", " ++ hex_number width target))

unfoldable pub disassemble_op_imm : ℕ → List ℕ
disassemble_op_imm instruction =
    let funct3 = funct3_of instruction in
    if funct3 == 0
    then show_op_imm (codes "addi ") instruction
    else if funct3 == 4
    then show_op_imm (codes "xori ") instruction
    else if funct3 == 6
    then show_op_imm (codes "ori ") instruction
    else if funct3 == 7
    then show_op_imm (codes "andi ") instruction
    else show_unknown (codes "unknown_op_imm ") instruction

unfoldable pub disassemble_op : ℕ → List ℕ
disassemble_op instruction =
    let funct3 = funct3_of instruction in
    if funct3 == 0
    then (if instruction / 2 ^ 30 % 2 == 1
        then show_op (codes "sub ") instruction
        else show_op (codes "add ") instruction)
    else if funct3 == 4
    then show_op (codes "xor ") instruction
    else if funct3 == 6
    then show_op (codes "or ") instruction
    else if funct3 == 7
    then show_op (codes "and ") instruction
    else show_unknown (codes "unknown_op ") instruction

-- the text before it is cut
unfoldable pub disassembly : ℕ → ℕ → List ℕ
unfolding disassemble_op_imm disassemble_op
disassembly instruction pc =
    let opcode = opcode_of instruction in
    if opcode == 0x37
    then show_target (codes "lui ") 5 (instruction / 2 ^ 12) instruction
    else if opcode == 0x17
    then show_target (codes "auipc ") 5 (instruction / 2 ^ 12) instruction
    else if opcode == 0x6f
    then show_target (codes "jal ") 8 (add32 pc (sign_extend (j_imm instruction) 21)) instruction
    else if opcode == 0x13
    then disassemble_op_imm instruction
    else if opcode == 0x33
    then disassemble_op instruction
    else if opcode == 0x73
    then (if i_imm instruction == 0
        then codes "ecall"
        else if i_imm instruction == 1
        then codes "ebreak"
        else show_unknown (codes "unknown_system ") instruction)
    else show_unknown (codes "unknown ") instruction

unfoldable pub rv32_cpu_disassemble : ℕ → ℕ → ℕ → List ℕ
unfolding disassembly
rv32_cpu_disassemble instruction pc buf_size = snprintf buf_size (disassembly instruction pc)
