-- ===== src/Emu/Instr/Fields.antt =====
-- The fields that emu/rv32_cpu.c takes from an encoded instruction.
use gdb_stub.Prelude.{
  ℕ, ◌+◌, ◌-◌, ◌*◌, ◌/◌, ◌%◌, ◌^◌, ◌<◌, ◌≡◌, refl, sym, ap, ap₂, ◌∙◌, bit_or, arith,
}
use gdb_stub.Prelude.Bits.{shifted-bit_or, bit_or-shifted}
use gdb_stub.Emu.Decode.{
  field, opcode_of, rd_of, funct3_of, rs1_of, rs2_of, funct7_of, u_imm, i_imm, s_imm, b_imm, j_imm,
  sign_extend,
}
use gdb_stub.Emu.Instr.{word, i_word, s_word, b_word, u_word, j_word, extend}

-- the fields of an R-type word
pub record HasFields (w opcode rd funct3 rs1 rs2 funct7 : ℕ) : Type 0 where
  pub opcode_eq : opcode_of w ≡ opcode
  pub rd_eq : rd_of w ≡ rd
  pub funct3_eq : funct3_of w ≡ funct3
  pub rs1_eq : rs1_of w ≡ rs1
  pub rs2_eq : rs2_of w ≡ rs2
  pub funct7_eq : funct7_of w ≡ funct7

pub word-HasFields :
    (opcode rd funct3 rs1 rs2 funct7 : ℕ)
    → opcode < 2 ^ 7
    → rd < 2 ^ 5
    → funct3 < 2 ^ 3
    → rs1 < 2 ^ 5
    → rs2 < 2 ^ 5
    → funct7 < 2 ^ 7
    → HasFields (word opcode rd funct3 rs1 rs2 funct7) opcode rd funct3 rs1 rs2 funct7
word-HasFields opcode rd funct3 rs1 rs2 funct7 a b c d e f = record {
  opcode_eq = omega arith;
  rd_eq = omega arith;
  funct3_eq = omega arith;
  rs1_eq = omega arith;
  rs2_eq = omega arith;
  funct7_eq = omega arith;
}

pub i_imm_fields : (w : ℕ) → w < 2 ^ 32 → i_imm w ≡ rs2_of w + funct7_of w * 2 ^ 5
i_imm_fields w h = omega arith

pub sign_extend_8 : (v : ℕ) → v < 2 ^ 8 → sign_extend v 8 ≡ extend 8 v
unfolding sign_extend
sign_extend_8 v h = ground (arith, bit_or-shifted 8 (2 ^ 24 - 1) v h)

pub sign_extend_12 : (v : ℕ) → v < 2 ^ 12 → sign_extend v 12 ≡ extend 12 v
unfolding sign_extend
sign_extend_12 v h = ground (arith, bit_or-shifted 12 (2 ^ 20 - 1) v h)

pub sign_extend_13 : (v : ℕ) → v < 2 ^ 13 → sign_extend v 13 ≡ extend 13 v
unfolding sign_extend
sign_extend_13 v h = ground (arith, bit_or-shifted 13 (2 ^ 19 - 1) v h)

pub sign_extend_16 : (v : ℕ) → v < 2 ^ 16 → sign_extend v 16 ≡ extend 16 v
unfolding sign_extend
sign_extend_16 v h = ground (arith, bit_or-shifted 16 (2 ^ 16 - 1) v h)

pub sign_extend_21 : (v : ℕ) → v < 2 ^ 21 → sign_extend v 21 ≡ extend 21 v
unfolding sign_extend
sign_extend_21 v h = ground (arith, bit_or-shifted 21 (2 ^ 11 - 1) v h)

pub s_imm_fields : (w : ℕ) → w < 2 ^ 32 → s_imm w ≡ funct7_of w * 2 ^ 5 + rd_of w
unfolding s_imm
s_imm_fields w h = shifted-bit_or 5 (funct7_of w) (rd_of w) (omega arith)

or_sum : (k q x r : ℕ) → x ≡ q * 2 ^ k → r < 2 ^ k → bit_or x r ≡ x + r
or_sum k q x r e h =
    ap (λ (t : ℕ). bit_or t r) e ∙ (shifted-bit_or k q r h ∙ ap (λ (t : ℕ). t + r) (sym e))

or_parts :
    (x y z w k m n : ℕ) (p q r : ℕ)
    → x ≡ p * 2 ^ k
    → y < 2 ^ k
    → x + y ≡ q * 2 ^ m
    → z < 2 ^ m
    → x + y + z ≡ r * 2 ^ n
    → w < 2 ^ n
    → bit_or (bit_or (bit_or x y) z) w ≡ x + y + z + w
or_parts x y z w k m n p q r ex hy ey hz ez hw =
    ap (λ (t : ℕ). bit_or (bit_or t z) w) (or_sum k p x y ex hy)
    ∙ (ap (λ (t : ℕ). bit_or t w) (or_sum m q (x + y) z ey hz) ∙ or_sum n r (x + y + z) w ez hw)

pub b_imm_parts :
    (w : ℕ)
    → w < 2 ^ 32
    → b_imm w
      ≡ funct7_of w / 2 ^ 6 * 2 ^ 12
        + rd_of w % 2 * 2 ^ 11
        + funct7_of w % 2 ^ 6 * 2 ^ 5
        + rd_of w / 2 * 2
unfolding b_imm
b_imm_parts w h =
    or_parts (field 31 1 w * 2 ^ 12) (field 7 1 w * 2 ^ 11) (field 25 6 w * 2 ^ 5) (field 8 4 w * 2)
      12 11 5 (field 31 1 w) (field 31 1 w * 2 + field 7 1 w)
      (field 31 1 w * 2 ^ 7 + field 7 1 w * 2 ^ 6 + field 25 6 w) refl (omega arith) (omega arith)
      (omega arith) (omega arith) (omega arith)
    ∙ omega arith

pub j_imm_parts :
    (w : ℕ)
    → j_imm w
      ≡ field 31 1 w * 2 ^ 20 + field 12 8 w * 2 ^ 12 + field 20 1 w * 2 ^ 11 + field 21 10 w * 2
unfolding j_imm
j_imm_parts w =
    or_parts (field 31 1 w * 2 ^ 20) (field 12 8 w * 2 ^ 12) (field 20 1 w * 2 ^ 11)
      (field 21 10 w * 2) 20 12 11 (field 31 1 w) (field 31 1 w * 2 ^ 8 + field 12 8 w)
      (field 31 1 w * 2 ^ 9 + field 12 8 w * 2 + field 20 1 w) refl (omega arith) (omega arith)
      (omega arith) (omega arith) (omega arith)

module _ (rd offset : ℕ) (rd_lt : rd < 2 ^ 5) (offset_lt : offset < 2 ^ 21)
    (even : offset % 2 ≡ 0) where
  j_word_parts :
      (a b c s : ℕ)
      → a < 2 ^ 8
      → b < 2
      → c < 2 ^ 10
      → s < 2
      → let w = 0x6f + rd * 2 ^ 7 + a * 2 ^ 12 + b * 2 ^ 20 + c * 2 ^ 21 + s * 2 ^ 31 in
        (opcode_of w ≡ 0x6f)
        × (rd_of w ≡ rd)
        × (field 12 8 w ≡ a)
        × (field 20 1 w ≡ b)
        × (field 21 10 w ≡ c)
        × (field 31 1 w ≡ s)
  j_word_parts a b c s ha hb hc hs =
      (omega arith, omega arith, omega arith, omega arith, omega arith, omega arith)

  pub j_word_lem :
      (opcode_of (j_word rd offset) ≡ 0x6f)
      × (rd_of (j_word rd offset) ≡ rd)
      × (j_imm (j_word rd offset) ≡ offset)
  j_word_lem =
      let (o, r, a, b, c, s) =
        j_word_parts (offset / 2 ^ 12 % 2 ^ 8) (offset / 2 ^ 11 % 2) (offset / 2 % 2 ^ 10)
          (offset / 2 ^ 20) (omega arith) (omega arith) (omega arith) (omega arith) in
      (o, r, omega (arith, j_imm_parts (j_word rd offset), a, b, c, s))

module _ (opcode rd funct3 rs1 imm : ℕ) (opcode_lt : opcode < 2 ^ 7) (rd_lt : rd < 2 ^ 5)
    (funct3_lt : funct3 < 2 ^ 3) (rs1_lt : rs1 < 2 ^ 5) (imm_lt : imm < 2 ^ 12) where
  i_word-HasFields :
      HasFields (i_word opcode rd funct3 rs1 imm) opcode rd funct3 rs1 (imm % 2 ^ 5) (imm / 2 ^ 5)
  i_word-HasFields =
      word-HasFields opcode rd funct3 rs1 (imm % 2 ^ 5) (imm / 2 ^ 5) opcode_lt rd_lt funct3_lt
        rs1_lt (omega arith) (omega arith)

  i_word_lt : i_word opcode rd funct3 rs1 imm < 2 ^ 32
  i_word_lt = omega arith

  pub i_word_lem :
      (opcode_of (i_word opcode rd funct3 rs1 imm) ≡ opcode)
      × (rd_of (i_word opcode rd funct3 rs1 imm) ≡ rd)
      × (funct3_of (i_word opcode rd funct3 rs1 imm) ≡ funct3)
      × (rs1_of (i_word opcode rd funct3 rs1 imm) ≡ rs1)
      × (i_imm (i_word opcode rd funct3 rs1 imm) ≡ imm)
  i_word_lem =
      let f = i_word-HasFields in
      (
        f.opcode_eq,
        f.rd_eq,
        f.funct3_eq,
        f.rs1_eq,
        omega (
          arith,
          i_imm_fields (i_word opcode rd funct3 rs1 imm) i_word_lt,
          f.rs2_eq,
          f.funct7_eq,
        ),
      )

module _ (opcode funct3 rs1 rs2 imm : ℕ) (opcode_lt : opcode < 2 ^ 7) (funct3_lt : funct3 < 2 ^ 3)
    (rs1_lt : rs1 < 2 ^ 5) (rs2_lt : rs2 < 2 ^ 5) (imm_lt : imm < 2 ^ 12) where
  s_word_lt : s_word opcode funct3 rs1 rs2 imm < 2 ^ 32
  s_word_lt = omega arith

  pub s_word_lem :
      (opcode_of (s_word opcode funct3 rs1 rs2 imm) ≡ opcode)
      × (funct3_of (s_word opcode funct3 rs1 rs2 imm) ≡ funct3)
      × (rs1_of (s_word opcode funct3 rs1 rs2 imm) ≡ rs1)
      × (rs2_of (s_word opcode funct3 rs1 rs2 imm) ≡ rs2)
      × (s_imm (s_word opcode funct3 rs1 rs2 imm) ≡ imm)
  s_word_lem =
      let f =
        word-HasFields opcode (imm % 2 ^ 5) funct3 rs1 rs2 (imm / 2 ^ 5) opcode_lt (omega arith)
          funct3_lt rs1_lt rs2_lt (omega arith) in
      (
        f.opcode_eq,
        f.funct3_eq,
        f.rs1_eq,
        f.rs2_eq,
        omega (
          arith,
          s_imm_fields (s_word opcode funct3 rs1 rs2 imm) s_word_lt,
          f.rd_eq,
          f.funct7_eq,
        ),
      )

module _ (funct3 rs1 rs2 offset : ℕ) (funct3_lt : funct3 < 2 ^ 3) (rs1_lt : rs1 < 2 ^ 5)
    (rs2_lt : rs2 < 2 ^ 5) (offset_lt : offset < 2 ^ 13) (even : offset % 2 ≡ 0) where
  b_word_lt : b_word funct3 rs1 rs2 offset < 2 ^ 32
  b_word_lt = omega arith

  pub b_word_lem :
      (opcode_of (b_word funct3 rs1 rs2 offset) ≡ 0x63)
      × (funct3_of (b_word funct3 rs1 rs2 offset) ≡ funct3)
      × (rs1_of (b_word funct3 rs1 rs2 offset) ≡ rs1)
      × (rs2_of (b_word funct3 rs1 rs2 offset) ≡ rs2)
      × (b_imm (b_word funct3 rs1 rs2 offset) ≡ offset)
  b_word_lem =
      let f =
        word-HasFields 0x63 (offset / 2 % 2 ^ 4 * 2 + offset / 2 ^ 11 % 2) funct3 rs1 rs2
          (offset / 2 ^ 12 * 2 ^ 6 + offset / 2 ^ 5 % 2 ^ 6) (omega arith) (omega arith) funct3_lt
          rs1_lt rs2_lt (omega arith) in
      (
        f.opcode_eq,
        f.funct3_eq,
        f.rs1_eq,
        f.rs2_eq,
        b_imm_parts (b_word funct3 rs1 rs2 offset) b_word_lt
            ∙ (ap₂
                  (λ (r t : ℕ). t / 2 ^ 6 * 2 ^ 12 + r % 2 * 2 ^ 11 + t % 2 ^ 6 * 2 ^ 5 + r / 2 * 2)
                  f.rd_eq f.funct7_eq
                ∙ omega arith),
      )

pub u_word_lem :
    (opcode rd imm : ℕ)
    → opcode < 2 ^ 7
    → rd < 2 ^ 5
    → imm < 2 ^ 20
    → (opcode_of (u_word opcode rd imm) ≡ opcode)
      × (rd_of (u_word opcode rd imm) ≡ rd)
      × (u_imm (u_word opcode rd imm) ≡ imm * 2 ^ 12)
u_word_lem opcode rd imm a b c = (omega arith, omega arith, omega arith)
