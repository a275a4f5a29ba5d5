-- ===== src/Emu/Valid/Values.antt =====
-- The ranges of the values that emu/rv32_cpu.c computes with `uint32_t` operands.
use gdb_stub.Prelude.{ℕ, ◌/◌, ◌%◌, ◌^◌, ◌<◌, Bool, ltb, ◌==◌, if◌then◌else◌, arith}
use gdb_stub.Prelude.Bits.{bit_or_bound, bit_and_bound, bit_xor_bound}
use native.Mathlib.Nat.{div-le_self}
use gdb_stub.Emu.Decode.{sign_extend, i_imm}
use gdb_stub.Emu.Instr.{extend}
use gdb_stub.Emu.Instr.Fields.{sign_extend_8, sign_extend_12, sign_extend_16}
use gdb_stub.Emu.Step.{add32, shl32, sar32, slt32, bool_word, op_imm_result, op_result}

Word-if : (b : Bool) (x y : ℕ) → x < 2 ^ 32 → y < 2 ^ 32 → (if b then x else y) < 2 ^ 32
Word-if b x y h g = ground arith

add32-word : (a b : ℕ) → add32 a b < 2 ^ 32
add32-word a b = omega arith

bool_word-word : (b : Bool) → bool_word b < 2 ^ 32
bool_word-word b = ground arith

shl32-word : (a k : ℕ) → shl32 a k < 2 ^ 32
shl32-word a k = omega arith

quotient-word : (a d : ℕ) → a < 2 ^ 32 → a / d < 2 ^ 32
quotient-word a d h = omega (arith, div-le_self a d)

sar32-word : (a k : ℕ) → a < 2 ^ 32 → sar32 a k < 2 ^ 32
sar32-word a k h = ground (arith, quotient-word a (2 ^ k) h)

pub op_result-word : (f3 f7 a b : ℕ) → a < 2 ^ 32 → b < 2 ^ 32 → op_result f3 f7 a b < 2 ^ 32
unfolding op_result
op_result-word f3 f7 a b h g =
    let k = b % 2 ^ 5 in
    Word-if (f3 == 0) _ _ (Word-if (f7 == 0x20) _ _ (omega arith) (omega arith)) (
      Word-if (f3 == 1) _ _ (omega arith) (
        Word-if (f3 == 2) _ _ (bool_word-word (slt32 a b)) (
          Word-if (f3 == 3) _ _ (bool_word-word (ltb a b)) (
            Word-if (f3 == 4) _ _ (bit_xor_bound 32 a b h g) (
              Word-if (f3 == 5) _ _
                (Word-if (f7 == 0x20) _ _ (sar32-word a k h) (quotient-word a (2 ^ k) h))
                (Word-if (f3 == 6) _ _ (bit_or_bound 32 a b h g) (bit_and_bound 32 a b h g)))))))

pub op_imm_result-word :
    (f3 imm v a : ℕ) → a < 2 ^ 32 → v < 2 ^ 32 → op_imm_result f3 imm v a < 2 ^ 32
unfolding op_imm_result
op_imm_result-word f3 imm v a h g =
    let k = imm % 2 ^ 5 in
    Word-if (f3 == 0) _ _ (omega arith) (
      Word-if (f3 == 2) _ _ (bool_word-word (slt32 a v)) (
        Word-if (f3 == 3) _ _ (bool_word-word (ltb a v)) (
          Word-if (f3 == 4) _ _ (bit_xor_bound 32 a v h g) (
            Word-if (f3 == 6) _ _ (bit_or_bound 32 a v h g) (
              Word-if (f3 == 7) _ _ (bit_and_bound 32 a v h g) (
                Word-if (f3 == 1) _ _ (omega arith) (
                  Word-if (imm / 2 ^ 10 % 2 == 1) _ _ (sar32-word a k h)
                    (quotient-word a (2 ^ k) h))))))))

extend-word : (v : ℕ) → v < 2 ^ 12 → extend 12 v < 2 ^ 32
extend-word v h = ground arith

pub i_imm-word : (w : ℕ) → sign_extend (i_imm w) 12 < 2 ^ 32
i_imm-word w =
    omega (arith, sign_extend_12 (i_imm w) (omega arith), extend-word (i_imm w) (omega arith))

byte_extend-word : (v : ℕ) → v < 2 ^ 8 → extend 8 v < 2 ^ 32
byte_extend-word v h = ground arith

half_extend-word : (v : ℕ) → v < 2 ^ 16 → extend 16 v < 2 ^ 32
half_extend-word v h = ground arith

pub byte-word : (v : ℕ) → v < 2 ^ 8 → sign_extend v 8 < 2 ^ 32
byte-word v h = omega (arith, sign_extend_8 v h, byte_extend-word v h)

pub half-word : (v : ℕ) → v < 2 ^ 16 → sign_extend v 16 < 2 ^ 32
half-word v h = omega (arith, sign_extend_16 v h, half_extend-word v h)
