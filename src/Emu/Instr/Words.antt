-- ===== src/Emu/Instr/Words.antt =====
-- The results of emu/rv32_cpu.c are those of the manual, on words below 2 ^ 32.
use gdb_stub.Prelude.{
  ℕ, zero, suc, ◌-◌, ◌*◌, ◌/◌, ◌%◌, ◌^◌, ◌<◌, ◌≡◌, ◌∙◌, refl, sym, ap, Bool, true, false, not, ltb,
  if◌then◌else◌, arith,
}
use native.Mathlib.Nat.{div-div-eq-div-mul, div-le_self, mul_assoc, pow-suc}
use gdb_stub.Emu.Step.{shl32, shr32, sar32, slt32, bool_word}
use gdb_stub.Emu.Instr.{
  AluOp, ImmOp, ShiftOp, BranchOp, alu_value, imm_value, shift_value, branch_taken,
}
use gdb_stub.Emu.Instr.Meaning.{
  signed_less, double, halve, halve_signed, times, flag, alu_meaning, imm_meaning, shift_meaning,
  branch_meaning,
}

slt32-signed_less : (a b : ℕ) → a < 2 ^ 32 → b < 2 ^ 32 → slt32 a b ≡ signed_less a b
slt32-signed_less a b h k = ground arith

bool_word-flag : (b : Bool) → bool_word b ≡ flag b
bool_word-flag true = refl
bool_word-flag false = refl

shl32-times : (k a : ℕ) → a < 2 ^ 32 → shl32 a k ≡ times k double a
shl32-times zero a h = omega arith
shl32-times (suc k) a h =
    ap (λ (p : ℕ). a * p % 2 ^ 32) (pow-suc 2 k) ∙ doubled (2 ^ k) ∙ ap double (shl32-times k a h)
  where
    doubled : (p : ℕ) → a * (p * 2) % 2 ^ 32 ≡ a * p % 2 ^ 32 * 2 % 2 ^ 32
    doubled p = omega (arith, mul_assoc a p 2)

shr32-times : (k a : ℕ) → shr32 a k ≡ times k halve a
shr32-times zero a = omega arith
shr32-times (suc k) a =
    ap (λ (p : ℕ). a / p) (pow-suc 2 k)
    ∙ sym (div-div-eq-div-mul a (2 ^ k) 2)
    ∙ ap halve (shr32-times k a)

-- a negative word, shifted as its complement
sar32-suc : (a k : ℕ) → a < 2 ^ 32 → sar32 a (suc k) ≡ halve_signed (sar32 a k)
sar32-suc a k h =
    ap (λ (p : ℕ). if ltb a (2 ^ 31) then a / p else 2 ^ 32 - 1 - (2 ^ 32 - 1 - a) / p)
      (pow-suc 2 k)
    ∙ step (2 ^ k)
  where
    step :
        (p : ℕ)
        → (if ltb a (2 ^ 31) then a / (p * 2) else 2 ^ 32 - 1 - (2 ^ 32 - 1 - a) / (p * 2))
          ≡ halve_signed (if ltb a (2 ^ 31) then a / p else 2 ^ 32 - 1 - (2 ^ 32 - 1 - a) / p)
    step p = ground (
      arith,
      div-div-eq-div-mul a p 2,
      div-div-eq-div-mul (2 ^ 32 - 1 - a) p 2,
      div-le_self a p,
      div-le_self (2 ^ 32 - 1 - a) p,
    )

sar32-times : (k a : ℕ) → a < 2 ^ 32 → sar32 a k ≡ times k halve_signed a
sar32-times zero a h = ground arith
sar32-times (suc k) a h = sar32-suc a k h ∙ ap halve_signed (sar32-times k a h)

module _ (a b : ℕ) (a_lt : a < 2 ^ 32) (b_lt : b < 2 ^ 32) where
  less_word : bool_word (slt32 a b) ≡ flag (signed_less a b)
  less_word = ap bool_word (slt32-signed_less a b a_lt b_lt) ∙ bool_word-flag (signed_less a b)

  pub alu_value-alu_meaning : (o : AluOp) → alu_value o a b ≡ alu_meaning o a b
  alu_value-alu_meaning AluOp.add = refl
  alu_value-alu_meaning AluOp.sub = omega arith
  alu_value-alu_meaning AluOp.sll = shl32-times (b % 32) a a_lt
  alu_value-alu_meaning AluOp.slt = less_word
  alu_value-alu_meaning AluOp.sltu = bool_word-flag (ltb a b)
  alu_value-alu_meaning AluOp.xor = refl
  alu_value-alu_meaning AluOp.srl = shr32-times (b % 32) a
  alu_value-alu_meaning AluOp.sra = sar32-times (b % 32) a a_lt
  alu_value-alu_meaning AluOp.or = refl
  alu_value-alu_meaning AluOp.and = refl

  pub imm_value-imm_meaning : (o : ImmOp) → imm_value o a b ≡ imm_meaning o a b
  imm_value-imm_meaning ImmOp.addi = refl
  imm_value-imm_meaning ImmOp.slti = less_word
  imm_value-imm_meaning ImmOp.sltiu = bool_word-flag (ltb a b)
  imm_value-imm_meaning ImmOp.xori = refl
  imm_value-imm_meaning ImmOp.ori = refl
  imm_value-imm_meaning ImmOp.andi = refl

  pub branch_taken-branch_meaning : (o : BranchOp) → branch_taken o a b ≡ branch_meaning o a b
  branch_taken-branch_meaning BranchOp.beq = refl
  branch_taken-branch_meaning BranchOp.bne = refl
  branch_taken-branch_meaning BranchOp.blt = slt32-signed_less a b a_lt b_lt
  branch_taken-branch_meaning BranchOp.bge = ap not (slt32-signed_less a b a_lt b_lt)
  branch_taken-branch_meaning BranchOp.bltu = refl
  branch_taken-branch_meaning BranchOp.bgeu = ground arith

pub shift_value-shift_meaning :
    (o : ShiftOp) (a k : ℕ) → a < 2 ^ 32 → shift_value o a k ≡ shift_meaning o a k
shift_value-shift_meaning ShiftOp.slli a k h = shl32-times k a h
shift_value-shift_meaning ShiftOp.srli a k h = shr32-times k a
shift_value-shift_meaning ShiftOp.srai a k h = sar32-times k a h
