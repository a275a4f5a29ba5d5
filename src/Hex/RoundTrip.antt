-- ===== src/Hex/RoundTrip.antt =====
-- The writers and the readers of hexadecimal numbers in src/gdb_stub.c together.
use native.Mathlib.Nat.{
  mul-add-mod_self_left, mod-eq_of_lt, div-add-mod, mul-le-mul_right, one-le-pow, pow-suc,
  pow-le-pow_right, mod-lt,
}
use native.Mathlib.Numerals.{towards_suc}
use gdb_stub.Prelude.{
  ℕ, zero, suc, ◌+◌, ◌*◌, ◌/◌, ◌%◌, ◌^◌, ◌≤◌, ◌<◌, ◌≡◌, ◌∙◌, refl, sym, ap, ap₂, bit_or, List, [],
  ◌∷◌, ◌++◌, append_assoc, some, arith,
}
use gdb_stub.Prelude.Bits.{bit_or-shifted}
use gdb_stub.Hex.{
  Xlen, rv32, rv64, xlen, word_mod, reg_hex_bytes, reg_hex_chars, hex_to_int, int_to_hex,
  parse_hex_loop, parse_hex, hex_pair, parse_hex_le_loop, parse_hex_le, encode_byte,
  encode_hex_loop, encode_hex, format_hex_width,
}
use gdb_stub.Hex.Bounds.{hex_pair_value, int_to_hex_ge, next_digit}

-- A digit that `int_to_hex` writes is read back.
pub hex_to_int-int_to_hex : (v : ℕ) → v < 16 → hex_to_int (int_to_hex v) ≡ v
unfolding hex_to_int int_to_hex
hex_to_int-int_to_hex v h = ground arith

pub hex_pair-int_to_hex :
    (b : ℕ) → b < 256 → hex_pair (int_to_hex (b / 2 ^ 4)) (int_to_hex (b % 16)) ≡ b
hex_pair-int_to_hex b h = omega (
  arith,
  hex_pair_value (int_to_hex (b / 2 ^ 4)) (int_to_hex (b % 16)),
  hex_to_int-int_to_hex (b / 2 ^ 4) (omega arith),
  hex_to_int-int_to_hex (b % 16) (omega arith),
)

-- The low byte joins the bytes below it.
mod-mul_byte : (v p : ℕ) → 0 < p → v % (p * 256) ≡ v % p + v / p % 256 * p
mod-mul_byte v p h =
    ap (λ (t : ℕ). t % (p * 256)) split
    ∙ mul-add-mod_self_left (p * 256) (v / p / 256) low
    ∙ mod-eq_of_lt below
  where
    low : ℕ
    low = v % p + v / p % 256 * p

    split : v ≡ p * 256 * (v / p / 256) + low
    split = omega (arith, div-add-mod v p, ap (λ (t : ℕ). p * t) (digit (v / p)))
      where
        digit : (q : ℕ) → q ≡ q / 256 * 256 + q % 256
        digit q = omega arith

    below : low < p * 256
    below = omega (arith, mul-le-mul_right p top, mod-lt v h)
      where
        top : v / p % 256 ≤ 255
        top = omega arith

pow_next_byte : (i : ℕ) → 2 ^ ((i + 1) * 8) ≡ 2 ^ (i * 8) * 256
pow_next_byte i = ap (λ (t : ℕ). 2 ^ t) next ∙ simp towards_suc (omega arith)
  where
    next : (i + 1) * 8 ≡ i * 8 + 8
    next = omega arith

word_mod-pow : (x : Xlen) → word_mod x ≡ 2 ^ xlen x
word_mod-pow rv32 = refl
word_mod-pow rv64 = refl

-- One round of `parse_hex_le` on one byte of `encode_hex`.
placed_byte :
    (x : Xlen) (i v : ℕ)
    → (i + 1) * 8 ≤ xlen x
    → bit_or (v % 2 ^ (i * 8)) (v / 2 ^ (i * 8) % 256 * 2 ^ (i * 8) % word_mod x)
      ≡ v % 2 ^ ((i + 1) * 8)
placed_byte x i v h =
    ap (λ (t : ℕ). bit_or (v % 2 ^ (i * 8)) t) (mod-eq_of_lt fits)
    ∙ bit_or-shifted (i * 8) (v / 2 ^ (i * 8) % 256) (v % 2 ^ (i * 8)) (mod-lt v pos_pow)
    ∙ sym (mod-mul_byte v (2 ^ (i * 8)) pos_pow)
    ∙ ap (λ (t : ℕ). v % t) (sym (pow_next_byte i))
  where
    pos_pow : 0 < 2 ^ (i * 8)
    pos_pow = one-le-pow (i * 8) 2 (omega arith)

    top : v / 2 ^ (i * 8) % 256 ≤ 255
    top = omega arith

    fits : v / 2 ^ (i * 8) % 256 * 2 ^ (i * 8) < word_mod x
    fits = omega (
      arith,
      mul-le-mul_right (2 ^ (i * 8)) top,
      pos_pow,
      pow_next_byte i,
      pow-le-pow_right {n = 2} (omega arith) h,
      word_mod-pow x,
    )

parse_hex_le_loop-encode_hex_loop :
    (x : Xlen) (n i k v acc : ℕ) (rest : List ℕ)
    → i + n ≡ k
    → k * 8 ≤ xlen x
    → acc ≡ v % 2 ^ (i * 8)
    → parse_hex_le_loop x n i (encode_hex_loop n i v ++ rest) acc ≡ some (v % 2 ^ (k * 8))
unfolding parse_hex_le_loop encode_hex_loop encode_byte
parse_hex_le_loop-encode_hex_loop x zero i k v acc rest s h e =
    ap (λ (t : ℕ). some t) (e ∙ ap (λ (t : ℕ). v % 2 ^ (t * 8)) (omega arith))
parse_hex_le_loop-encode_hex_loop x (suc n) i k v acc rest s h e = ground (
  arith,
  int_to_hex_ge (v / 2 ^ (i * 8) % 256 / 16),
  int_to_hex_ge (v / 2 ^ (i * 8) % 256 % 16),
  hex_pair-int_to_hex (v / 2 ^ (i * 8) % 256) (omega arith),
  placed_byte x i v (omega arith),
  parse_hex_le_loop-encode_hex_loop x n (i + 1) k v
      (bit_or acc (v / 2 ^ (i * 8) % 256 * 2 ^ (i * 8) % word_mod x)) rest (omega arith) h
      (rw e (placed_byte x i v (omega arith))),
)

-- A register value written by `encode_hex`, whatever follows it, is read back by `parse_hex_le`.
pub parse_hex_le-encode_hex :
    (x : Xlen) (v : ℕ) (rest : List ℕ)
    → v < word_mod x
    → parse_hex_le x (encode_hex v (reg_hex_bytes x) ++ rest) (reg_hex_chars x) ≡ some v
unfolding parse_hex_le encode_hex
parse_hex_le-encode_hex rv32 v rest h =
    parse_hex_le_loop-encode_hex_loop rv32 4 0 4 v 0 rest refl (omega arith) (omega arith)
    ∙ ap (λ (t : ℕ). some t) (mod-eq_of_lt h)
parse_hex_le-encode_hex rv64 v rest h =
    parse_hex_le_loop-encode_hex_loop rv64 8 0 8 v 0 rest refl (omega arith) (omega arith)
    ∙ ap (λ (t : ℕ). some t) (mod-eq_of_lt h)

parse_hex_loop-digit :
    (x : Xlen) (m v d : ℕ) (rest : List ℕ)
    → d < 16
    → v * 16 + d < word_mod x
    → parse_hex_loop x (suc m) (int_to_hex d ∷ rest) v ≡ parse_hex_loop x m rest (v * 16 + d)
unfolding parse_hex_loop
parse_hex_loop-digit x m v d rest hd h = ground (
  arith,
  int_to_hex_ge d,
  hex_to_int-int_to_hex d hd,
  next_digit x v d hd,
  mod-eq_of_lt {n = v * 16} {m = word_mod x} (omega arith),
)

parse_hex_loop-format :
    (x : Xlen) (n m v : ℕ) (rest : List ℕ)
    → v < word_mod x
    → v < 16 ^ n
    → parse_hex_loop x (n + m) (format_hex_width n v ++ rest) 0 ≡ parse_hex_loop x m rest v
unfolding format_hex_width
parse_hex_loop-format x zero m v rest h k =
    ap₂ (λ (t s : ℕ). parse_hex_loop x t rest s) (omega arith) (omega arith)
parse_hex_loop-format x (suc n) m v rest h k =
    ap₂ (λ (t : ℕ) (u : List ℕ). parse_hex_loop x t u 0) (omega arith)
      (append_assoc (format_hex_width n (v / 16)) (int_to_hex (v % 16) ∷ []) rest)
    ∙ parse_hex_loop-format x n (suc m) (v / 16) (int_to_hex (v % 16) ∷ rest) (omega arith)
        (omega (arith, pow-suc 16 n))
    ∙ parse_hex_loop-digit x m (v / 16) (v % 16) rest (omega arith) (omega arith)
    ∙ ap (parse_hex_loop x m rest) (omega arith)

-- A `gdb_addr_t` below 16 ^ n, written in `n` hexadecimal digits, is read back by `parse_hex` of that length, whatever follows.
pub parse_hex-format_hex_width :
    (x : Xlen) (n v : ℕ) (rest : List ℕ)
    → v < word_mod x
    → v < 16 ^ n
    → parse_hex x (format_hex_width n v ++ rest) n ≡ v
unfolding parse_hex parse_hex_loop
parse_hex-format_hex_width x n v rest h k =
    ap (λ (t : ℕ). parse_hex_loop x t (format_hex_width n v ++ rest) 0) (omega arith)
    ∙ parse_hex_loop-format x n 0 v rest h k
