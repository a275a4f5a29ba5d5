-- ===== src/Hex/Bounds.antt =====
-- Ranges of the hexadecimal helpers of src/gdb_stub.c.
use gdb_stub.Prelude.{
  ℕ, zero, suc, ◌+◌, ◌*◌, ◌/◌, ◌%◌, ◌^◌, ◌≤◌, ◌<◌, ◌≡◌, refl, ap, bit_or, List, [], ◌∷◌, length,
  length-append, arith,
}
use gdb_stub.Prelude.Bits.{shifted-bit_or}
use gdb_stub.Hex.{
  Xlen, rv32, rv64, word_mod, hex_to_int, int_to_hex, parse_hex_loop, parse_hex, hex_pair,
  encode_byte, encode_hex_loop, encode_hex, calculate_checksum_loop, calculate_checksum,
  format_hex_width, strip_zeros, format_hex,
}

-- A digit is below 16, whatever the character.
pub hex_to_int-lt : (c : ℕ) → hex_to_int c < 16
unfolding hex_to_int
hex_to_int-lt c = ground arith

pub int_to_hex-lt : (v : ℕ) → v < 16 → int_to_hex v < 128
unfolding int_to_hex
int_to_hex-lt v h = ground arith

-- A character of `int_to_hex` is a digit or a lower-case letter: no `#`, `$`, `,` or NUL.
pub int_to_hex_ge : (v : ℕ) → b'0' ≤ int_to_hex v
unfolding int_to_hex
int_to_hex_ge v = ground arith

pub next_digit :
    (x : Xlen) (v d : ℕ) → d < 16 → bit_or (v * 2 ^ 4 % word_mod x) d ≡ v * 16 % word_mod x + d
next_digit rv32 v d h = omega (arith, shifted-bit_or 4 (v % 2 ^ 28) d h, lined)
  where
    lined : bit_or (v * 2 ^ 4 % 2 ^ 32) d ≡ bit_or (v % 2 ^ 28 * 2 ^ 4) d
    lined = ap (λ (t : ℕ). bit_or t d) (omega arith)
next_digit rv64 v d h = omega (arith, shifted-bit_or 4 (v % 2 ^ 60) d h, lined)
  where
    lined : bit_or (v * 2 ^ 4 % 2 ^ 64) d ≡ bit_or (v % 2 ^ 60 * 2 ^ 4) d
    lined = ap (λ (t : ℕ). bit_or t d) (omega arith)

next_digit-lt : (x : Xlen) (v d : ℕ) → d < 16 → v * 16 % word_mod x + d < word_mod x
next_digit-lt rv32 v d h = omega arith
next_digit-lt rv64 v d h = omega arith

pub word_mod_pos : (x : Xlen) → 0 < word_mod x
word_mod_pos rv32 = omega arith
word_mod_pos rv64 = omega arith

parse_hex_loop-lt :
    (x : Xlen) (n : ℕ) (str : List ℕ) (v : ℕ)
    → v < word_mod x
    → parse_hex_loop x n str v < word_mod x
unfolding parse_hex_loop
parse_hex_loop-lt x zero str v h = h
parse_hex_loop-lt x (suc n) [] v h = h
parse_hex_loop-lt x (suc n) (c ∷ str) v h =
    ground (arith, parse_hex_loop-lt x n str (bit_or (v * 2 ^ 4 % word_mod x) (hex_to_int c)) below)
  where
    below : bit_or (v * 2 ^ 4 % word_mod x) (hex_to_int c) < word_mod x
    below = omega (
      arith,
      next_digit x v (hex_to_int c) (hex_to_int-lt c),
      next_digit-lt x v (hex_to_int c) (hex_to_int-lt c),
    )

-- `parse_hex` returns a `gdb_addr_t` on every text.
pub parse_hex-lt : (x : Xlen) (str : List ℕ) (len : ℕ) → parse_hex x str len < word_mod x
unfolding parse_hex
parse_hex-lt x str len = parse_hex_loop-lt x len str 0 (word_mod_pos x)

pub hex_pair_value : (hi lo : ℕ) → hex_pair hi lo ≡ hex_to_int hi * 16 + hex_to_int lo
unfolding hex_pair
hex_pair_value hi lo = omega (
  arith,
  shifted-bit_or 4 (hex_to_int hi) (hex_to_int lo) (hex_to_int-lt lo),
  hex_to_int-lt hi,
  hex_to_int-lt lo,
)

pub length-encode_hex_loop : (n i v : ℕ) → length (encode_hex_loop n i v) ≡ 2 * n
unfolding encode_hex_loop encode_byte
length-encode_hex_loop zero i v = refl
length-encode_hex_loop (suc n) i v = omega (arith, length-encode_hex_loop n (i + 1) v)

-- `encode_hex` writes two characters for each byte.
pub length-encode_hex : (v bytes : ℕ) → length (encode_hex v bytes) ≡ 2 * bytes
unfolding encode_hex
length-encode_hex v bytes = length-encode_hex_loop bytes 0 v

checksum_loop-lt : (s : ℕ) (xs : List ℕ) → s < 256 → calculate_checksum_loop s xs < 256
unfolding calculate_checksum_loop
checksum_loop-lt s [] h = h
checksum_loop-lt s (c ∷ xs) h = checksum_loop-lt ((s + c) % 256) xs (omega arith)

-- The checksum is a `uint8_t`.
pub calculate_checksum-lt : (xs : List ℕ) → calculate_checksum xs < 256
unfolding calculate_checksum
calculate_checksum-lt xs = checksum_loop-lt 0 xs (omega arith)

pub length-format_hex_width : (n v : ℕ) → length (format_hex_width n v) ≡ n
unfolding format_hex_width
length-format_hex_width zero v = refl
length-format_hex_width (suc n) v = omega (
  arith,
  length-append (format_hex_width n (v / 16)) (int_to_hex (v % 16) ∷ []),
  length-format_hex_width n (v / 16),
)

length-strip_zeros : (str : List ℕ) → length (strip_zeros str) ≤ length str
unfolding strip_zeros
length-strip_zeros [] = omega arith
length-strip_zeros (c ∷ []) = omega arith
length-strip_zeros (c ∷ d ∷ str) = ground (arith, length-strip_zeros (d ∷ str))

pub length-format_hex : (v : ℕ) → length (format_hex v) ≤ 8
unfolding format_hex
length-format_hex v =
    omega (arith, length-strip_zeros (format_hex_width 8 v), length-format_hex_width 8 v)
