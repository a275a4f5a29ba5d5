-- ===== src/Hex.antt =====
-- The hexadecimal helpers of src/gdb_stub.c and the word sizes of src/gdb_stub.h.
-- A `char` is a number below 256; a `const char *` is the list of the bytes from there on.
pub mod Bounds
pub mod RoundTrip
use gdb_stub.Prelude.{
  ℕ, zero, suc, ◌+◌, ◌-◌, ◌*◌, ◌/◌, ◌%◌, ◌^◌, bit_or, ◌&&◌, Option, none, some, List, [], ◌∷◌, ◌++◌,
  ltb, leb, ◌==◌, if◌then◌else◌,
}

-- `GDB_STUB_XLEN`: the two builds of the stub.
pub data Xlen : Type 0 where
  rv32 rv64 : Xlen

-- `GDB_REG_HEX_BYTES`
abbrev pub reg_hex_bytes : Xlen → ℕ
reg_hex_bytes rv32 = 4
reg_hex_bytes rv64 = 8

-- `GDB_REG_HEX_CHARS`
abbrev pub reg_hex_chars : Xlen → ℕ
reg_hex_chars rv32 = 8
reg_hex_chars rv64 = 16

abbrev pub xlen : Xlen → ℕ
xlen rv32 = 32
xlen rv64 = 64

-- the modulus of `gdb_reg_t` and `gdb_addr_t`
abbrev pub word_mod : Xlen → ℕ
word_mod rv32 = 2 ^ 32
word_mod rv64 = 2 ^ 64

unfoldable pub hex_to_int : ℕ → ℕ
hex_to_int c =
    if leb b'0' c && leb c b'9'
    then c - b'0'
    else if leb b'a' c && leb c b'f'
    then c - b'a' + 10
    else if leb b'A' c && leb c b'F'
    then c - b'A' + 10
    else 0

unfoldable pub int_to_hex : ℕ → ℕ
int_to_hex val = if ltb val 10 then b'0' + val else b'a' + (val - 10)

-- the loop of `parse_hex`, with the rounds left and the value so far
unfoldable pub parse_hex_loop : Xlen → ℕ → List ℕ → ℕ → ℕ
parse_hex_loop x zero str value = value
parse_hex_loop x (suc n) [] value = value
parse_hex_loop x (suc n) (c ∷ str) value =
    let rest = parse_hex_loop x n str (bit_or (value * 2 ^ 4 % word_mod x) (hex_to_int c)) in
    if c == 0 then value else rest

-- A negative `len` is 0 here: the loop does no round for either.
unfoldable pub parse_hex : Xlen → List ℕ → ℕ → ℕ
unfolding parse_hex_loop
parse_hex x str len = parse_hex_loop x len str 0

-- `(hex_to_int(hi) << 4) | hex_to_int(lo)` as a `uint8_t`
unfoldable pub hex_pair : ℕ → ℕ → ℕ
unfolding hex_to_int
hex_pair hi lo = bit_or (hex_to_int hi * 2 ^ 4) (hex_to_int lo) % 256

-- The loop of `parse_hex_le`: rounds left, `i`, the text from `i * 2` on, the value.
-- A shift by the width of the word or more is undefined: `none`.
unfoldable pub parse_hex_le_loop : Xlen → ℕ → ℕ → List ℕ → ℕ → Option ℕ
parse_hex_le_loop x zero i str value = some value
parse_hex_le_loop x (suc n) i [] value = some value
parse_hex_le_loop x (suc n) i (hi ∷ []) value = some value
parse_hex_le_loop x (suc n) i (hi ∷ lo ∷ str) value =
    let placed = hex_pair hi lo * 2 ^ (i * 8) % word_mod x in
    let rest = parse_hex_le_loop x n (i + 1) str (bit_or value placed) in
    if hi == 0
    then some value
    else if lo == 0
    then some value
    else if ltb (i * 8) (xlen x)
    then rest
    else none

unfoldable pub parse_hex_le : Xlen → List ℕ → ℕ → Option ℕ
unfolding parse_hex_le_loop hex_pair
parse_hex_le x str hex_chars = parse_hex_le_loop x (hex_chars / 2) 0 str 0

-- what `encode_hex` writes for one byte, as the memory handlers do
unfoldable pub encode_byte : ℕ → List ℕ
unfolding int_to_hex
encode_byte byte = int_to_hex (byte / 2 ^ 4) ∷ int_to_hex (byte % 16) ∷ []

-- The loop of `encode_hex`: rounds left, `i`, the value.
unfoldable pub encode_hex_loop : ℕ → ℕ → ℕ → List ℕ
encode_hex_loop zero i value = []
encode_hex_loop (suc n) i value =
    encode_byte (value / 2 ^ (i * 8) % 256) ++ encode_hex_loop n (i + 1) value

unfoldable pub encode_hex : ℕ → ℕ → List ℕ
unfolding encode_hex_loop encode_byte
encode_hex value bytes = encode_hex_loop bytes 0 value

unfoldable pub calculate_checksum_loop : ℕ → List ℕ → ℕ
calculate_checksum_loop sum [] = sum
calculate_checksum_loop sum (c ∷ data') = calculate_checksum_loop ((sum + c) % 256) data'

-- `calculate_checksum(data, len)`, on the list of the `len` bytes
unfoldable pub calculate_checksum : List ℕ → ℕ
unfolding calculate_checksum_loop
calculate_checksum data' = calculate_checksum_loop 0 data'

-- `printf("%0nx")` of a value below 16 ^ n: exactly `n` digits, the highest first
unfoldable pub format_hex_width : ℕ → ℕ → List ℕ
unfolding int_to_hex
format_hex_width zero value = []
format_hex_width (suc n) value = format_hex_width n (value / 16) ++ (int_to_hex (value % 16) ∷ [])

-- leading zeros off, but for the last digit
unfoldable pub strip_zeros : List ℕ → List ℕ
strip_zeros [] = []
strip_zeros (c ∷ []) = c ∷ []
strip_zeros (c ∷ d ∷ str) =
    let rest = strip_zeros (d ∷ str) in if c == b'0' then rest else c ∷ d ∷ str

-- `printf("%x")` of an `unsigned int`
unfoldable pub format_hex : ℕ → List ℕ
unfolding format_hex_width strip_zeros
format_hex value = strip_zeros (format_hex_width 8 value)
