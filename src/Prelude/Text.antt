-- ===== src/Prelude/Text.antt =====
-- C strings as lists of bytes, and the functions of <string.h>, <ctype.h> and <stdlib.h> that
-- the program calls.
use Prim.Native.Char.{code}
use Prim.Native.String.{String}
use gdb_stub.Prelude.{
  ℕ, suc, zero, ◌+◌, ◌-◌, ◌*◌, ◌%◌, ◌^◌, Bool, true, false, ◌&&◌, ◌||◌, Option, none, some, List,
  [], ◌∷◌, take, ltb, leb, ◌==◌, if◌then◌else◌,
}
use gdb_stub.Prelude.Int.{ℤ, pos, negsuc}

-- the bytes of an ASCII text
abbrev pub codes : String → List ℕ
codes String.[] = []
codes (String.◌∷◌ c s) = code c ∷ codes s

-- the bytes up to the NUL
unfoldable pub c_str : List ℕ → List ℕ
c_str [] = []
c_str (c ∷ str) = if c == 0 then [] else c ∷ c_str str

-- the place of the first `c`
unfoldable pub strchr : List ℕ → ℕ → Option ℕ
strchr [] c = none
strchr (d ∷ str) c = elim (d == c) [
  | true ↦ some 0
  | false ↦ elim (strchr str c) [ none ↦ none | some i ↦ some (suc i) ]
]

-- `strcmp(s, t) == 0`
unfoldable pub str_equal : List ℕ → List ℕ → Bool
str_equal [] [] = true
str_equal (c ∷ s) (d ∷ t) = c == d && str_equal s t
str_equal _ _ = false

-- `strncmp(s, t, strlen(t)) == 0`
unfoldable pub starts_with : List ℕ → List ℕ → Bool
starts_with s [] = true
starts_with [] (d ∷ t) = false
starts_with (c ∷ s) (d ∷ t) = c == d && starts_with s t

-- `strstr(s, t) != NULL`
unfoldable pub contains : List ℕ → List ℕ → Bool
unfolding starts_with
contains [] t = starts_with [] t
contains (c ∷ s) t = starts_with (c ∷ s) t || contains s t

-- what `snprintf` leaves of a text in a buffer of `size` bytes
abbrev pub snprintf : ℕ → List ℕ → List ℕ
snprintf size text = take (size - 1) text

-- the value of a hexadecimal digit
unfoldable pub xdigit : ℕ → Option ℕ
xdigit c =
    if leb b'0' c && leb c b'9'
    then some (c - b'0')
    else if leb b'a' c && leb c b'f'
    then some (c - b'a' + 10)
    else if leb b'A' c && leb c b'F'
    then some (c - b'A' + 10)
    else none

unfoldable pub isxdigit : ℕ → Bool
unfolding xdigit
isxdigit c = elim (xdigit c) [ none ↦ false | some d ↦ true ]

isspace : ℕ → Bool
isspace c = c == b' ' || leb 9 c && leb c 13

unfoldable pub skip_spaces : List ℕ → List ℕ
unfolding isspace
skip_spaces [] = []
skip_spaces (c ∷ str) = if isspace c then skip_spaces str else c ∷ str

-- `0x` or `0X` off; a text with no digit behind it has the value 0 in either reading
unfoldable pub skip_prefix : List ℕ → List ℕ
skip_prefix (c ∷ d ∷ str) = if c == b'0' && (d == b'x' || d == b'X') then str else c ∷ d ∷ str
skip_prefix str = str

-- the value of the digits in front
unfoldable pub strtol_digits : List ℕ → ℕ → ℕ
strtol_digits [] value = value
strtol_digits (c ∷ str) value = elim (xdigit c) [
  | none ↦ value
  | some d ↦ strtol_digits str (value * 16 + d)
]

-- `LONG_MAX` and `LONG_MIN` bound the result.
unfoldable pub long_pos : ℕ → ℤ
long_pos n = if ltb n (2 ^ 63) then pos n else pos (2 ^ 63 - 1)

unfoldable pub long_neg : ℕ → ℤ
long_neg zero = pos 0
long_neg (suc n) = if ltb n (2 ^ 63) then negsuc n else negsuc (2 ^ 63 - 1)

unfoldable pub strtol_signed : List ℕ → ℤ
unfolding skip_prefix strtol_digits long_pos long_neg
strtol_signed [] = pos 0
strtol_signed (c ∷ str) =
    if c == b'-'
    then long_neg (strtol_digits (skip_prefix str) 0)
    else if c == b'+'
    then long_pos (strtol_digits (skip_prefix str) 0)
    else long_pos (strtol_digits (skip_prefix (c ∷ str)) 0)

-- `strtol(str, NULL, 16)` with a 64-bit `long`
unfoldable pub strtol : List ℕ → ℤ
unfolding skip_spaces strtol_signed
strtol str = strtol_signed (skip_spaces str)

-- the `int` of a 32-bit pattern
abbrev pub signed32 : ℕ → ℤ
signed32 w = if ltb w (2 ^ 31) then pos w else negsuc (2 ^ 32 - w - 1)

-- the conversion of an `unsigned int` or wider to `int`
unfoldable pub to_int : ℕ → ℤ
to_int n = signed32 (n % 2 ^ 32)

-- the conversion of an `int` or a `long` to `unsigned int`
unfoldable pub to_unsigned : ℤ → ℕ
to_unsigned (pos n) = n % 2 ^ 32
to_unsigned (negsuc n) = 2 ^ 32 - 1 - n % 2 ^ 32

-- the conversion of a `long` to `int`
unfoldable pub long_to_int : ℤ → ℤ
unfolding to_int to_unsigned
long_to_int z = to_int (to_unsigned z)
