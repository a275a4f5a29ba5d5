-- ===== src/Thread/RoundTrip.antt =====
-- Thread ids as the stub of src/gdb_stub.c prints them (`%x`), read back by `parse_thread_spec`.
use native.Mathlib.Nat.{pow-suc}
use gdb_stub.Prelude.{
  ℕ, suc, zero, ◌+◌, ◌*◌, ◌/◌, ◌%◌, ◌^◌, ◌≤◌, ◌<◌, ◌≡◌, ◌≢◌, ◌∙◌, refl, sym, ap, true, none, some,
  List, [], ◌∷◌, ◌++◌, append_assoc, append-nil, arith,
}
use gdb_stub.Prelude.Int.{ℤ, pos}
use gdb_stub.Prelude.Text.{
  codes, strchr, str_equal, xdigit, isxdigit, skip_spaces, skip_prefix, strtol_digits, long_pos,
  strtol_signed, strtol, long_to_int,
}
use gdb_stub.Hex.{int_to_hex, format_hex_width, strip_zeros, format_hex}
use gdb_stub.Thread.{parse_id, parse_ids, parse_thread_spec}

-- only hexadecimal digits
abbrev pub AllDigits : List ℕ → Type 0
AllDigits [] = Unit
AllDigits (c ∷ cs) = (isxdigit c ≡ true) × AllDigits cs

xdigit-int_to_hex : (d : ℕ) → d < 16 → xdigit (int_to_hex d) ≡ some d
unfolding xdigit int_to_hex
xdigit-int_to_hex d h = ground arith

isxdigit-int_to_hex : (d : ℕ) → d < 16 → isxdigit (int_to_hex d) ≡ true
unfolding isxdigit int_to_hex
isxdigit-int_to_hex d h = ground arith

AllDigits-append : (s t : List ℕ) → AllDigits s → AllDigits t → AllDigits (s ++ t)
AllDigits-append [] t h k = k
AllDigits-append (c ∷ s) t h k = (h.0, AllDigits-append s t h.1 k)

AllDigits-format_hex_width : (n v : ℕ) → AllDigits (format_hex_width n v)
unfolding format_hex_width
AllDigits-format_hex_width zero v = tt
AllDigits-format_hex_width (suc n) v =
    AllDigits-append (format_hex_width n (v / 16)) (int_to_hex (v % 16) ∷ [])
      (AllDigits-format_hex_width n (v / 16)) (isxdigit-int_to_hex (v % 16) (omega arith), tt)

AllDigits-strip_zeros : (s : List ℕ) → AllDigits s → AllDigits (strip_zeros s)
unfolding strip_zeros
AllDigits-strip_zeros [] h = tt
AllDigits-strip_zeros (c ∷ []) h = h
AllDigits-strip_zeros (c ∷ d ∷ s) h = ground (arith, AllDigits-strip_zeros (d ∷ s) h.1)

strtol_digits-digit :
    (c d value : ℕ) (rest : List ℕ)
    → xdigit c ≡ some d
    → strtol_digits (c ∷ rest) value ≡ strtol_digits rest (value * 16 + d)
unfolding strtol_digits
strtol_digits-digit c d value rest h = rw (h, strtol_digits)

strtol_digits-zero :
    (c : ℕ) (rest : List ℕ) → c ≡ b'0' → strtol_digits (c ∷ rest) 0 ≡ strtol_digits rest 0
strtol_digits-zero c rest h = strtol_digits-digit c 0 0 rest (rw h (unfold xdigit in refl))

strtol_digits-strip_zeros : (s : List ℕ) → strtol_digits (strip_zeros s) 0 ≡ strtol_digits s 0
unfolding strip_zeros
strtol_digits-strip_zeros [] = refl
strtol_digits-strip_zeros (c ∷ []) = refl
strtol_digits-strip_zeros (c ∷ d ∷ s) =
    ground (arith, strtol_digits-strip_zeros (d ∷ s), strtol_digits-zero c (d ∷ s))

strtol_digits-format :
    (n v : ℕ) (rest : List ℕ)
    → v < 16 ^ n
    → strtol_digits (format_hex_width n v ++ rest) 0 ≡ strtol_digits rest v
unfolding format_hex_width
strtol_digits-format zero v rest h = ap (strtol_digits rest) (omega arith)
strtol_digits-format (suc n) v rest h =
    ap (λ (t : List ℕ). strtol_digits t 0)
      (append_assoc (format_hex_width n (v / 16)) (int_to_hex (v % 16) ∷ []) rest)
    ∙ strtol_digits-format n (v / 16) (int_to_hex (v % 16) ∷ rest) (omega (arith, pow-suc 16 n))
    ∙ strtol_digits-digit (int_to_hex (v % 16)) (v % 16) (v / 16) rest
        (xdigit-int_to_hex (v % 16) (omega arith))
    ∙ ap (strtol_digits rest) (omega arith)

digit_range : (c : ℕ) → isxdigit c ≡ true → (b'0' ≤ c) × (c ≢ b'x') × (c ≢ b'X')
unfolding isxdigit
digit_range c h = (ground arith, ground arith, ground arith)

-- A text of digits only has no space, sign or prefix.
strtol-digits : (s : List ℕ) → AllDigits s → strtol s ≡ long_pos (strtol_digits s 0)
unfolding skip_prefix skip_spaces strtol_signed strtol
strtol-digits [] h = refl
strtol-digits (c ∷ []) h = ground (arith, digit_range c h.0)
strtol-digits (c ∷ d ∷ s) h = ground (arith, digit_range c h.0, digit_range d h.1.0)

strtol_digits_end : (n : ℕ) → strtol_digits [] n ≡ n
unfolding strtol_digits
strtol_digits_end n = refl

strtol-format_hex : (n : ℕ) → n < 2 ^ 32 → strtol (format_hex n) ≡ pos n
unfolding format_hex
strtol-format_hex n h =
    strtol-digits (strip_zeros (format_hex_width 8 n))
      (AllDigits-strip_zeros (format_hex_width 8 n) (AllDigits-format_hex_width 8 n))
    ∙ ap long_pos (
        strtol_digits-strip_zeros (format_hex_width 8 n)
        ∙ ap (λ (t : List ℕ). strtol_digits t 0) (sym (append-nil (format_hex_width 8 n)))
        ∙ strtol_digits-format 8 n [] h
        ∙ strtol_digits_end n)
    ∙ small n h
  where
    small : (m : ℕ) → m < 2 ^ 32 → long_pos m ≡ pos m
    small m k = unfold long_pos in ground arith

pub AllDigits-format_hex : (n : ℕ) → AllDigits (format_hex n)
unfolding format_hex
AllDigits-format_hex n =
    AllDigits-strip_zeros (format_hex_width 8 n) (AllDigits-format_hex_width 8 n)

long_to_int-pos : (n : ℕ) → n < 2 ^ 31 → long_to_int (pos n) ≡ pos n
unfolding long_to_int
long_to_int-pos n h = ground arith

pub parse_id-format_hex : (n : ℕ) → n < 2 ^ 31 → parse_id (format_hex n) ≡ pos n
unfolding parse_id
parse_id-format_hex n h = ap long_to_int (strtol-format_hex n (omega arith)) ∙ long_to_int-pos n h

strchr-digits : (s : List ℕ) → AllDigits s → strchr s b'.' ≡ none
unfolding strchr
strchr-digits [] h = refl
strchr-digits (c ∷ s) h = ground (arith, digit_range c h.0, strchr-digits s h.1)

not_process : (c : ℕ) → isxdigit c ≡ true → (c ≢ b'p') × (c ≢ b'P')
unfolding isxdigit
not_process c h = (ground arith, ground arith)

parse_thread_spec-digits :
    (s : List ℕ) → s ≢ [] → AllDigits s → parse_thread_spec s ≡ (pos 0, parse_id s)
unfolding parse_ids str_equal parse_thread_spec
parse_thread_spec-digits [] ne h = absurd (ne refl)
parse_thread_spec-digits (c ∷ s) ne h =
    ground (arith, digit_range c h.0, not_process c h.0, strchr-digits (c ∷ s) h)

parse_id-nil : parse_id [] ≡ pos 0
unfolding parse_id
parse_id-nil = refl

-- A thread id from 1 to 2 ^ 31 - 1 as the stub prints it, with the process of a multiprocess reply
-- or without, is parsed to that process (0 where it is left out) and that thread.
pub parse_thread_spec-format :
    (tid : ℕ)
    → 0 < tid
    → tid < 2 ^ 31
    → (parse_thread_spec (codes "p1." ++ format_hex tid) ≡ (pos 1, pos tid))
      × (parse_thread_spec (format_hex tid) ≡ (pos 0, pos tid))
parse_thread_spec-format tid h k = (
  process (format_hex tid) ∙ ap (λ (t : ℤ). (pos 1, t)) parsed,
  parse_thread_spec-digits (format_hex tid) some_digit (AllDigits-format_hex tid)
      ∙ ap (λ (t : ℤ). (pos 0, t)) parsed,
)
  where
    parsed : parse_id (format_hex tid) ≡ pos tid
    parsed = parse_id-format_hex tid k

    process : (s : List ℕ) → parse_thread_spec (codes "p1." ++ s) ≡ (pos 1, parse_id s)
    process s = unfold parse_thread_spec xdigit in refl

    some_digit : format_hex tid ≢ []
    some_digit e = ground (arith, parsed, parse_id-nil, ap parse_id e)
