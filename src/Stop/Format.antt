-- ===== src/Stop/Format.antt =====
-- The format of the stop replies of src/gdb_stub.c and their lengths.
use gdb_stub.Prelude.{
  ℕ, suc, zero, ◌%◌, ◌≤◌, ◌≡◌, refl, ap, Bool, List, [], ◌∷◌, ◌++◌, length, take, length-append,
  if◌then◌else◌, arith,
}
use gdb_stub.Prelude.Int.{ℤ}
use gdb_stub.Prelude.Text.{codes, to_unsigned}
use gdb_stub.Hex.{Xlen, rv32, rv64, reg_hex_chars, format_hex_width, format_hex}
use gdb_stub.Hex.Bounds.{length-format_hex_width, length-format_hex}
use gdb_stub.Context.{Context}
use gdb_stub.Stop.{format_int, format_addr, stop_detail, stop_text, format_stop_reply}

pub take-all : (n : ℕ) (xs : List ℕ) → length xs ≤ n → take n xs ≡ xs
take-all zero [] h = refl
take-all zero (x ∷ xs) h = absurd (omega arith)
take-all (suc n) [] h = refl
take-all (suc n) (x ∷ xs) h = ap (λ (t : List ℕ). x ∷ t) (take-all n xs (omega arith))

reg_hex_chars_le : (x : Xlen) → reg_hex_chars x ≤ 16
reg_hex_chars_le rv32 = omega arith
reg_hex_chars_le rv64 = omega arith

length-stop_detail :
    (x : Xlen) (swbreak : Bool) (watch_addr pc_addr : ℕ)
    → length (stop_detail x swbreak watch_addr pc_addr) ≤ 23
unfolding stop_detail format_addr
length-stop_detail x swbreak watch_addr pc_addr = ground (
  arith,
  reg_hex_chars_le x,
  length-format_hex_width (reg_hex_chars x) watch_addr,
  length-format_hex_width (reg_hex_chars x) pc_addr,
  length-append {0} (format_hex_width (reg_hex_chars x) watch_addr) (codes ";"),
  length-append {0} (format_hex_width (reg_hex_chars x) pc_addr) (codes ";"),
)

-- A stop reply has at most 45 characters.
pub length-stop_text :
    (x : Xlen) (multiprocess : Bool) (signal : ℕ) (tid : ℤ) (swbreak : Bool)
    (watch_addr pc_addr : ℕ)
    → length (stop_text x multiprocess signal tid swbreak watch_addr pc_addr) ≤ 45
unfolding stop_text format_int
length-stop_text x multiprocess signal tid swbreak watch_addr pc_addr =
    let detail = stop_detail x swbreak watch_addr pc_addr in
    let id = format_hex (to_unsigned tid) in
    ground (
      arith,
      length-stop_detail x swbreak watch_addr pc_addr,
      length-format_hex (to_unsigned tid),
      length-format_hex_width 2 (signal % 256),
      length-append {0} id (b';' ∷ detail),
      length-append {0} (format_hex_width 2 (signal % 256))
          ((if multiprocess then codes "thread:p1." else codes "thread:") ++ (id ++ b';' ∷ detail)),
    )

-- A stop reply fits the buffer of 128 bytes that both callers give it, with its NUL: the reply is
-- the whole text, of at most 45 characters, whatever the thread, the signal and the addresses.
pub format_stop_reply-fits :
    (x : Xlen) (ctx : Context) (signal : ℕ) (tid : ℤ) (swbreak : Bool) (watch_addr pc_addr : ℕ)
    → (format_stop_reply x ctx 128 signal tid swbreak watch_addr pc_addr
        ≡ stop_text x ctx.multiprocess_active signal tid swbreak watch_addr pc_addr)
      × (length (format_stop_reply x ctx 128 signal tid swbreak watch_addr pc_addr) ≤ 45)
unfolding format_stop_reply
format_stop_reply-fits x ctx signal tid swbreak watch_addr pc_addr =
    let text = stop_text x ctx.multiprocess_active signal tid swbreak watch_addr pc_addr in
    let short = length-stop_text x ctx.multiprocess_active signal tid swbreak watch_addr pc_addr in
    let whole = take-all 127 text (omega (arith, short)) in (whole, rw whole short)
