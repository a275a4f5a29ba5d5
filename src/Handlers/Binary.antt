-- ===== src/Handlers/Binary.antt =====
-- The binary write X of src/gdb_stub.c and its decoder.
pub mod Laws
use gdb_stub.Prelude.{
  ℕ, zero, suc, ◌+◌, ◌-◌, ◌%◌, ◌^◌, bit_xor, Bool, true, false, ◌||◌, Option, none, some, List, [],
  ◌∷◌, ◌++◌, drop, length, get_or, replicate, ltb, leb, ◌==◌, if◌then◌else◌,
}
use Prim.Native.Nat.{min}
use gdb_stub.Prelude.Text.{codes, c_str, strchr}
use gdb_stub.Hex.{Xlen, word_mod}
use gdb_stub.Context.{gdb_buffer_size}
use gdb_stub.Handlers.Memory.{cut_at, addr_of, len_of}
use gdb_stub.World.{World, Callbacks, reply, run_effect, packet_buffer}

-- `dst[di - 1]`
abbrev pub last_byte : List ℕ → ℕ
last_byte dst = get_or dst (length dst - 1) 0

-- `return (di == dst_len) ? 0 : -1`: the bytes, or a failure
abbrev pub decoded : ℕ → List ℕ → Option (List ℕ)
decoded dst_len dst = if length dst == dst_len then some dst else none

-- The loop of `decode_rsp_binary` on the text from `p` on, with the bytes `dst[0..di)`.
unfoldable pub decode_loop : ℕ → List ℕ → List ℕ → Option (List ℕ)
decode_loop dst_len [] dst = decoded dst_len dst
decode_loop dst_len (c ∷ []) dst =
    let plain = decoded dst_len (dst ++ (c ∷ [])) in
    if leb dst_len (length dst)
    then decoded dst_len dst
    else if c == b'*' || c == b'}'
    then none
    else plain
decode_loop dst_len (c ∷ d ∷ str) dst =
    let run = replicate (min d (dst_len - length dst)) (last_byte dst) in
    let repeated = decode_loop dst_len str (dst ++ run) in
    let escaped = decode_loop dst_len str (dst ++ (bit_xor d 0x20 ∷ [])) in
    let plain = decode_loop dst_len (d ∷ str) (dst ++ (c ∷ [])) in
    if leb dst_len (length dst)
    then decoded dst_len dst
    else if c == b'*'
    then (if length dst == 0 then none else repeated)
    else if c == b'}'
    then escaped
    else plain

-- `decode_rsp_binary`, on a C string: the bytes where it returns 0
unfoldable pub decode_rsp_binary : List ℕ → ℕ → Option (List ℕ)
decode_rsp_binary src dst_len = decode_loop dst_len (c_str src) []

module _ {Sim : Type 0} (x : Xlen) (cb : Callbacks Sim) where
  unfoldable pub write_binary_loop : List ℕ → ℕ → ℕ → World Sim → World Sim
  write_binary_loop [] addr i w = w
  write_binary_loop (b ∷ bytes) addr i w =
      write_binary_loop bytes addr (i + 1)
        (run_effect (cb.write_mem ((addr + i) % word_mod x) b 1) w)

  unfoldable pub write_binary : ℕ → ℕ → World Sim → World Sim
  write_binary comma colon w =
      let len = len_of x comma colon w % 2 ^ 32 in
      if len == 0 || ltb gdb_buffer_size len
      then reply w (codes "E02")
      else elim (decode_rsp_binary (drop (1 + colon + 1) (packet_buffer w)) len) [
        | none ↦ reply w (codes "E03")
        | some bytes ↦ reply (write_binary_loop bytes (addr_of x comma w) 0 w) (codes "OK")
      ]

  unfoldable pub handle_write_memory_binary : World Sim → World Sim
  handle_write_memory_binary w =
      let packet = c_str (drop 1 (packet_buffer w)) in
      elim (strchr packet b',') [
        | none ↦ reply w (codes "E01")
        | some comma ↦ elim (strchr packet b':') [
          | none ↦ reply w (codes "E01")
          | some colon ↦ write_binary comma colon (cut_at comma colon w)
        ]
      ]
