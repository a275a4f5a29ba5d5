-- ===== src/Handlers/Memory.antt =====
-- The memory commands m and M of src/gdb_stub.c. `none` is undefined behaviour: an access outside
-- the packet buffer or the response buffer.
use gdb_stub.Prelude.{
  ℕ, zero, suc, ◌+◌, ◌-◌, ◌*◌, ◌/◌, ◌%◌, Option, none, some, List, [], ◌++◌, set, drop, get_elem?,
  length, ltb, if◌then◌else◌,
}
use gdb_stub.Prelude.Text.{codes, c_str, strchr}
use gdb_stub.Hex.{Xlen, word_mod, parse_hex, hex_pair, encode_byte}
use gdb_stub.Context.{gdb_buffer_size}
use gdb_stub.World.{World, Callbacks, reply, run_effect, run_read_mem, packet_buffer, with_buffer}

module _ {Sim : Type 0} where
  -- both separators of `M` and `X` replaced by NUL
  abbrev pub cut_at : ℕ → ℕ → World Sim → World Sim
  cut_at comma colon w = with_buffer w (set (set (packet_buffer w) (1 + comma) 0) (1 + colon) 0)

  -- `addr` and `len` of `M` and `X`, in the cut packet
  abbrev pub addr_of : Xlen → ℕ → World Sim → ℕ
  addr_of x comma w = parse_hex x (drop 1 (packet_buffer w)) comma

  abbrev pub len_of : Xlen → ℕ → ℕ → World Sim → ℕ
  len_of x comma colon w = parse_hex x (drop (1 + comma + 1) (packet_buffer w)) (colon - comma - 1)

module _ {Sim : Type 0} (x : Xlen) (cb : Callbacks Sim) where
  -- the loop of `handle_read_memory`: rounds left, `addr`, `i`, and the response so far
  unfoldable pub read_memory_loop : ℕ → ℕ → ℕ → List ℕ → World Sim → List ℕ × World Sim
  read_memory_loop zero addr i response w = (response, w)
  read_memory_loop (suc n) addr i response w =
      let (value, w') = run_read_mem cb ((addr + i) % word_mod x) 1 w in
      read_memory_loop n addr (i + 1) (response ++ encode_byte (value % 256)) w'

  -- `handle_read_memory` behind its parsing. At 2048 bytes the NUL falls behind the response buffer.
  unfoldable pub read_memory : ℕ → ℕ → World Sim → Option (World Sim)
  read_memory addr len w =
      if ltb (gdb_buffer_size / 2) len
      then some (reply w (codes "E02"))
      else if ltb (2 * len) gdb_buffer_size
      then (let (response, w') = read_memory_loop len addr 0 [] w in some (reply w' response))
      else none

  unfoldable pub handle_read_memory : World Sim → Option (World Sim)
  handle_read_memory w = elim (strchr (c_str (drop 1 (packet_buffer w))) b',') [
    | none ↦ some (reply w (codes "E01"))
    | some comma ↦
        let w' = with_buffer w (set (packet_buffer w) (1 + comma) 0) in
        let len_text = drop (1 + comma + 1) (packet_buffer w') in
        read_memory (parse_hex x (drop 1 (packet_buffer w')) comma)
          (parse_hex x len_text (length (c_str len_text))) w'
  ]

  -- The loop of `handle_write_memory`: rounds left, the place of `data`, `addr`, and `i`.
  unfoldable pub write_memory_loop : ℕ → ℕ → ℕ → ℕ → World Sim → Option (World Sim)
  write_memory_loop zero at addr i w = some w
  write_memory_loop (suc n) at addr i w = elim (get_elem? (packet_buffer w) (at + i * 2)) [
    | none ↦ none
    | some hi ↦ elim (get_elem? (packet_buffer w) (at + i * 2 + 1)) [
      | none ↦ none
      | some lo ↦
          write_memory_loop n at addr (i + 1)
            (run_effect (cb.write_mem ((addr + i) % word_mod x) (hex_pair hi lo) 1) w)
    ]
  ]

  unfoldable pub write_memory : ℕ → ℕ → World Sim → Option (World Sim)
  write_memory comma colon w =
      elim (write_memory_loop (len_of x comma colon w) (1 + colon + 1) (addr_of x comma w) 0 w) [
        | none ↦ none
        | some w' ↦ some (reply w' (codes "OK"))
      ]

  unfoldable pub handle_write_memory : World Sim → Option (World Sim)
  handle_write_memory w =
      let packet = c_str (drop 1 (packet_buffer w)) in
      elim (strchr packet b',') [
        | none ↦ some (reply w (codes "E01"))
        | some comma ↦ elim (strchr packet b':') [
          | none ↦ some (reply w (codes "E01"))
          | some colon ↦ write_memory comma colon (cut_at comma colon w)
        ]
      ]
