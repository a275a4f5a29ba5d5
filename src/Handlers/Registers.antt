-- ===== src/Handlers/Registers.antt =====
-- The register commands g, G, p and P of src/gdb_stub.c. `none` is undefined behaviour: a shift by
-- the width of a word or more.
use gdb_stub.Prelude.{
  ℕ, zero, suc, ◌+◌, ◌*◌, Option, none, some, List, [], ◌++◌, set, drop, length, ltb, ◌==◌,
  if◌then◌else◌,
}
use gdb_stub.Prelude.Int.{ℤ, pos, negsuc}
use gdb_stub.Prelude.Text.{codes, c_str, strchr, to_int}
use gdb_stub.Hex.{Xlen, reg_hex_bytes, reg_hex_chars, parse_hex, parse_hex_le, encode_hex}
use gdb_stub.World.{World, Callbacks, reply, run_effect, packet_buffer, with_buffer}

module _ {Sim : Type 0} (x : Xlen) (cb : Callbacks Sim) where
  -- the loop of `handle_read_registers`: rounds left, and `i`
  unfoldable pub read_registers_loop : ℕ → ℕ → Sim → List ℕ
  read_registers_loop zero i sim = []
  read_registers_loop (suc n) i sim =
      encode_hex (cb.read_reg sim i) (reg_hex_bytes x) ++ read_registers_loop n (i + 1) sim

  unfoldable pub handle_read_registers : World Sim → World Sim
  handle_read_registers w =
      reply w (read_registers_loop 32 0 w.sim ++ encode_hex (cb.get_pc w.sim) (reg_hex_bytes x))

  -- The loop of `handle_write_registers`: rounds left, and `i`. It reads the packet where it is.
  unfoldable pub write_registers_loop : ℕ → ℕ → World Sim → Option (World Sim)
  write_registers_loop zero i w = some w
  write_registers_loop (suc n) i w =
      elim (parse_hex_le x (drop (1 + i * reg_hex_chars x) (packet_buffer w)) (reg_hex_chars x)) [
        | none ↦ none
        | some value ↦ write_registers_loop n (i + 1) (run_effect (cb.write_reg i value) w)
      ]

  -- the PC, behind the registers
  unfoldable pub write_registers_pc : World Sim → Option (World Sim)
  write_registers_pc w =
      elim (parse_hex_le x (drop (1 + 32 * reg_hex_chars x) (packet_buffer w)) (reg_hex_chars x)) [
        | none ↦ none
        | some pc ↦ some (reply (run_effect (cb.set_pc pc) w) (codes "OK"))
      ]

  unfoldable pub handle_write_registers : World Sim → Option (World Sim)
  handle_write_registers w = elim (write_registers_loop 32 0 w) [
    | none ↦ none
    | some w' ↦ write_registers_pc w'
  ]

  -- A register number: below 32, 32 for the PC, or none of these.
  unfoldable pub read_register : ℤ → Sim → Option ℕ
  read_register (negsuc n) sim = none
  read_register (pos n) sim =
      if ltb n 32 then some (cb.read_reg sim n) else if n == 32 then some (cb.get_pc sim) else none

  unfoldable pub handle_read_single_register : World Sim → World Sim
  handle_read_single_register w =
      let packet = c_str (drop 1 (packet_buffer w)) in
      elim (read_register (to_int (parse_hex x packet (length packet))) w.sim) [
        | none ↦ reply w (codes "E01")
        | some value ↦ reply w (encode_hex value (reg_hex_bytes x))
      ]

  unfoldable pub write_register : ℤ → ℕ → World Sim → World Sim
  write_register (negsuc n) value w = reply w (codes "E01")
  write_register (pos n) value w =
      if ltb n 32
      then reply (run_effect (cb.write_reg n value) w) (codes "OK")
      else if n == 32
      then reply (run_effect (cb.set_pc value) w) (codes "OK")
      else reply w (codes "E01")

  unfoldable pub handle_write_single_register : World Sim → Option (World Sim)
  handle_write_single_register w = elim (strchr (c_str (drop 1 (packet_buffer w))) b'=') [
    | none ↦ some (reply w (codes "E01"))
    | some equals ↦
        let w' = with_buffer w (set (packet_buffer w) (1 + equals) 0) in
        let reg_num = to_int (parse_hex x (drop 1 (packet_buffer w')) equals) in
        let value_text = drop (1 + equals + 1) (packet_buffer w') in
        elim (parse_hex_le x value_text (length (c_str value_text))) [
          | none ↦ none
          | some value ↦ some (write_register reg_num value w')
        ]
  ]
