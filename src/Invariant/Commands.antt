-- ===== src/Invariant/Commands.antt =====
-- The query, register and memory commands of src/gdb_stub.c and the invariant.
use gdb_stub.Prelude.{
  ltb, ◌==◌, ℕ, zero, suc, ◌+◌, ◌∙◌, Option, none, some, List, [], ◌∷◌, set, length-set,
  if◌then◌else◌, arith,
}
use gdb_stub.Prelude.Int.{ℤ, pos, negsuc}
use gdb_stub.Prelude.Text.{codes}
use gdb_stub.Hex.{Xlen}
use gdb_stub.World.{
  World, Callbacks, Effect, reply, with_buffer, run_effect, run_optional, run_read_mem,
  packet_buffer,
}
use gdb_stub.Handlers.Registers.{
  write_registers_loop, write_registers_pc, handle_write_registers, handle_read_registers,
  handle_read_single_register, write_register, handle_write_single_register,
}
use gdb_stub.Handlers.Query.{handle_query, handle_general_set}
use gdb_stub.Handlers.Binary.{write_binary_loop, write_binary, handle_write_memory_binary}
use gdb_stub.Handlers.Memory.{
  cut_at, read_memory_loop, read_memory, handle_read_memory, write_memory_loop, write_memory,
  handle_write_memory,
}
use gdb_stub.Invariant.{WellFormed, Keeps, in_both}

module _ {Sim : Type 0} where
  pub reply-WellFormed : (w : World Sim) (text : List ℕ) → WellFormed w → WellFormed (reply w text)
  unfolding reply
  reply-WellFormed w text g = g

  pub reply-Keeps : (w : World Sim) (text : List ℕ) → WellFormed w → Keeps (some (reply w text))
  reply-Keeps w text g = record { kept = reply-WellFormed w text g }

  pub some-Keeps : (w : World Sim) → WellFormed w → Keeps (some w)
  some-Keeps w g = record { kept = g }

  pub Keeps-some : (w : World Sim) → Keeps (some w) → WellFormed w
  Keeps-some w k = k.kept

  pub run_effect-WellFormed :
      (e : Effect Sim) (w : World Sim) → WellFormed w → WellFormed (run_effect e w)
  unfolding run_effect
  run_effect-WellFormed e w g = g

  pub run_optional-WellFormed :
      (o : Option (Effect Sim)) (w : World Sim) → WellFormed w → WellFormed (run_optional o w)
  unfolding run_optional
  run_optional-WellFormed none w g = g
  run_optional-WellFormed (some e) w g = run_effect-WellFormed e w g

  -- a NUL written into the packet
  pub cut-WellFormed :
      (i : ℕ) (w : World Sim)
      → WellFormed w
      → WellFormed (with_buffer w (set (packet_buffer w) i 0))
  cut-WellFormed i w g = (g.0, length-set (packet_buffer w) i 0 ∙ g.1)

  pub handle_general_set-WellFormed :
      (w : World Sim) → WellFormed w → WellFormed (handle_general_set w)
  unfolding handle_general_set reply
  handle_general_set-WellFormed w g = in_both WellFormed _ g g

module _ {Sim : Type 0} (x : Xlen) (cb : Callbacks Sim) where
  pub handle_query-Keeps :
      (find : World Sim → Option (World Sim)) (w : World Sim)
      → ((v : World Sim) → WellFormed v → Keeps (find v))
      → WellFormed w
      → Keeps (handle_query x cb find w)
  unfolding handle_query
  handle_query-Keeps find w s g = grind (arith, s, reply-Keeps)

  pub write_registers_loop-Keeps :
      (n i : ℕ) (w : World Sim) → WellFormed w → Keeps (write_registers_loop x cb n i w)
  unfolding write_registers_loop
  write_registers_loop-Keeps zero i w g = record { kept = g }
  write_registers_loop-Keeps (suc n) i w g =
      grind (arith, write_registers_loop-Keeps n (i + 1), run_effect-WellFormed)

  write_registers_pc-Keeps : (w : World Sim) → WellFormed w → Keeps (write_registers_pc x cb w)
  unfolding write_registers_pc
  write_registers_pc-Keeps w g = grind (arith, reply-Keeps, run_effect-WellFormed)

  pub handle_write_registers-Keeps :
      (w : World Sim) → WellFormed w → Keeps (handle_write_registers x cb w)
  unfolding handle_write_registers
  handle_write_registers-Keeps w g =
      grind (arith, write_registers_loop-Keeps 32 0 w g, write_registers_pc-Keeps, Keeps-some)

  pub handle_read_registers-WellFormed :
      (w : World Sim) → WellFormed w → WellFormed (handle_read_registers x cb w)
  unfolding handle_read_registers reply
  handle_read_registers-WellFormed w g = g

  pub handle_read_single_register-WellFormed :
      (w : World Sim) → WellFormed w → WellFormed (handle_read_single_register x cb w)
  unfolding handle_read_single_register
  handle_read_single_register-WellFormed w g = grind (arith, reply-WellFormed)

  write_register-WellFormed :
      (r : ℤ) (value : ℕ) (w : World Sim)
      → WellFormed w
      → WellFormed (write_register x cb r value w)
  unfolding write_register
  write_register-WellFormed (negsuc n) value w g = reply-WellFormed w _ g
  write_register-WellFormed (pos n) value w g =
      (in_both WellFormed (ltb n 32) {x = reply (run_effect (cb.write_reg n value) w) (codes "OK")}
        {y = if n == 32
          then reply (run_effect (cb.set_pc value) w) (codes "OK")
          else reply w (codes "E01")}
        (reply-WellFormed (run_effect (cb.write_reg n value) w) (codes "OK")
          (run_effect-WellFormed (cb.write_reg n value) w g))
        (in_both WellFormed (n == 32) {x = reply (run_effect (cb.set_pc value) w) (codes "OK")}
          {y = reply w (codes "E01")}
          (reply-WellFormed (run_effect (cb.set_pc value) w) (codes "OK")
            (run_effect-WellFormed (cb.set_pc value) w g))
          (reply-WellFormed w (codes "E01") g)))

  pub handle_write_single_register-Keeps :
      (w : World Sim) → WellFormed w → Keeps (handle_write_single_register x cb w)
  unfolding handle_write_single_register
  handle_write_single_register-Keeps w g =
      grind (arith, reply-Keeps, some-Keeps, write_register-WellFormed, cut-WellFormed)

  read_memory_loop-WellFormed :
      (n addr i : ℕ) (response : List ℕ) (w : World Sim)
      → WellFormed w
      → WellFormed (read_memory_loop x cb n addr i response w).1
  unfolding read_memory_loop run_read_mem
  read_memory_loop-WellFormed zero addr i response w g = g
  read_memory_loop-WellFormed (suc n) addr i response w g =
      read_memory_loop-WellFormed n addr (i + 1) _ _ g

  read_memory-Keeps :
      (addr len : ℕ) (w : World Sim) → WellFormed w → Keeps (read_memory x cb addr len w)
  unfolding read_memory
  read_memory-Keeps addr len w g =
      grind (arith, reply-Keeps, read_memory_loop-WellFormed len addr 0 [] w g)

  pub handle_read_memory-Keeps : (w : World Sim) → WellFormed w → Keeps (handle_read_memory x cb w)
  unfolding handle_read_memory
  handle_read_memory-Keeps w g = grind (arith, reply-Keeps, read_memory-Keeps, cut-WellFormed)

  write_memory_loop-Keeps :
      (n at addr i : ℕ) (w : World Sim)
      → WellFormed w
      → Keeps (write_memory_loop x cb n at addr i w)
  unfolding write_memory_loop
  write_memory_loop-Keeps zero at addr i w g = record { kept = g }
  write_memory_loop-Keeps (suc n) at addr i w g =
      grind (arith, write_memory_loop-Keeps n at addr (i + 1), run_effect-WellFormed)

  write_memory-Keeps :
      (comma colon : ℕ) (w : World Sim) → WellFormed w → Keeps (write_memory x cb comma colon w)
  unfolding write_memory
  write_memory-Keeps comma colon w g =
      grind (arith, reply-Keeps, Keeps-some, write_memory_loop-Keeps)

  cut_at-WellFormed :
      (comma colon : ℕ) (w : World Sim) → WellFormed w → WellFormed (cut_at comma colon w)
  cut_at-WellFormed comma colon w g =
      cut-WellFormed (1 + colon) (with_buffer w (set (packet_buffer w) (1 + comma) 0))
        (cut-WellFormed (1 + comma) w g)

  pub handle_write_memory-Keeps :
      (w : World Sim) → WellFormed w → Keeps (handle_write_memory x cb w)
  unfolding handle_write_memory
  handle_write_memory-Keeps w g = grind (arith, reply-Keeps, write_memory-Keeps, cut_at-WellFormed)

  write_binary_loop-WellFormed :
      (bytes : List ℕ) (addr i : ℕ) (w : World Sim)
      → WellFormed w
      → WellFormed (write_binary_loop x cb bytes addr i w)
  unfolding write_binary_loop
  write_binary_loop-WellFormed [] addr i w g = g
  write_binary_loop-WellFormed (b ∷ bytes) addr i w g =
      write_binary_loop-WellFormed bytes addr (i + 1) _ (run_effect-WellFormed _ w g)

  write_binary-WellFormed :
      (comma colon : ℕ) (w : World Sim)
      → WellFormed w
      → WellFormed (write_binary x cb comma colon w)
  unfolding write_binary
  write_binary-WellFormed comma colon w g =
      grind (arith, reply-WellFormed, write_binary_loop-WellFormed)

  pub handle_write_memory_binary-WellFormed :
      (w : World Sim) → WellFormed w → WellFormed (handle_write_memory_binary x cb w)
  unfolding handle_write_memory_binary
  handle_write_memory_binary-WellFormed w g =
      grind (arith, reply-WellFormed, write_binary-WellFormed, cut_at-WellFormed)
