-- ===== src/Process.antt =====
-- `gdb_stub_process` of src/gdb_stub.c. Each command gives the function's `int` and the world; `none`
-- is undefined behaviour in a handler, or a search of memory that has not ended within its fuel.
pub mod Frame
pub mod Running
use gdb_stub.Prelude.{
  ℕ, Bool, true, false, Option, none, some, List, [], get_or, leb, ◌==◌, if◌then◌else◌,
}
use gdb_stub.Prelude.Int.{ℤ, pos, eqb_ℤ, minus_one}
use gdb_stub.Prelude.Text.{codes, c_str, starts_with}
use gdb_stub.Hex.{Xlen}
use gdb_stub.Context.{Context, Stub}
use gdb_stub.Packet.{receive_packet}
use gdb_stub.Thread.{is_negative, gdb_stub_set_stop_thread}
use gdb_stub.Stop.{gdb_stub_send_stop_reason}
use gdb_stub.World.{World, Callbacks, reply, with_ctx, run_optional, packet_buffer}
use gdb_stub.Handlers.Query.{handle_query, handle_general_set}
use gdb_stub.Handlers.Registers.{
  handle_read_registers, handle_write_registers, handle_read_single_register,
  handle_write_single_register,
}
use gdb_stub.Handlers.Memory.{handle_read_memory, handle_write_memory}
use gdb_stub.Handlers.Binary.{handle_write_memory_binary}
use gdb_stub.Handlers.Table.{handle_breakpoint}
use gdb_stub.Handlers.Threads.{
  handle_set_thread, handle_thread_alive, handle_halt_reason, handle_reset,
}
use gdb_stub.Handlers.VCont.{handle_vcont}
use gdb_stub.Handlers.Search.{handle_search_memory}

-- the limit on failures in a row
abbrev pub max_failures : ℕ
max_failures = 50

module _ {Sim : Type 0} where
  -- `return 0` behind a handler
  abbrev pub handled : World Sim → Option (ℤ × World Sim)
  handled w = some (pos 0, w)

  abbrev pub handled_if : Option (World Sim) → Option (ℤ × World Sim)
  handled_if none = none
  handled_if (some w) = some (pos 0, w)

module _ {Sim : Type 0} (x : Xlen) (cb : Callbacks Sim) where
  -- case 0x03
  unfoldable pub interrupt : World Sim → World Sim
  interrupt w =
      let w1 = run_optional cb.halt_cpus (with_ctx w (record w.ctx { should_stop = true })) in
      let w2 =
        if eqb_ℤ w1.ctx.stop_thread (pos 0)
        then with_ctx w1 (gdb_stub_set_stop_thread w1.ctx (pos 0))
        else w1 in
      (gdb_stub_send_stop_reason x w2 2 0).1

  -- case 'c'
  unfoldable pub continue_all : World Sim → World Sim
  continue_all w = run_optional cb.resume (
      with_ctx w (record w.ctx {
        should_stop = false;
        single_step = false;
        stop_thread = pos 0;
        continue_thread = minus_one;
      }))

  -- case 's'
  unfoldable pub step_thread : World Sim → World Sim
  step_thread w = run_optional cb.resume (
      with_ctx w (record w.ctx {
        should_stop = false;
        single_step = true;
        stop_thread = pos 0;
        continue_thread =
            if is_negative w.ctx.continue_thread
            then w.ctx.current_thread
            else w.ctx.continue_thread;
      }))

  -- case 'v'
  unfoldable pub extended : World Sim → ℤ × World Sim
  extended w =
      let (w', run_cpu) = handle_vcont cb w in
      if starts_with (c_str (packet_buffer w)) (codes "vCont")
      then (if run_cpu then (pos 1, w') else (pos 0, w'))
      else (pos 0, reply w [])

  -- case 'D'
  unfoldable pub detach : World Sim → World Sim
  detach w =
      let w' = reply w (codes "OK") in
      with_ctx w' (record w'.ctx { stub = record w'.ctx.stub { connected = false } })

  -- the `switch` on the first byte of the packet
  unfoldable pub dispatch : ℕ → ℕ → World Sim → Option (ℤ × World Sim)
  dispatch fuel cmd w =
      if cmd == 0x03
      then handled (interrupt w)
      else if cmd == b'?'
      then handled (handle_halt_reason cb x w)
      else if cmd == b'q'
      then handled_if (handle_query x cb (handle_search_memory x cb fuel) w)
      else if cmd == b'Q'
      then handled (handle_general_set w)
      else if cmd == b'g'
      then handled (handle_read_registers x cb w)
      else if cmd == b'G'
      then handled_if (handle_write_registers x cb w)
      else if cmd == b'm'
      then handled_if (handle_read_memory x cb w)
      else if cmd == b'M'
      then handled_if (handle_write_memory x cb w)
      else if cmd == b'p'
      then handled (handle_read_single_register x cb w)
      else if cmd == b'P'
      then handled_if (handle_write_single_register x cb w)
      else if cmd == b'X'
      then handled (handle_write_memory_binary x cb w)
      else if cmd == b'R'
      then handled (handle_reset cb w)
      else if cmd == b'H'
      then handled (handle_set_thread cb w)
      else if cmd == b'T'
      then handled (handle_thread_alive cb w)
      else if cmd == b'v'
      then some (extended w)
      else if cmd == b'c'
      then some (pos 1, continue_all w)
      else if cmd == b's'
      then some (pos 1, step_thread w)
      else if cmd == b'Z'
      then handled (handle_breakpoint x true w)
      else if cmd == b'z'
      then handled (handle_breakpoint x false w)
      else if cmd == b'k'
      then some (minus_one, w)
      else if cmd == b'D'
      then some (minus_one, detach w)
      else handled (reply w [])

  unfoldable pub gdb_stub_process : ℕ → World Sim → Option (ℤ × World Sim)
  gdb_stub_process fuel w =
      let (result, stub, wire) = receive_packet w.ctx.stub w.wire in
      let w' = record w { ctx = record w.ctx { stub = stub }; wire = wire } in
      let next = dispatch fuel (get_or stub.packet_buffer 0 0) w' in
      if w.ctx.stub.connected
      then if leb max_failures w.ctx.stub.consecutive_failures
        then some (minus_one, w)
        else if is_negative result
        then some (minus_one, w')
        else next
      else some (minus_one, w)
