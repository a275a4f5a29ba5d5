-- ===== src/Invariant/Process.antt =====
-- `gdb_stub_process` of src/gdb_stub.c and the invariant of the context.
use gdb_stub.Prelude.{
  leb, ◌==◌, ℕ, ◌∙◌, Bool, true, false, Option, none, some, [], get_or, if◌then◌else◌, arith,
}
use gdb_stub.Prelude.Int.{ℤ, pos, eqb_ℤ, minus_one}
use gdb_stub.Prelude.Text.{codes, c_str, starts_with}
use gdb_stub.Hex.{Xlen}
use gdb_stub.Packet.{receive_packet}
use gdb_stub.Packet.Size.{length-receive_packet}
use gdb_stub.Thread.{is_negative, gdb_stub_set_stop_thread}
use gdb_stub.Stop.{gdb_stub_send_stop_reason, stop_reason}
use gdb_stub.World.{World, Callbacks, reply, with_ctx, run_optional, packet_buffer}
use gdb_stub.Handlers.Query.{handle_general_set}
use gdb_stub.Handlers.Search.{handle_search_memory}
use gdb_stub.Handlers.VCont.{handle_vcont}
use gdb_stub.Process.{
  handled, handled_if, interrupt, continue_all, step_thread, extended, detach, dispatch,
  gdb_stub_process, max_failures,
}
use gdb_stub.Handlers.Registers.{handle_read_registers, handle_read_single_register}
use gdb_stub.Handlers.Binary.{handle_write_memory_binary}
use gdb_stub.Handlers.Threads.{handle_reset}
use gdb_stub.Handlers.Table.{handle_breakpoint}
use gdb_stub.Invariant.{WellFormed, Keeps, Returns, in_both}
use gdb_stub.Invariant.Commands.{
  reply-WellFormed, reply-Keeps, some-Keeps, run_optional-WellFormed, handle_general_set-WellFormed,
  handle_query-Keeps, handle_read_registers-WellFormed, handle_write_registers-Keeps,
  handle_read_memory-Keeps, handle_write_memory-Keeps, handle_read_single_register-WellFormed,
  handle_write_single_register-Keeps, handle_write_memory_binary-WellFormed,
}
use gdb_stub.Invariant.Tables.{handle_breakpoint-WellFormed}
use gdb_stub.Invariant.State.{
  handle_set_thread-Keeps, handle_thread_alive-Keeps, handle_halt_reason-Keeps,
  handle_reset-WellFormed, handle_vcont-WellFormed, handle_search_memory-Keeps,
}

module _ {Sim : Type 0} where
  some-Returns : (r : ℤ) (w : World Sim) → WellFormed w → Returns (some (r, w))
  some-Returns r w g = record { returned = g }

  handled-Returns : (w : World Sim) → Keeps (some w) → Returns (handled w)
  handled-Returns w k = record { returned = k.kept }

  handled_if-Returns : (o : Option (World Sim)) → Keeps o → Returns (handled_if o)
  handled_if-Returns none k = record { returned = tt }
  handled_if-Returns (some w) k = record { returned = k.kept }

  in_either_case :
      (b : Bool) {o p : Option (ℤ × World Sim)}
      → Returns o
      → Returns p
      → Returns (if b then o else p)
  in_either_case true h k = h
  in_either_case false h k = k

  extended_case :
      (b c : Bool) (v u : World Sim)
      → WellFormed v
      → WellFormed u
      → Returns (some (if b then (if c then (pos 1, v) else (pos 0, v)) else (pos 0, u)))
  extended_case true true v u h k = record { returned = h }
  extended_case true false v u h k = record { returned = h }
  extended_case false c v u h k = record { returned = k }

module _ {Sim : Type 0} (x : Xlen) (cb : Callbacks Sim) where
  set_stop_thread-WellFormed :
      (w : World Sim)
      → WellFormed w
      → WellFormed (with_ctx w (gdb_stub_set_stop_thread w.ctx (pos 0)))
  unfolding gdb_stub_set_stop_thread
  set_stop_thread-WellFormed w g = ground arith

  send_stop_reason-WellFormed :
      (w : World Sim) (signal addr : ℕ)
      → WellFormed w
      → WellFormed (gdb_stub_send_stop_reason x w signal addr).1
  unfolding gdb_stub_send_stop_reason stop_reason
  send_stop_reason-WellFormed w signal addr g = ground arith

  continue_all-WellFormed : (w : World Sim) → WellFormed w → WellFormed (continue_all x cb w)
  unfolding continue_all
  continue_all-WellFormed w g = run_optional-WellFormed cb.resume _ g

  step_thread-WellFormed : (w : World Sim) → WellFormed w → WellFormed (step_thread x cb w)
  unfolding step_thread
  step_thread-WellFormed w g = run_optional-WellFormed cb.resume _ g

  detach-WellFormed : (w : World Sim) → WellFormed w → WellFormed (detach x cb w)
  unfolding detach reply
  detach-WellFormed w g = g

  interrupt-WellFormed : (w : World Sim) → WellFormed w → WellFormed (interrupt x cb w)
  unfolding interrupt
  interrupt-WellFormed w g =
      let w1 = run_optional cb.halt_cpus (with_ctx w (record w.ctx { should_stop = true })) in
      let g1 =
        run_optional-WellFormed cb.halt_cpus (with_ctx w (record w.ctx { should_stop = true })) g in
      send_stop_reason-WellFormed
        (if eqb_ℤ w1.ctx.stop_thread (pos 0)
          then with_ctx w1 (gdb_stub_set_stop_thread w1.ctx (pos 0))
          else w1)
        2 0
        (in_both WellFormed (eqb_ℤ w1.ctx.stop_thread (pos 0))
          {x = with_ctx w1 (gdb_stub_set_stop_thread w1.ctx (pos 0))} {y = w1}
          (set_stop_thread-WellFormed w1 g1) g1)

  extended-Returns : (w : World Sim) → WellFormed w → Returns (some (extended x cb w))
  unfolding extended
  extended-Returns w g =
      extended_case (starts_with (c_str (packet_buffer w)) (codes "vCont")) (handle_vcont cb w).1
        (handle_vcont cb w).0 (reply w []) (handle_vcont-WellFormed cb w g)
        (reply-WellFormed w [] g)

  dispatch-Returns :
      (fuel cmd : ℕ) (w : World Sim) → WellFormed w → Returns (dispatch x cb fuel cmd w)
  unfolding dispatch
  dispatch-Returns fuel cmd w g =
      in_either_case (cmd == 0x03)
        (handled-Returns (interrupt x cb w) (some-Keeps _ (interrupt-WellFormed w g)))
        (in_either_case (cmd == b'?') (handled-Returns _ (handle_halt_reason-Keeps cb x w g)) (
          in_either_case (cmd == b'q')
            (handled_if-Returns _ (
              handle_query-Keeps x cb (handle_search_memory x cb fuel) w
                (handle_search_memory-Keeps x cb fuel) g))
            (in_either_case (cmd == b'Q')
              (handled-Returns (handle_general_set w)
                (some-Keeps _ (handle_general_set-WellFormed w g)))
              (in_either_case (cmd == b'g')
                (handled-Returns (handle_read_registers x cb w)
                  (some-Keeps _ (handle_read_registers-WellFormed x cb w g)))
                (in_either_case (cmd == b'G')
                  (handled_if-Returns _ (handle_write_registers-Keeps x cb w g))
                  (in_either_case (cmd == b'm')
                    (handled_if-Returns _ (handle_read_memory-Keeps x cb w g))
                    (in_either_case (cmd == b'M')
                      (handled_if-Returns _ (handle_write_memory-Keeps x cb w g))
                      (in_either_case (cmd == b'p')
                        (handled-Returns (handle_read_single_register x cb w)
                          (some-Keeps _ (handle_read_single_register-WellFormed x cb w g)))
                        (in_either_case (cmd == b'P')
                          (handled_if-Returns _ (handle_write_single_register-Keeps x cb w g))
                          (in_either_case (cmd == b'X')
                            (handled-Returns (handle_write_memory_binary x cb w)
                              (some-Keeps _ (handle_write_memory_binary-WellFormed x cb w g)))
                            (in_either_case (cmd == b'R')
                              (handled-Returns (handle_reset cb w)
                                (some-Keeps _ (handle_reset-WellFormed cb w g)))
                              (in_either_case (cmd == b'H')
                                (handled-Returns _ (handle_set_thread-Keeps cb w g))
                                (in_either_case (cmd == b'T')
                                  (handled-Returns _ (handle_thread_alive-Keeps cb w g))
                                  (in_either_case (cmd == b'v') (extended-Returns w g) (
                                    in_either_case (cmd == b'c')
                                      (some-Returns (pos 1) (continue_all x cb w)
                                        (continue_all-WellFormed w g))
                                      (in_either_case (cmd == b's')
                                        (some-Returns (pos 1) (step_thread x cb w)
                                          (step_thread-WellFormed w g))
                                        (in_either_case (cmd == b'Z')
                                          (handled-Returns (handle_breakpoint x true w) (
                                            some-Keeps _ (handle_breakpoint-WellFormed x true w g)))
                                          (in_either_case (cmd == b'z')
                                            (handled-Returns (handle_breakpoint x false w) (
                                              some-Keeps _
                                                (handle_breakpoint-WellFormed x false w g)))
                                            (in_either_case (cmd == b'k')
                                              (some-Returns minus_one w g)
                                              (in_either_case (cmd == b'D')
                                                (some-Returns minus_one (detach x cb w)
                                                  (detach-WellFormed w g))
                                                (handled-Returns (reply w [])
                                                  (reply-Keeps w [] g))))))))))))))))))))))

  -- Whatever a client sends, and whatever the connection and the simulator answer: where the tables are
  -- whole arrays without two slots in use for one key, at most all slots are in use, and the packet
  -- buffer has its size, the same holds of the world that the call leaves, if it leaves one.
  pub gdb_stub_process-Returns :
      (fuel : ℕ) (w : World Sim) → WellFormed w → Returns (gdb_stub_process x cb fuel w)
  unfolding gdb_stub_process
  gdb_stub_process-Returns fuel w g =
      let (result, stub, wire) = receive_packet w.ctx.stub w.wire in
      let w' = record w { ctx = record w.ctx { stub = stub }; wire = wire } in
      in_either_case w.ctx.stub.connected
        (in_either_case (leb max_failures w.ctx.stub.consecutive_failures)
          (some-Returns minus_one w g)
          (in_either_case (is_negative result)
            (some-Returns minus_one w' (g.0, length-receive_packet w.ctx.stub w.wire ∙ g.1))
            (dispatch-Returns fuel (get_or stub.packet_buffer 0 0) w'
              (g.0, length-receive_packet w.ctx.stub w.wire ∙ g.1))))
        (some-Returns minus_one w g)
