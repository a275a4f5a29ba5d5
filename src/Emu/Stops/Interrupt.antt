-- ===== src/Emu/Stops/Interrupt.antt =====
-- A SIGINT in `continue_all_harts` of emu/main.c.
use gdb_stub.Prelude.{
  ℕ, zero, suc, ◌+◌, ◌<◌, ◌≡◌, inl, inr, refl, Bool, true, false, Bool-cases, some, List, [], ◌∷◌,
  ◌==◌, if◌then◌else◌, ltb, ap, ap₂, ◌∙◌, ◌++◌, ◌%◌, ◌^◌, arith,
}
use gdb_stub.Stop.{
  gdb_stub_send_stop_reason, stop_reason, stop_text, stop_detail, format_addr, format_int,
}
use gdb_stub.Stop.Format.{format_stop_reply-fits}
use gdb_stub.Packet.{send_packet}
use gdb_stub.Prelude.Int.{pos}
use gdb_stub.Prelude.Text.{codes, to_unsigned}
use gdb_stub.Hex.{rv32, format_hex, format_hex_width}
use gdb_stub.Context.{Context}
use gdb_stub.Thread.{gdb_stub_set_stop_thread}
use gdb_stub.World.{World}
use gdb_stub.Emu.Cpu.{Cpu}
use gdb_stub.Emu.System.{System, Hooks, can_step}
use gdb_stub.Emu.Board.{any_hart, sys_any_running, sys_halt_all, stop_at_focus}
use gdb_stub.Emu.Run.{
  Poll, loop_round, continue_loop, finish_continue, continue_all_harts, notify_stop, sigint_handler,
}

any_hart_none :
    (n : ℕ) (harts : ℕ → Cpu Hooks)
    → ((h : ℕ) → h < n → can_step (harts h) ≡ false)
    → any_hart n harts ≡ false
unfolding any_hart
any_hart_none zero harts p = refl
any_hart_none (suc n) harts p =
    ground (arith, any_hart_none n harts (λ h l. p h (omega arith)), p n (omega arith))

sys_any_running-sys_halt_all : (sys : System) → sys_any_running (sys_halt_all sys) ≡ false
unfolding sys_any_running sys_halt_all
sys_any_running-sys_halt_all sys =
    any_hart_none sys.num_harts (sys_halt_all sys).harts (λ h l. ground arith)

loop_round-interrupt :
    (poll : Poll) (pending : Bool) (w : World System)
    → poll.interrupt ≡ true
    → w.ctx.stub.connected ≡ true
    → loop_round poll pending w
      ≡ inl (
        false,
        true,
        record w { ctx = record w.ctx { should_stop = true }; sim = stop_at_focus w.sim },
      )
unfolding loop_round sigint_handler sys_any_running
loop_round-interrupt poll pending w i c = rw (i, c, sys_any_running-sys_halt_all w.sim) refl

-- the reply for signal 4 that names hart `h` and its `pc`
abbrev pub signal_4 : Bool → ℕ → ℕ → List ℕ
signal_4 multiprocess h pc =
    codes "T04"
    ++ ((if multiprocess then codes "thread:p1." else codes "thread:")
        ++ (format_hex ((h + 1) % 2 ^ 32)
            ++ (codes ";"
                ++ (if pc == 0 then [] else codes "20:" ++ (format_hex_width 8 pc ++ codes ";")))))

-- the world after a SIGINT: every hart is halted, the focused one is the stopped one
abbrev pub interrupted_at : ℕ → World System → World System
interrupted_at h w = record w {
  ctx = record w.ctx { should_stop = true; stop_thread = pos (h + 1) };
  sim = record w.sim {
    harts = λ i.
        if ltb i w.sim.num_harts then record (w.sim.harts i) { halted = true } else w.sim.harts i;
    stop_hart = pos h;
  };
  wire = (send_packet w.wire (signal_4 w.ctx.multiprocess_active h (w.sim.harts h).pc)).1;
}

stop_text-signal_4 :
    (m : Bool) (h pc : ℕ) → stop_text rv32 m 4 (pos (h + 1)) false 0 pc ≡ signal_4 m h pc
unfolding stop_text stop_detail format_addr format_int to_unsigned
stop_text-signal_4 m h pc = elim (Bool-cases (pc == 0)) [
  | inl zero_pc ↦ rw zero_pc refl
  | inr other ↦ rw other refl
]

stop_reason-signal_4 :
    (ctx : Context) (h pc : ℕ)
    → ctx.breakpoint_hit ≡ false
    → ctx.last_watchpoint_addr ≡ 0
    → ctx.stop_thread ≡ pos (h + 1)
    → stop_reason rv32 ctx 4 pc ≡ (signal_4 ctx.multiprocess_active h pc, ctx)
unfolding stop_reason
stop_reason-signal_4 ctx h pc quiet unwatched thread = ground (
  arith,
  (format_stop_reply-fits rv32 ctx 4 (pos (h + 1)) false 0 pc).0,
  stop_text-signal_4 ctx.multiprocess_active h pc,
)

set_stop_thread-pos :
    (ctx : Context) (h : ℕ)
    → gdb_stub_set_stop_thread ctx (pos (h + 1)) ≡ record ctx { stop_thread = pos (h + 1) }
unfolding gdb_stub_set_stop_thread
set_stop_thread-pos ctx h = ground arith

halted_pc :
    (b : Bool) (cpu : Cpu Hooks) → (if b then record cpu { halted = true } else cpu).pc ≡ cpu.pc
halted_pc true cpu = refl
halted_pc false cpu = refl

notify_stop-interrupted_at :
    (w : World System)
    → w.ctx.breakpoint_hit ≡ false
    → w.ctx.last_watchpoint_addr ≡ 0
    → notify_stop
        (record w { ctx = record w.ctx { should_stop = true }; sim = stop_at_focus w.sim })
        4
        ((stop_at_focus w.sim).harts w.sim.focus_hart).pc
      ≡ interrupted_at w.sim.focus_hart w
unfolding notify_stop gdb_stub_send_stop_reason stop_at_focus sys_halt_all
notify_stop-interrupted_at w quiet unwatched =
    let h = w.sim.focus_hart in
    let ctx = record w.ctx { should_stop = true } in
    ap
      (λ (r : List ℕ × Context). record w {
        ctx = r.1;
        sim = stop_at_focus w.sim;
        wire = (send_packet w.wire r.0).1;
      })
      (ap₂ (λ (c : Context) (pc : ℕ). stop_reason rv32 c 4 pc) (set_stop_thread-pos ctx h)
          (halted_pc (ltb h w.sim.num_harts) (w.sim.harts h))
        ∙ stop_reason-signal_4 (record ctx { stop_thread = pos (h + 1) }) h (w.sim.harts h).pc quiet
            unwatched refl)

-- A SIGINT while a client is attached, at the first test of the loop of `continue_all_harts`, where no hit of a
-- breakpoint or a watchpoint is pending: the function returns with all harts halted and the focused hart as
-- the stopped one, sends the reply `T04` with that hart's thread and, unless it is 0, its `pc`, signal 4 in place of 2, and leaves
-- `g_interrupt_received` set.
pub continue_all_harts-interrupt :
    (poll : Poll) (polls : List Poll) (pending : Bool) (w : World System)
    → poll.interrupt ≡ true
    → w.ctx.stub.connected ≡ true
    → w.ctx.breakpoint_hit ≡ false
    → w.ctx.last_watchpoint_addr ≡ 0
    → continue_all_harts (poll ∷ polls) pending w ≡ some (true, interrupted_at w.sim.focus_hart w)
unfolding continue_all_harts continue_loop finish_continue sys_any_running gdb_stub_send_stop_reason
continue_all_harts-interrupt poll polls pending w i c quiet unwatched =
    rw (continue_all_harts, continue_loop, loop_round-interrupt poll pending w i c)
      (rw (finish_continue, sys_any_running-sys_halt_all w.sim)
        (ap (λ (v : World System). some (true, v)) (notify_stop-interrupted_at w quiet unwatched)))
