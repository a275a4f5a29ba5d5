-- ===== src/Emu/Break.antt =====
-- A breakpoint in the loop of `continue_all_harts` of emu/main.c, with the stub's report of it.
use gdb_stub.Prelude.{ℕ, ◌+◌, ◌≡◌, sym, ap, ◌∙◌, Bool, true, false, List, if◌then◌else◌, arith}
use gdb_stub.Prelude.Int.{pos}
use gdb_stub.Hex.{rv32}
use gdb_stub.Context.{Context}
use gdb_stub.Breakpoints.{gdb_stub_check_breakpoint}
use gdb_stub.Breakpoints.Laws.{stops_at, gdb_stub_check_breakpoint_lem}
use gdb_stub.Packet.{send_packet}
use gdb_stub.Thread.{gdb_stub_set_stop_thread}
use gdb_stub.World.{World, with_ctx}
use gdb_stub.Stop.{stop_text, stop_reason, gdb_stub_send_stop_reason}
use gdb_stub.Stop.Reason.{stop_reason-gdb_stub_check_breakpoint}
use gdb_stub.Emu.System.{System, can_step}
use gdb_stub.Emu.Run.{should_step_hart, continue_hart, handle_hart_stop, notify_stop}

-- the world after hart `h` was reported stopped at a breakpoint
abbrev pub broken_at : ℕ → World System → World System
broken_at h w = record w {
  ctx = record w.ctx { should_stop = true; breakpoint_hit = false; stop_thread = pos (h + 1) };
  sim = record w.sim { stop_hart = pos h; focus_hart = h };
  wire = (send_packet w.wire (stop_text rv32 w.ctx.multiprocess_active 5 (pos (h + 1)) true 0 0)).1;
}

check_hit :
    (ctx : Context) (pc : ℕ)
    → stops_at ctx pc ≡ true
    → gdb_stub_check_breakpoint ctx pc ≡ (record ctx { breakpoint_hit = true }, true)
check_hit ctx pc armed =
    gdb_stub_check_breakpoint_lem ctx pc
    ∙ ap (λ (b : Bool). if b then (record ctx { breakpoint_hit = true }, true) else (ctx, false))
        armed

handle_hart_stop-broken_at :
    (h : ℕ) (w : World System)
    → stops_at w.ctx (w.sim.harts h).pc ≡ true
    → handle_hart_stop (with_ctx w (record w.ctx { breakpoint_hit = true })) h 5
      ≡ broken_at (w.sim.harts h).hart_id w
unfolding handle_hart_stop notify_stop gdb_stub_send_stop_reason
handle_hart_stop-broken_at h w armed =
    let cpu = w.sim.harts h in
    let ctx = record w.ctx { should_stop = true } in
    let tid = pos (cpu.hart_id + 1) in
    let report =
      stop_reason-gdb_stub_check_breakpoint rv32 ctx 5 cpu.pc tid (ground arith) cpu.pc armed in
    ap
      (λ (r : List ℕ × Context). record w {
        ctx = r.1;
        sim = record w.sim { stop_hart = pos cpu.hart_id; focus_hart = cpu.hart_id };
        wire = (send_packet w.wire r.0).1;
      })
      (ap (λ (c : Context × Bool). stop_reason rv32 (gdb_stub_set_stop_thread c.0 tid) 5 cpu.pc)
          (sym (check_hit ctx cpu.pc armed))
        ∙ report)

-- A running hart, not halted, that is to step and whose `pc` is at an armed breakpoint is stopped before it executes
-- the instruction there: the client is sent the reply T05 with `swbreak` and this hart's thread, the
-- hart becomes the stopped and the focused one, and nothing else of the system changes.
pub continue_hart-broken_at :
    (h : ℕ) (w : World System)
    → should_step_hart w h false ≡ true
    → can_step (w.sim.harts h) ≡ true
    → stops_at w.ctx (w.sim.harts h).pc ≡ true
    → continue_hart h w ≡ (true, broken_at (w.sim.harts h).hart_id w)
unfolding continue_hart handle_hart_stop notify_stop gdb_stub_send_stop_reason
continue_hart-broken_at h w due ready armed =
    rw (continue_hart, due, ready, check_hit w.ctx (w.sim.harts h).pc armed)
      (ap (λ (v : World System). (true, v)) (handle_hart_stop-broken_at h w armed))
