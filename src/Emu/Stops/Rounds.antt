-- ===== src/Emu/Stops/Rounds.antt =====
-- The rounds of `continue_all_harts` of emu/main.c, and `should_stop`.
use gdb_stub.Prelude.{ℕ, zero, suc, ◌+◌, ◌≡◌, Bool, true, false, not, ◌||◌, if◌then◌else◌, arith}
use gdb_stub.Stop.{gdb_stub_send_stop_reason, stop_reason}
use gdb_stub.Breakpoints.{gdb_stub_check_breakpoint}
use gdb_stub.Thread.{gdb_stub_set_stop_thread}
use gdb_stub.World.{World, with_ctx}
use gdb_stub.Emu.System.{System, can_step}
use gdb_stub.Emu.Board.{sys_cpu_step}
use gdb_stub.Emu.Run.{
  should_step_hart, in_world, continue_hart, handle_hart_stop, continue_round, notify_stop,
}

pub notify_stop-should_stop :
    (w : World System) (signal pc : ℕ)
    → (notify_stop w signal pc).ctx.should_stop ≡ w.ctx.should_stop
unfolding notify_stop gdb_stub_send_stop_reason stop_reason gdb_stub_set_stop_thread
notify_stop-should_stop w signal pc = ground arith

-- a result of a loop's body that ended the loop with the context told to stop
pub record Stopped (r : Bool × World System) : Type 0 where
  pub stops : r.0 ≡ true → r.1.ctx.should_stop ≡ true

Stopped-if :
    (b : Bool) (r s : Bool × World System) → Stopped r → Stopped s → Stopped (if b then r else s)
Stopped-if true r s p q = p
Stopped-if false r s p q = q

not_Stopped : (w : World System) → Stopped (false, w)
not_Stopped w = record { stops = λ e. absurd (ground arith) }

handle_hart_stop-Stopped :
    (w : World System) (h signal : ℕ) → Stopped (true, handle_hart_stop w h signal)
unfolding handle_hart_stop
handle_hart_stop-Stopped w h signal = record { stops = λ e. notify_stop-should_stop _ signal _ }

continue_hart-Stopped : (h : ℕ) (w : World System) → Stopped (continue_hart h w)
unfolding continue_hart
continue_hart-Stopped h w =
    let (checked, hit) = gdb_stub_check_breakpoint w.ctx (w.sim.harts h).pc in
    let stepped = in_world (sys_cpu_step h) (with_ctx w checked) in
    let after = stepped.sim.harts h in
    let died =
      Stopped-if (not after.running) (true, handle_hart_stop stepped h 4) (false, stepped)
        (handle_hart_stop-Stopped stepped h 4) (not_Stopped stepped) in
    let halted =
      Stopped-if after.halted (true, handle_hart_stop stepped h 5) _
        (handle_hart_stop-Stopped stepped h 5) died in
    let broke =
      Stopped-if hit (true, handle_hart_stop (with_ctx w checked) h 5) _
        (handle_hart_stop-Stopped (with_ctx w checked) h 5) halted in
    Stopped-if (not (should_step_hart w h false) || not (can_step (w.sim.harts h))) (false, w) _
      (not_Stopped w) broke

Stopped-round :
    (b : Bool) (w : World System) (rest : Bool × World System)
    → Stopped (b, w)
    → Stopped rest
    → Stopped (elim b [ true ↦ (true, w) | false ↦ rest ])
Stopped-round true w rest p q = p
Stopped-round false w rest p q = q

pub continue_round-Stopped : (todo h : ℕ) (w : World System) → Stopped (continue_round todo h w)
unfolding continue_round
continue_round-Stopped zero h w = not_Stopped w
continue_round-Stopped (suc todo) h w =
    let (b, after) = continue_hart h w in
    Stopped-round b after _ (continue_hart-Stopped h w) (continue_round-Stopped todo (h + 1) after)
