-- ===== src/Emu/Run.antt =====
-- The part of emu/main.c that runs the harts and reports their stops: `notify_stop` to
-- `continue_all_harts`. What a round of the loop of `continue_all_harts` meets
-- from outside, a SIGINT before its test and a byte from the client at its `select`, is an argument.
pub mod Main
use gdb_stub.Prelude.{
  ◌&&◌, ℕ, zero, suc, ◌+◌, Bool, true, false, not, ◌||◌, ◌⊎◌, inl, inr, Option, none, some, List,
  [], ◌∷◌, ◌==◌, if◌then◌else◌,
}
use gdb_stub.Prelude.Int.{ℤ, pos, negsuc, eqb_ℤ}
use gdb_stub.Hex.{rv32}
use gdb_stub.Breakpoints.{gdb_stub_check_breakpoint}
use gdb_stub.Thread.{is_negative, gdb_stub_set_stop_thread, gdb_stub_should_run_thread}
use gdb_stub.World.{World, with_ctx}
use gdb_stub.Stop.{gdb_stub_send_stop_reason}
use gdb_stub.Process.{gdb_stub_process}
use gdb_stub.Emu.Cpu.{rv32_cpu_read_mem}
use gdb_stub.Emu.System.{System, on_hart, can_step}
use gdb_stub.Emu.Sync.{smp_sync_worker_should_run}
use gdb_stub.Emu.Board.{
  sys_thread_id, sys_any_running, sys_resume_runnable, sys_cpu_step, stop_at_focus,
}
use gdb_stub.Emu.Callbacks.{context_of, with_gdb_ctx, callbacks}

-- a function of the system that may change the context through `g_gdb_ctx`
abbrev pub in_world : (System → System) → World System → World System
in_world f w =
    let after = f (with_gdb_ctx w.ctx w.sim) in
    record w { ctx = context_of after w.ctx; sim = after }

abbrev pub stop_thread_id : System → ℤ
stop_thread_id sys = elim sys.stop_hart [
  | pos h ↦ sys_thread_id h
  | negsuc n ↦ sys_thread_id sys.focus_hart
]

unfoldable pub notify_stop : World System → ℕ → ℕ → World System
notify_stop w signal pc =
    (gdb_stub_send_stop_reason rv32
      (with_ctx w (gdb_stub_set_stop_thread w.ctx (stop_thread_id w.sim))) signal pc).1

-- The function always returns true. `hart` gives `cpu`.
unfoldable pub handle_hart_stop : World System → ℕ → ℕ → World System
unfolding notify_stop
handle_hart_stop w hart signal =
    let cpu = w.sim.harts hart in
    notify_stop
      (record w {
        ctx = record w.ctx { should_stop = true };
        sim = record w.sim { stop_hart = pos cpu.hart_id; focus_hart = cpu.hart_id };
      })
      signal cpu.pc

-- the system and the context after `sigint_handler`
unfoldable pub sigint_handler : World System → World System
unfolding stop_at_focus
sigint_handler w =
    if w.ctx.stub.connected
    then record w { ctx = record w.ctx { should_stop = true }; sim = stop_at_focus w.sim }
    else w

unfoldable pub should_step_hart : World System → ℕ → Bool → Bool
unfolding smp_sync_worker_should_run
should_step_hart w h single_step_mode =
    if not (gdb_stub_should_run_thread w.ctx (sys_thread_id h))
    then false
    else if w.sim.num_harts == 1
    then true
    else if single_step_mode
    then h == w.sim.focus_hart
    else if is_negative w.ctx.continue_thread
    then h == 0 || smp_sync_worker_should_run w.sim h
    else eqb_ℤ w.ctx.continue_thread (sys_thread_id h)

-- The text printed in debug mode is left out, the access to memory is not.
unfoldable pub debug_fetch : Bool → ℕ → World System → World System
debug_fetch debug_mode hart w =
    if debug_mode then in_world (on_hart hart (λ m. (rv32_cpu_read_mem m.cpu.pc 4 m).1)) w else w

-- `ctx->single_step = false` before the report of a step
abbrev pub end_step : World System → World System
end_step w = with_ctx w (record w.ctx { single_step = false; should_stop = true })

-- The function always returns true.
unfoldable pub step_focus_hart : Bool → World System → World System
unfolding debug_fetch handle_hart_stop sys_cpu_step
step_focus_hart debug_mode w =
    let hart = w.sim.focus_hart in
    let cpu = w.sim.harts hart in
    let thread = sys_thread_id cpu.hart_id in
    let fetched = debug_fetch debug_mode hart w in
    let (checked, hit) = gdb_stub_check_breakpoint fetched.ctx cpu.pc in
    let stepped = in_world (sys_cpu_step hart) (with_ctx fetched checked) in
    let after = stepped.sim.harts hart in
    if not (gdb_stub_should_run_thread w.ctx thread)
    then (gdb_stub_send_stop_reason rv32 (with_ctx w (gdb_stub_set_stop_thread w.ctx thread)) 0
        cpu.pc).1
    else if hit
    then handle_hart_stop (with_ctx fetched checked) hart 5
    else if after.halted
    then handle_hart_stop (end_step stepped) hart 5
    else if not after.running
    then handle_hart_stop (end_step stepped) hart 4
    else handle_hart_stop (end_step stepped) hart 5

-- the body of the `for` loop for one hart: whether it ended the loops, and the world
unfoldable pub continue_hart : ℕ → World System → Bool × World System
unfolding should_step_hart handle_hart_stop sys_cpu_step
continue_hart h w =
    let (checked, hit) = gdb_stub_check_breakpoint w.ctx (w.sim.harts h).pc in
    let stepped = in_world (sys_cpu_step h) (with_ctx w checked) in
    let after = stepped.sim.harts h in
    if not (should_step_hart w h false) || not (can_step (w.sim.harts h))
    then (false, w)
    else if hit
    then (true, handle_hart_stop (with_ctx w checked) h 5)
    else if after.halted
    then (true, handle_hart_stop stepped h 5)
    else if not after.running
    then (true, handle_hart_stop stepped h 4)
    else (false, stepped)

-- the `for` loop over the `todo` harts from `h` on
unfoldable pub continue_round : ℕ → ℕ → World System → Bool × World System
unfolding continue_hart
continue_round zero h w = (false, w)
continue_round (suc todo) h w =
    let (stopped, after) = continue_hart h w in
    elim stopped [ true ↦ (true, after) | false ↦ continue_round todo (h + 1) after ]

-- what a round of the `while` loop meets
pub record Poll : Type 0 where
  pub interrupt : Bool
  pub readable : Bool

-- how the `while` loop ends: whether a stop was sent, `g_interrupt_received`, and the world
abbrev pub LoopEnd : Type 0
LoopEnd = Bool × Bool × World System

-- the `while` loop's condition, negated
abbrev pub loop_done : Bool → World System → Bool
loop_done received w = not (sys_any_running w.sim) || w.ctx.should_stop || received

-- a round of the `while` loop: its end, or the world before the next round
unfoldable pub loop_round : Poll → Bool → World System → LoopEnd ⊎ World System
unfolding continue_round sigint_handler
loop_round poll pending w =
    let seen = if poll.interrupt then sigint_handler w else w in
    let received = poll.interrupt || pending in
    let (stopped, after) = continue_round seen.sim.num_harts 0 seen in
    if loop_done received seen
    then inl (false, received, seen)
    else if stopped
    then inl (true, received, after)
    else if poll.readable
    then inl (false, received, with_ctx after (record after.ctx { should_stop = true }))
    else inr after

-- The `while` loop, with `g_interrupt_received` on entry. It still runs when it has used up `polls`.
unfoldable pub continue_loop : List Poll → Bool → World System → Option LoopEnd
unfolding loop_round
continue_loop [] pending w = none
continue_loop (poll ∷ polls) pending w = elim (loop_round poll pending w) [
  | inl end ↦ some end
  | inr after ↦ continue_loop polls (poll.interrupt || pending) after
]

-- the reports behind the `while` loop: `g_interrupt_received` and the world afterwards
unfoldable pub finish_continue : LoopEnd → Bool × World System
unfolding notify_stop
finish_continue (stop_sent, received, w) =
    let pc = (w.sim.harts w.sim.focus_hart).pc in
    let stopping = with_ctx w (record w.ctx { should_stop = true }) in
    if stop_sent
    then (received, w)
    else if not (sys_any_running w.sim)
    then (received, notify_stop stopping 4 pc)
    else if received
    then (false, notify_stop stopping 2 pc)
    else if w.ctx.should_stop
    then (received, notify_stop w 2 pc)
    else (received, w)

-- Whether a stop was sent is not looked at by the caller.
unfoldable pub continue_all_harts : List Poll → Bool → World System → Option (Bool × World System)
unfolding continue_loop finish_continue
continue_all_harts polls pending w = elim (continue_loop polls pending w) [
  | none ↦ none
  | some end ↦ some (finish_continue end)
]
