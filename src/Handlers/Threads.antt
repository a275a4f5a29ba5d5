-- ===== src/Handlers/Threads.antt =====
-- The commands H, T, ? and R of src/gdb_stub.c.
pub mod Laws
use gdb_stub.Prelude.{
  ℕ, zero, suc, ◌+◌, true, false, not, ◌&&◌, ◌||◌, Option, none, some, drop, get_or, ◌==◌,
  if◌then◌else◌,
}
use gdb_stub.Prelude.Int.{ℤ, pos, ◌+ℤ◌, ◌-ℤ◌, eqb_ℤ, ltb_ℤ, minus_one, minus_two}
use gdb_stub.Prelude.Text.{codes, c_str}
use gdb_stub.Hex.{Xlen}
use gdb_stub.Context.{Context}
use gdb_stub.Breakpoints.{gdb_stub_clear_breakpoints, gdb_stub_check_breakpoint}
use gdb_stub.Watchpoints.{gdb_stub_clear_watchpoints}
use gdb_stub.Thread.{
  is_positive, is_negative, thread_pid_valid, parse_thread_spec, resolve_continue_thread,
}
use gdb_stub.Stop.{format_stop_reply, reported_thread}
use gdb_stub.World.{
  World, Callbacks, Effect, reply, with_ctx, run_effect, run_optional, ask, packet_buffer,
}

module _ {Sim : Type 0} (cb : Callbacks Sim) where
  -- `callbacks->get_num_harts ? callbacks->get_num_harts(simulator) : 1`
  abbrev pub num_harts : World Sim → ℤ
  num_harts w = ask cb.get_num_harts (pos 1) w

  -- the hart that `Hg` falls back to
  unfoldable pub default_hart : World Sim → ℤ
  default_hart w =
      let stop_hart = ask cb.get_stop_hart (pos 0) w in
      if is_negative stop_hart then ask cb.get_focus_hart (pos 0) w else stop_hart

  -- `Hg` on a parsed thread
  unfoldable pub select_thread : ℤ → World Sim → World Sim
  select_thread spec w =
      let tid = if is_positive spec then spec else default_hart w +ℤ pos 1 in
      if not (is_positive tid) || ltb_ℤ (num_harts w) tid
      then reply w (codes "E01")
      else reply
          (run_optional (elim cb.set_focus_hart [ none ↦ none | some f ↦ some (f (tid -ℤ pos 1)) ])
            (with_ctx w (record w.ctx { current_thread = tid })))
          (codes "OK")

  -- `Hc` on a parsed process and thread
  unfoldable pub select_continue : ℤ → ℤ → World Sim → World Sim
  select_continue pid tid w =
      let thread = resolve_continue_thread pid tid in
      let w' = with_ctx w (record w.ctx { continue_thread = thread }) in
      if eqb_ℤ thread minus_two then reply w' (codes "E01") else reply w' (codes "OK")

  unfoldable pub handle_set_thread : World Sim → World Sim
  handle_set_thread w =
      let op = get_or (packet_buffer w) 1 0 in
      let (pid, tid) = parse_thread_spec (c_str (drop 2 (packet_buffer w))) in
      if not (op == b'g') && not (op == b'c')
      then reply w (codes "E01")
      else if not (thread_pid_valid pid)
      then reply w (codes "E01")
      else if op == b'g'
      then select_thread tid w
      else select_continue pid tid w

  unfoldable pub handle_thread_alive : World Sim → World Sim
  handle_thread_alive w =
      let (pid, tid) = parse_thread_spec (c_str (drop 1 (packet_buffer w))) in
      if not (thread_pid_valid pid)
      then reply w (codes "E01")
      else if is_positive tid && not (ltb_ℤ (num_harts w) tid)
      then reply w (codes "OK")
      else reply w (codes "E01")

  -- A check of the breakpoints here sets `breakpoint_hit`, as it does elsewhere.
  unfoldable pub handle_halt_reason : Xlen → World Sim → World Sim
  handle_halt_reason x w =
      let ctx = w.ctx in
      let tid = reported_thread ctx in
      let (checked, hit) = gdb_stub_check_breakpoint ctx (cb.get_pc w.sim) in
      if ctx.single_step
      then reply w (format_stop_reply x ctx 128 5 tid false 0 0)
      else if not (ctx.last_watchpoint_addr == 0)
      then reply (with_ctx w (record ctx { last_watchpoint_addr = 0 }))
          (format_stop_reply x ctx 128 5 tid false ctx.last_watchpoint_addr 0)
      else reply (with_ctx w checked) (format_stop_reply x checked 128 5 tid hit 0 0)

  -- the loop of the default reset: rounds left, and `i`
  unfoldable pub clear_registers_loop : ℕ → ℕ → World Sim → World Sim
  clear_registers_loop zero i w = w
  clear_registers_loop (suc n) i w =
      clear_registers_loop n (i + 1) (run_effect (cb.write_reg i 0) w)

  unfoldable pub reset_target : Option (Effect Sim) → World Sim → World Sim
  reset_target none w = clear_registers_loop 31 1 (run_effect (cb.set_pc 0) w)
  reset_target (some e) w = run_effect e w

  -- what `handle_reset` does to the context
  unfoldable pub reset_context : Context → Context
  reset_context ctx = record (gdb_stub_clear_watchpoints (gdb_stub_clear_breakpoints ctx)) {
    should_stop = true;
    single_step = false;
    last_stop_signal = 5;
    breakpoint_hit = false;
    current_thread = pos 1;
    continue_thread = minus_one;
    stop_thread = pos 0;
  }

  unfoldable pub handle_reset : World Sim → World Sim
  handle_reset w =
      let w' = reset_target cb.reset w in reply (with_ctx w' (reset_context w'.ctx)) (codes "OK")
