-- ===== src/Handlers/Threads/Laws.antt =====
-- The commands R and H of src/gdb_stub.c: what a reset leaves, and which threads can be selected.
use gdb_stub.Prelude.{
  ℕ, ◌≡◌, refl, Bool, true, false, not, ◌&&◌, ◌||◌, Option, none, some, drop, get_or, ◌==◌,
  if◌then◌else◌,
}
use gdb_stub.Prelude.Int.{ℤ, pos, ◌+ℤ◌, ◌-ℤ◌, ltb_ℤ, eqb_ℤ, minus_two}
use gdb_stub.Prelude.Text.{codes, c_str}
use gdb_stub.Slots
use gdb_stub.Breakpoints.{gdb_stub_clear_breakpoints}
use gdb_stub.Breakpoints.Laws.{stops_at}
use gdb_stub.Watchpoints.{WatchpointKey, gdb_stub_clear_watchpoints}
use gdb_stub.Watchpoints.Laws.{watches}
use gdb_stub.Thread.{
  is_positive, thread_pid_valid, parse_thread_spec, resolve_continue_thread,
  gdb_stub_should_run_thread,
}
use gdb_stub.World.{
  World, Callbacks, Effect, reply, with_ctx, run_effect, run_optional, packet_buffer,
}
use gdb_stub.Handlers.Threads.{
  num_harts, default_hart, select_thread, select_continue, handle_set_thread, reset_context,
  handle_reset,
}

module _ {Sim : Type 0} (cb : Callbacks Sim) where
  -- After a reset, with the simulator's own or the default one, the program stops at no breakpoint, no
  -- watchpoint is armed, every thread may run, a stop is requested, and no step and no breakpoint hit
  -- is pending.
  pub handle_reset_lem :
      (w : World Sim)
      → ((pc : ℕ) → stops_at (handle_reset cb w).ctx pc ≡ false)
        × ((k : WatchpointKey) → watches (handle_reset cb w).ctx k ≡ false)
        × ((thread : ℤ) → gdb_stub_should_run_thread (handle_reset cb w).ctx thread ≡ true)
        × ((handle_reset cb w).ctx.should_stop ≡ true)
        × ((handle_reset cb w).ctx.single_step ≡ false)
        × ((handle_reset cb w).ctx.breakpoint_hit ≡ false)
  unfolding handle_reset reset_context reply gdb_stub_clear_breakpoints gdb_stub_clear_watchpoints
      Slots.is_armed gdb_stub_should_run_thread
  handle_reset_lem w = ((λ pc. refl), (λ k. refl), (λ thread. refl), refl, refl, refl)

  -- the thread is one that the simulator of `w` has
  abbrev pub HasThread : World Sim → ℤ → Type 0
  HasThread w thread = (is_positive thread ≡ true) × (ltb_ℤ (num_harts cb w) thread ≡ false)

  current_thread-run_optional :
      (o : Option (Effect Sim)) (w : World Sim)
      → (run_optional o w).ctx.current_thread ≡ w.ctx.current_thread
  unfolding run_optional run_effect
  current_thread-run_optional none w = refl
  current_thread-run_optional (some e) w = refl

  either_world :
      (w : World Sim) (b : Bool) (v u : World Sim)
      → HasThread w v.ctx.current_thread
      → HasThread w u.ctx.current_thread
      → HasThread w (if b then v else u).ctx.current_thread
  either_world w true v u h k = h
  either_world w false v u h k = k

  select_continue-HasThread :
      (pid tid : ℤ) (w : World Sim)
      → HasThread w w.ctx.current_thread
      → HasThread w (select_continue cb pid tid w).ctx.current_thread
  unfolding select_continue reply
  select_continue-HasThread pid tid w h =
      let thread = resolve_continue_thread pid tid in
      let w' = with_ctx w (record w.ctx { continue_thread = thread }) in
      either_world w (eqb_ℤ thread minus_two) (reply w' (codes "E01")) (reply w' (codes "OK")) h h

  checked_thread :
      (w : World Sim) (tid : ℤ) (v u : World Sim)
      → HasThread w v.ctx.current_thread
      → u.ctx.current_thread ≡ tid
      → HasThread w
          (if not (is_positive tid) || ltb_ℤ (num_harts cb w) tid then v else u).ctx.current_thread
  checked_thread w tid v u h e = go (is_positive tid) (ltb_ℤ (num_harts cb w) tid) refl refl
    where
      go :
          (p q : Bool)
          → is_positive tid ≡ p
          → ltb_ℤ (num_harts cb w) tid ≡ q
          → HasThread w (if not p || q then v else u).ctx.current_thread
      go true true pe qe = h
      go true false pe qe = rw e (pe, qe)
      go false q pe qe = h

  select_thread-HasThread :
      (spec : ℤ) (w : World Sim)
      → HasThread w w.ctx.current_thread
      → HasThread w (select_thread cb spec w).ctx.current_thread
  unfolding select_thread reply
  select_thread-HasThread spec w h =
      let tid = if is_positive spec then spec else default_hart cb w +ℤ pos 1 in
      let o = elim cb.set_focus_hart as (λ q. Option (Effect Sim)) [
        | none ↦ none
        | some f ↦ some (f (tid -ℤ pos 1))
      ] in
      checked_thread w tid _ _ h
        (current_thread-run_optional o (with_ctx w (record w.ctx { current_thread = tid })))

  -- The command H, whatever its text: if the thread that is selected for registers is one that the
  -- simulator has, so is the thread that is selected afterwards.
  pub handle_set_thread-HasThread :
      (w : World Sim)
      → HasThread w w.ctx.current_thread
      → HasThread w (handle_set_thread cb w).ctx.current_thread
  unfolding handle_set_thread reply
  handle_set_thread-HasThread w h =
      let op = get_or (packet_buffer w) 1 0 in
      let (pid, tid) = parse_thread_spec (c_str (drop 2 (packet_buffer w))) in
      either_world w (not (op == b'g') && not (op == b'c')) (reply w (codes "E01")) _ h (
        either_world w (not (thread_pid_valid pid)) (reply w (codes "E01")) _ h (
          either_world w (op == b'g') (select_thread cb tid w) (select_continue cb pid tid w)
            (select_thread-HasThread tid w h) (select_continue-HasThread pid tid w h)))
