-- ===== src/Process/Running.antt =====
-- The packets `c` and `s` of src/gdb_stub.c, from the connection to the choice of the harts that run.
use gdb_stub.Prelude.{ℕ, ◌≡◌, ◌∙◌, refl, true, false, some, List, if◌then◌else◌, arith}
use gdb_stub.Prelude.Int.{ℤ, pos, eqb_ℤ, minus_one}
use gdb_stub.Prelude.Text.{codes}
use gdb_stub.Hex.{Xlen}
use gdb_stub.Context.{Context}
use gdb_stub.Thread.{is_positive, is_negative, gdb_stub_should_run_thread}
use gdb_stub.World.{World, Callbacks, with_ctx, run_optional}
use gdb_stub.Process.{dispatch, gdb_stub_process, continue_all, step_thread}
use gdb_stub.Process.Frame.{Delivers, delivered, gdb_stub_process-frame}

module _ {Sim : Type 0} (x : Xlen) (cb : Callbacks Sim) where
  -- The packet `c` on a connection that takes the acknowledgement: the call returns 1 after the simulator has been resumed on a context in which
  -- no stop is pending, the step flag is off and every thread may run.
  pub gdb_stub_process-continue_all :
      (fuel : ℕ) (w : World Sim) (rest : List ℕ)
      → Delivers w (codes "c") rest
      → (ctx : Context) × (gdb_stub_process x cb fuel w
          ≡ some (pos 1, run_optional cb.resume (with_ctx (delivered w (codes "c") rest) ctx)))
        × (ctx.single_step ≡ false)
        × (ctx.should_stop ≡ false)
        × ((thread : ℤ) → gdb_stub_should_run_thread ctx thread ≡ true)
  unfolding gdb_stub_should_run_thread
  gdb_stub_process-continue_all fuel w rest d = (
    record (delivered w (codes "c") rest).ctx {
      should_stop = false;
      single_step = false;
      stop_thread = pos 0;
      continue_thread = minus_one;
    },
    gdb_stub_process-frame x cb fuel w (codes "c") rest d ∙ (unfold dispatch continue_all in refl),
    refl,
    refl,
    λ thread. refl,
  )

  -- The packet `s` on a connection that takes the acknowledgement, where the thread selected for
  -- registers is a thread number: the call returns 1
  -- after the simulator has been resumed on a context in which no stop is pending, the step flag is
  -- on, and the one thread that may run is that selected for stepping, or where none is, that
  -- selected for registers.
  pub gdb_stub_process-step_thread :
      (fuel : ℕ) (w : World Sim) (rest : List ℕ)
      → Delivers w (codes "s") rest
      → is_positive w.ctx.current_thread ≡ true
      → (ctx : Context) × (gdb_stub_process x cb fuel w
          ≡ some (pos 1, run_optional cb.resume (with_ctx (delivered w (codes "s") rest) ctx)))
        × (ctx.single_step ≡ true)
        × (ctx.should_stop ≡ false)
        × ((thread : ℤ)
            → gdb_stub_should_run_thread ctx thread
              ≡ eqb_ℤ
                  (if is_negative w.ctx.continue_thread
                    then w.ctx.current_thread
                    else w.ctx.continue_thread)
                  thread)
  unfolding gdb_stub_should_run_thread
  gdb_stub_process-step_thread fuel w rest d selected = (
    record (delivered w (codes "s") rest).ctx {
      should_stop = false;
      single_step = true;
      stop_thread = pos 0;
      continue_thread =
          if is_negative w.ctx.continue_thread then w.ctx.current_thread else w.ctx.continue_thread;
    },
    gdb_stub_process-frame x cb fuel w (codes "s") rest d ∙ (unfold dispatch step_thread in refl),
    refl,
    refl,
    λ thread. not_all w.ctx.current_thread w.ctx.continue_thread thread selected,
  )
    where
      not_all :
          (current continue thread : ℤ)
          → is_positive current ≡ true
          → (if is_negative (if is_negative continue then current else continue)
              then true
              else eqb_ℤ (if is_negative continue then current else continue) thread)
            ≡ eqb_ℤ (if is_negative continue then current else continue) thread
      not_all current continue thread h = ground arith
