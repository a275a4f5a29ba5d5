-- ===== src/Handlers/VCont/Step.antt =====
-- The packet by which GDB steps one thread off a breakpoint: a step of that thread, and `c` for the rest.
use gdb_stub.Prelude.{
  ℕ, suc, ◌-◌, ◌^◌, ◌<◌, ◌≡◌, ◌≢◌, ◌∙◌, refl, true, false, some, List, [], ◌∷◌, ◌++◌, length,
  length-append, arith,
}
use gdb_stub.Prelude.Int.{ℤ, pos, eqb_ℤ, minus_one}
use gdb_stub.Prelude.Text.{codes, str_equal, starts_with, c_str, isxdigit, xdigit}
use gdb_stub.Hex.{format_hex}
use gdb_stub.Hex.Bounds.{length-format_hex}
use gdb_stub.Context.{Context}
use gdb_stub.Thread.{
  thread_pid_valid, parse_thread_spec, resolve_continue_thread, resolve_step_thread,
  gdb_stub_should_run_thread,
}
use gdb_stub.Thread.RoundTrip.{AllDigits, AllDigits-format_hex, parse_thread_spec-format}
use gdb_stub.World.{World, Callbacks, with_ctx, run_optional, packet_buffer}
use gdb_stub.Handlers.VCont.{
  Actions, no_actions, parsed, skip_signal, split_spec, action_thread, apply_action, skip_semicolon,
  vcont_round, vcont_loop, run_actions, vcont_actions, handle_vcont,
}

no_semicolon : (c : ℕ) → isxdigit c ≡ true → c ≢ b';'
unfolding isxdigit
no_semicolon c h = ground arith

split_spec-digits :
    (s rest : List ℕ) → AllDigits s → split_spec (s ++ (b';' ∷ rest)) ≡ (s, b';' ∷ rest)
unfolding split_spec
split_spec-digits [] rest h = refl
split_spec-digits (c ∷ s) rest h = ground (arith, no_semicolon c h.0, split_spec-digits s rest h.1)

split_spec-process :
    (s rest : List ℕ)
    → AllDigits s
    → split_spec (codes "p1." ++ (s ++ (b';' ∷ rest))) ≡ (codes "p1." ++ s, b';' ∷ rest)
unfolding split_spec
split_spec-process s rest h = rw (split_spec-digits s rest h)

action_thread-format :
    (tid : ℕ) (rest : List ℕ)
    → 0 < tid
    → tid < 2 ^ 31
    → action_thread (codes ":p1." ++ (format_hex tid ++ (b';' ∷ rest)))
      ≡ some ((pos 1, pos tid), b';' ∷ rest)
unfolding action_thread
action_thread-format tid rest h k = ground (
  arith,
  split_spec-process (format_hex tid) rest (AllDigits-format_hex tid),
  length-append {0} (codes "p1.") (format_hex tid),
  length-format_hex tid,
  (parse_thread_spec-format tid h k).0,
)

apply_step :
    (ctx : Context) (tid : ℕ)
    → 0 < tid
    → apply_action ctx b's' (pos 1) (pos tid) no_actions
      ≡ parsed (record {
        any_step = true;
        step_tid = pos tid;
        continue_tid = minus_one;
        have_action = true;
      })
unfolding apply_action resolve_step_thread resolve_continue_thread
apply_step ctx tid h = ground arith

-- the variables after both actions
abbrev stepping : ℕ → Actions
stepping tid = record {
  any_step = true;
  step_tid = pos tid;
  continue_tid = minus_one;
  have_action = true;
}

vcont_round-step :
    (ctx : Context) (tid : ℕ) (rest : List ℕ)
    → 0 < tid
    → tid < 2 ^ 31
    → vcont_round ctx b's' (codes ":p1." ++ (format_hex tid ++ (b';' ∷ rest))) no_actions
      ≡ (parsed (stepping tid), rest)
unfolding vcont_round skip_signal skip_semicolon thread_pid_valid
vcont_round-step ctx tid rest h k =
    ground (arith, action_thread-format tid rest h k, apply_step ctx tid h)

vcont_loop-continue :
    (ctx : Context) (fuel tid : ℕ)
    → vcont_loop ctx (suc fuel) (codes "c:p1.-1") (stepping tid) ≡ parsed (stepping tid)
unfolding vcont_loop vcont_round skip_signal action_thread split_spec parse_thread_spec xdigit
    apply_action resolve_continue_thread skip_semicolon
vcont_loop-continue ctx fuel tid = refl

-- the packet, behind its `vCont;`
abbrev pub step_one : ℕ → List ℕ
step_one tid = codes "s:p1." ++ (format_hex tid ++ codes ";c:p1.-1")

vcont_loop-step_one :
    (ctx : Context) (fuel tid : ℕ)
    → 0 < tid
    → tid < 2 ^ 31
    → vcont_loop ctx (suc (suc fuel)) (step_one tid) no_actions ≡ parsed (stepping tid)
vcont_loop-step_one ctx fuel tid h k =
    next_round ctx (suc fuel) b's' (codes ":p1." ++ (format_hex tid ++ codes ";c:p1.-1")) no_actions
      (vcont_round-step ctx tid (codes "c:p1.-1") h k)
    ∙ vcont_loop-continue ctx fuel tid
  where
    next_round :
        (c : Context) (n action : ℕ) (str : List ℕ) (acc : Actions) {acc' : Actions} {next : List ℕ}
        → vcont_round c action str acc ≡ (parsed acc', next)
        → vcont_loop c (suc n) (action ∷ str) acc ≡ vcont_loop c n next acc'
    next_round c n action str acc e = unfold vcont_loop in ground (arith, e)

module _ {Sim : Type 0} (cb : Callbacks Sim) where
  vcont_actions-step_one :
      (w : World Sim) (tid : ℕ)
      → 0 < tid
      → tid < 2 ^ 31
      → vcont_actions cb (step_one tid) w ≡ (
        run_optional cb.resume (
            with_ctx w (record w.ctx {
              single_step = true;
              continue_thread = pos tid;
              should_stop = false;
              stop_thread = pos 0;
            })),
        true,
      )
  unfolding vcont_actions run_actions
  vcont_actions-step_one w tid h k =
      ground (arith, vcont_loop-step_one w.ctx (length (step_one tid) - 2) tid h k)

  -- `vCont;s:p1.N;c:p1.-1` for a thread id N from 1 to 2 ^ 31 - 1 steps: the step decides, and the
  -- simulator is resumed with thread N, and no other, allowed to run.
  pub handle_vcont-step_one :
      (w : World Sim) (tid : ℕ)
      → 0 < tid
      → tid < 2 ^ 31
      → c_str (packet_buffer w) ≡ codes "vCont;" ++ step_one tid
      → (ctx : Context) × (handle_vcont cb w ≡ (run_optional cb.resume (with_ctx w ctx), true))
        × (ctx.single_step ≡ true)
        × ((other : ℤ) → gdb_stub_should_run_thread ctx other ≡ eqb_ℤ (pos tid) other)
  unfolding handle_vcont str_equal starts_with skip_semicolon gdb_stub_should_run_thread
  handle_vcont-step_one w tid h k e = (
    record w.ctx {
      single_step = true;
      continue_thread = pos tid;
      should_stop = false;
      stop_thread = pos 0;
    },
    ground (arith, e, vcont_actions-step_one w tid h k),
    refl,
    λ other. refl,
  )
