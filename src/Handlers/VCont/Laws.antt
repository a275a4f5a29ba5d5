-- ===== src/Handlers/VCont/Laws.antt =====
-- `handle_vcont` of src/gdb_stub.c: its loop, and what it does to the world.
use gdb_stub.Prelude.{
  ℕ, zero, suc, ◌≤◌, ◌≡◌, ◌≢◌, ◌⊎◌, refl, inl, inr, Bool, true, false, Option, none, some, List, [],
  ◌∷◌, length, drop, Bool-cases, if◌then◌else◌, arith,
}
use gdb_stub.Prelude.Int.{ℤ, pos}
use gdb_stub.Prelude.Text.{codes, str_equal, starts_with, c_str}
use gdb_stub.Context.{Context}
use gdb_stub.World.{World, Callbacks, reply, with_ctx, run_optional, packet_buffer}
use gdb_stub.Handlers.VCont.{
  Actions, no_actions, Outcome, refused, parsed, out_of_fuel, skip_two_digits, skip_signal,
  split_spec, action_thread, apply_action, skip_semicolon, vcont_round, vcont_loop, run_actions,
  vcont_actions, handle_vcont,
}

length-skip_signal : (action : ℕ) (str : List ℕ) → length (skip_signal action str) ≤ length str
unfolding skip_signal skip_two_digits
length-skip_signal action [] = ground arith
length-skip_signal action (a ∷ []) = ground arith
length-skip_signal action (a ∷ b ∷ str) = ground arith

length-split_spec : (str : List ℕ) → length (split_spec str).1 ≤ length str
unfolding split_spec
length-split_spec [] = omega arith
length-split_spec (c ∷ str) = ground (arith, length-split_spec str)

length-action_thread :
    (str : List ℕ) {ids : ℤ × ℤ} {next : List ℕ}
    → action_thread str ≡ some (ids, next)
    → length next ≤ length str
unfolding action_thread
length-action_thread [] h = ground arith
length-action_thread (c ∷ str) h = ground (arith, length-split_spec str)

length-skip_semicolon : (str : List ℕ) → length (skip_semicolon str) ≤ length str
unfolding skip_semicolon
length-skip_semicolon [] = omega arith
length-skip_semicolon (c ∷ str) = ground arith

-- A round ends the loop or has used its fuel well: the text that is left is no longer.
length-vcont_round :
    (ctx : Context) (action : ℕ) (str : List ℕ) (acc : Actions)
    → length (vcont_round ctx action str acc).1 ≤ length str
unfolding vcont_round
length-vcont_round ctx action str acc = go (action_thread (skip_signal action str)) refl
  where
    go :
        (o : Option ((ℤ × ℤ) × List ℕ))
        → action_thread (skip_signal action str) ≡ o
        → length (vcont_round ctx action str acc).1 ≤ length str
    go none e = rw (e, vcont_round) (omega arith)
    go (some (ids, next)) e = ground (
      arith,
      e,
      length-action_thread (skip_signal action str) e,
      length-skip_signal action str,
      length-skip_semicolon next,
    )

apply_action-ends :
    (ctx : Context) (action : ℕ) (pid tid : ℤ) (acc : Actions)
    → apply_action ctx action pid tid acc ≢ out_of_fuel
unfolding apply_action
apply_action-ends ctx action pid tid acc = ground arith

vcont_round-ends :
    (ctx : Context) (action : ℕ) (str : List ℕ) (acc : Actions)
    → (vcont_round ctx action str acc).0 ≢ out_of_fuel
unfolding vcont_round
vcont_round-ends ctx action str acc = go (action_thread (skip_signal action str)) refl
  where
    go :
        (o : Option ((ℤ × ℤ) × List ℕ))
        → action_thread (skip_signal action str) ≡ o
        → (vcont_round ctx action str acc).0 ≢ out_of_fuel
    go none e = rw (e, vcont_round) (λ h. cc)
    go (some ((pid, tid), next)) e = ground (arith, e, apply_action-ends ctx action pid tid acc)

-- As much fuel as the text has characters is enough.
pub vcont_loop-ends :
    (ctx : Context) (fuel : ℕ) (str : List ℕ) (acc : Actions)
    → length str ≤ fuel
    → vcont_loop ctx fuel str acc ≢ out_of_fuel
unfolding vcont_loop
vcont_loop-ends ctx zero [] acc h = λ e. cc
vcont_loop-ends ctx (suc fuel) [] acc h = λ e. cc
vcont_loop-ends ctx zero (action ∷ str) acc h = absurd (omega arith)
vcont_loop-ends ctx (suc fuel) (action ∷ str) acc h =
    go (vcont_round ctx action str acc).0 refl
      (λ acc'. vcont_loop-ends ctx fuel (vcont_round ctx action str acc).1 acc' shorter)
  where
    shorter : length (vcont_round ctx action str acc).1 ≤ fuel
    shorter = omega (arith, length-vcont_round ctx action str acc)

    go :
        (o : Outcome)
        → (vcont_round ctx action str acc).0 ≡ o
        → ((acc' : Actions)
            → vcont_loop ctx fuel (vcont_round ctx action str acc).1 acc' ≢ out_of_fuel)
        → vcont_loop ctx (suc fuel) (action ∷ str) acc ≢ out_of_fuel
    go (refused text) e later = rw (e, vcont_loop) (λ h. cc)
    go (parsed acc') e later = rw (e, vcont_loop) (later acc')
    go out_of_fuel e later = absurd (vcont_round-ends ctx action str acc e)

module _ {Sim : Type 0} (cb : Callbacks Sim) where
  -- What a `vCont` packet can do: it is answered and nothing runs, or the simulator is resumed.
  abbrev pub VContEffect : World Sim → World Sim × Bool → Type 0
  VContEffect w r =
      ((text : List ℕ) × (r ≡ (reply w text, false)))
      ⊎ ((acc : Actions) × (r ≡ (
        run_optional cb.resume (
            with_ctx w (record w.ctx {
              single_step = acc.any_step;
              continue_thread = if acc.any_step then acc.step_tid else acc.continue_tid;
              should_stop = false;
              stop_thread = pos 0;
            })),
        true,
      )))

  run_actions-VContEffect : (acc : Actions) (w : World Sim) → VContEffect w (run_actions cb acc w)
  unfolding run_actions
  run_actions-VContEffect acc w = elim (Bool-cases acc.have_action) [
    | inl run ↦ inr (acc, rw run)
    | inr idle ↦ inl (codes "E01", rw idle)
  ]

  vcont_actions-VContEffect :
      (str : List ℕ) (w : World Sim) → VContEffect w (vcont_actions cb str w)
  unfolding vcont_actions
  vcont_actions-VContEffect [] w = inl (codes "E01", refl)
  vcont_actions-VContEffect (c ∷ str) w =
      go (vcont_loop w.ctx (length (c ∷ str)) (c ∷ str) no_actions) refl
    where
      go :
          (o : Outcome)
          → vcont_loop w.ctx (length (c ∷ str)) (c ∷ str) no_actions ≡ o
          → VContEffect w (vcont_actions cb (c ∷ str) w)
      go (refused text) e = inl (text, rw (e, vcont_actions))
      go (parsed acc) e = rw (e, vcont_actions) (run_actions-VContEffect acc w)
      go out_of_fuel e =
          absurd (vcont_loop-ends w.ctx (length (c ∷ str)) (c ∷ str) no_actions (omega arith) e)

  -- On every packet `handle_vcont` either sends one reply, leaves the context and the simulator as
  -- they are and runs nothing, or it sets the step flag and the thread to run, clears the stop and
  -- resumes the simulator.
  pub handle_vcont-VContEffect : (w : World Sim) → VContEffect w (handle_vcont cb w)
  unfolding handle_vcont
  handle_vcont-VContEffect w =
      let packet = c_str (packet_buffer w) in
      elim (Bool-cases (str_equal packet (codes "vCont?"))) [
        | inl query ↦ inl (codes "vCont;c;C; s;S", rw query)
        | inr other ↦ elim (Bool-cases (starts_with packet (codes "vCont"))) [
          | inl actions ↦
              rw (other, actions) (vcont_actions-VContEffect (skip_semicolon (drop 5 packet)) w)
          | inr unknown ↦ inl ([], rw (other, unknown))
        ]
      ]
