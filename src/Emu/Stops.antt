-- ===== src/Emu/Stops.antt =====
-- How `continue_all_harts` of emu/main.c ends.
mod Rounds
pub mod Interrupt
use gdb_stub.Prelude.{
  subst, Sum-cases, ℕ, zero, suc, ◌+◌, ◌<◌, ◌≡◌, ◌⊎◌, inl, inr, refl, Bool, true, false, not, ◌||◌,
  Bool-cases, ==_iff, some, List, [], ◌∷◌, get_elem?, ◌==◌, if◌then◌else◌, ltb, ap, ap₂, ◌∙◌, ◌++◌,
  ◌%◌, ◌^◌, arith,
}
use gdb_stub.Stop.{
  gdb_stub_send_stop_reason, stop_reason, stop_text, stop_detail, format_addr, format_int,
}
use gdb_stub.Stop.Format.{format_stop_reply-fits}
use gdb_stub.Packet.{send_packet}
use gdb_stub.Prelude.Int.{pos}
use gdb_stub.Prelude.Text.{codes, to_unsigned}
use gdb_stub.Hex.{rv32, format_hex, format_hex_width}
use gdb_stub.Context.{Context}
use gdb_stub.Breakpoints.{gdb_stub_check_breakpoint}
use gdb_stub.Thread.{gdb_stub_set_stop_thread}
use gdb_stub.World.{World, with_ctx}
use gdb_stub.Emu.Cpu.{Cpu}
use gdb_stub.Emu.System.{System, Hooks, can_step}
use gdb_stub.Emu.Board.{any_hart, sys_any_running, sys_halt_all, stop_at_focus, sys_cpu_step}
use gdb_stub.Emu.Run.{
  should_step_hart, in_world, Poll, LoopEnd, loop_round, continue_hart, handle_hart_stop, loop_done,
  continue_loop, continue_round, finish_continue, continue_all_harts, notify_stop, sigint_handler,
}
use gdb_stub.Emu.Stops.Rounds.{notify_stop-should_stop, continue_round-Stopped}

abbrev round_end {ℓ κ} : {A : Type ℓ} {B : Type κ} → Bool → Bool → Bool → A → A → A → B → A ⊎ B
round_end done stopped readable x y z b =
    if done then inl x else if stopped then inl y else if readable then inl z else inr b

round_end_ends {ℓ κ} :
    {A : Type ℓ} {B : Type κ} (done stopped readable : Bool) (x y z : A) (b : B)
    → (done || readable) ≡ true
    → (end : A) × (round_end done stopped readable x y z b ≡ inl end)
round_end_ends true stopped readable x y z b h = (x, refl)
round_end_ends false true readable x y z b h = (y, refl)
round_end_ends false false true x y z b h = (z, refl)
round_end_ends false false false x y z b h = absurd (ground arith)

done_or_readable : (r c s i p : Bool) → (i || r) ≡ true → ((not c || s || (i || p)) || r) ≡ true
done_or_readable r c s i p h = ground arith

loop_round_ends :
    (poll : Poll) (pending : Bool) (w : World System)
    → (poll.interrupt || poll.readable) ≡ true
    → (end : LoopEnd) × (loop_round poll pending w ≡ inl end)
unfolding loop_round
loop_round_ends poll pending w h =
    let seen = if poll.interrupt then sigint_handler w else w in
    let received = poll.interrupt || pending in
    let round = continue_round seen.sim.num_harts 0 seen in
    round_end_ends (loop_done received seen) round.0 poll.readable (false, received, seen)
      (true, received, round.1)
      (false, received, with_ctx round.1 (record round.1.ctx { should_stop = true })) round.1
      (done_or_readable poll.readable (sys_any_running seen.sim) seen.ctx.should_stop poll.interrupt
        pending h)

-- what the `while` loop leaves to the reports behind it
abbrev EndsWell : LoopEnd → Type 0
EndsWell end =
    (end.0 ≡ true → end.2.ctx.should_stop ≡ true) × (end.0 ≡ false → loop_done end.1 end.2 ≡ true)

abbrev IfEnds {ℓ κ} : {A : Type ℓ} {B : Type κ} → (A → Type 0) → A ⊎ B → Type 0
IfEnds P (inl a) = P a
IfEnds P (inr b) = Unit

IfEnds-round_end :
    (done stopped readable : Bool) (x y z : LoopEnd) (b : World System)
    → (done ≡ true → EndsWell x)
    → (stopped ≡ true → EndsWell y)
    → EndsWell z
    → IfEnds EndsWell (round_end done stopped readable x y z b)
IfEnds-round_end true stopped readable x y z b p q r = p refl
IfEnds-round_end false true readable x y z b p q r = q refl
IfEnds-round_end false false true x y z b p q r = r
IfEnds-round_end false false false x y z b p q r = tt

true_or : (a b c : Bool) → b ≡ true → (a || b || c) ≡ true
true_or a b c h = ground arith

loop_round-IfEnds :
    (poll : Poll) (pending : Bool) (w : World System) → IfEnds EndsWell (loop_round poll pending w)
unfolding loop_round
loop_round-IfEnds poll pending w =
    let seen = if poll.interrupt then sigint_handler w else w in
    let received = poll.interrupt || pending in
    let round = continue_round seen.sim.num_harts 0 seen in
    let told = with_ctx round.1 (record round.1.ctx { should_stop = true }) in
    IfEnds-round_end (loop_done received seen) round.0 poll.readable (false, received, seen)
      (true, received, round.1) (false, received, told) round.1
      (λ d. ((λ e. absurd (ground arith)), λ e. d))
      (λ s. (
        (λ e. (continue_round-Stopped seen.sim.num_harts 0 seen).stops s),
        λ e. absurd (ground arith),
      ))
      ((λ e. refl), λ e. true_or (not (sys_any_running round.1.sim)) true received refl)

finish_continue-should_stop :
    (end : LoopEnd) → EndsWell end → (finish_continue end).1.ctx.should_stop ≡ true
unfolding finish_continue
finish_continue-should_stop (true, received, w) (p, q) = p refl
finish_continue-should_stop (false, received, w) (p, q) =
    let pc = (w.sim.harts w.sim.focus_hart).pc in
    let stopping = with_ctx w (record w.ctx { should_stop = true }) in
    ground (
      arith,
      q refl,
      notify_stop-should_stop stopping 4 pc,
      notify_stop-should_stop stopping 2 pc,
      notify_stop-should_stop w 2 pc,
    )

ends_well :
    (p : Poll) (pending : Bool) (w : World System) (end : LoopEnd)
    → loop_round p pending w ≡ inl end
    → EndsWell end
ends_well p pending w end e = subst (IfEnds EndsWell) e (loop_round-IfEnds p pending w)

continue_loop_ends :
    (polls : List Poll) (pending : Bool) (w : World System) (i : ℕ) (poll : Poll)
    → get_elem? polls i ≡ some poll
    → (poll.interrupt || poll.readable) ≡ true
    → (end : LoopEnd) × (continue_loop polls pending w ≡ some end) × EndsWell end
unfolding continue_loop
continue_loop_ends [] pending w i poll m h = absurd (ground arith)
continue_loop_ends (p ∷ polls) pending w zero poll m h =
    let (end, e) = loop_round_ends p pending w (ground arith) in
    (end, rw (continue_loop, e) refl, ends_well p pending w end e)
continue_loop_ends (p ∷ polls) pending w (suc i) poll m h =
    elim (Sum-cases (loop_round p pending w)) [
      | inl (end, e) ↦ (end, rw (continue_loop, e) refl, ends_well p pending w end e)
      | inr (after, e) ↦
          let (end, rest, well) =
            continue_loop_ends polls (p.interrupt || pending) after i poll m h in
          (end, rw (continue_loop, e) rest, well)
    ]

-- `continue_all_harts` returns, with the context told to stop, if in some round of its loop a SIGINT
-- comes or the client's socket is readable, whatever the harts do.
pub continue_all_harts_ends :
    (polls : List Poll) (pending : Bool) (w : World System) (i : ℕ) (poll : Poll)
    → get_elem? polls i ≡ some poll
    → (poll.interrupt || poll.readable) ≡ true
    → (r : Bool × World System) × (continue_all_harts polls pending w ≡ some r)
      × (r.1.ctx.should_stop ≡ true)
unfolding continue_all_harts
continue_all_harts_ends polls pending w i poll m h =
    let (end, e, well) = continue_loop_ends polls pending w i poll m h in
    (finish_continue end, rw (continue_all_harts, e) refl, finish_continue-should_stop end well)
