-- ===== src/Emu/Run/Main.antt =====
-- The loop of `main` of emu/main.c.
use gdb_stub.Prelude.{
  ◌&&◌, ℕ, Bool, true, false, not, ◌||◌, Option, none, some, List, [], ◌∷◌, ◌==◌, if◌then◌else◌,
}
use gdb_stub.Prelude.Int.{pos, negsuc}
use gdb_stub.Hex.{rv32}
use gdb_stub.World.{World}
use gdb_stub.Process.{gdb_stub_process}
use gdb_stub.Emu.System.{System}
use gdb_stub.Emu.Board.{sys_resume_runnable}
use gdb_stub.Emu.Callbacks.{callbacks}
use gdb_stub.Emu.Run.{Poll, in_world, step_focus_hart, continue_all_harts}

-- the body of the loop of `main` without its interactive part: whether the loop goes on,
-- `g_interrupt_received`, and the world
unfoldable pub main_round :
    Bool → ℕ → List Poll → Bool → World System → Option (Bool × Bool × World System)
unfolding gdb_stub_process step_focus_hart continue_all_harts
main_round debug_mode fuel polls pending w = elim (gdb_stub_process rv32 callbacks fuel w) [
  | none ↦ none
  | some (negsuc n, after) ↦ some (false, pending, after)
  | some (pos result, after) ↦
      let resumed = in_world sys_resume_runnable after in
      if not (result == 1)
      then some (true, pending, after)
      else if resumed.ctx.single_step
      then some (true, pending, step_focus_hart debug_mode resumed)
      else elim (continue_all_harts polls pending resumed) [
        | none ↦ none
        | some (received, stopped) ↦ some (true, received, stopped)
      ]
]

-- what a round of the loop of `main` meets: the rounds of `continue_all_harts`, and whether the user
-- types `q` if asked
pub record Round : Type 0 where
  pub polls : List Poll
  pub quit : Bool

-- `gdb_result == 1`, as the round's result shows it: the harts were resumed
abbrev pub resumes : ℕ → World System → Bool
resumes fuel w = elim (gdb_stub_process rv32 callbacks fuel w) [
  | none ↦ false
  | some (pos result, after) ↦ result == 1
  | some (negsuc n, after) ↦ false
]

-- the loop of `main`, with `cpu_was_running` and `g_interrupt_received`; it still runs when it has
-- used up the rounds
unfoldable pub main_loop :
    (interactive_mode debug_mode : Bool)
    → ℕ
    → List Round
    → Bool
    → Bool
    → World System
    → Option (World System)
unfolding main_round
main_loop interactive_mode debug_mode fuel [] was_running pending w = none
main_loop interactive_mode debug_mode fuel (round ∷ rounds) was_running pending w =
    elim w.ctx.stub.connected [
      | false ↦ some w
      | true ↦ elim (main_round debug_mode fuel round.polls pending w) [
        | none ↦ none
        | some (false, received, after) ↦ some after
        | some (true, received, after) ↦
            let ran = was_running || resumes fuel w in
            elim (interactive_mode && ran && after.ctx.should_stop && round.quit) [
              | true ↦ some after
              | false ↦ main_loop interactive_mode debug_mode fuel rounds ran received after
            ]
      ]
    ]
