-- ===== src/Handlers/VCont.antt =====
-- `handle_vcont` of src/gdb_stub.c.
pub mod Laws
pub mod Step
pub mod Lists
use gdb_stub.Prelude.{
  ℕ, zero, suc, Bool, true, false, not, ◌&&◌, ◌||◌, Option, none, some, List, [], ◌∷◌, drop, length,
  leb, ◌==◌, if◌then◌else◌,
}
use gdb_stub.Prelude.Int.{ℤ, pos, eqb_ℤ, minus_one, minus_two}
use gdb_stub.Prelude.Text.{codes, c_str, str_equal, starts_with, isxdigit}
use gdb_stub.Context.{Context}
use gdb_stub.Thread.{
  thread_pid_valid, parse_thread_spec, resolve_continue_thread, resolve_step_thread,
}
use gdb_stub.World.{World, Callbacks, reply, with_ctx, run_optional, packet_buffer}

-- the local variables of the loop
pub record Actions : Type 0 where
  pub any_step : Bool
  pub step_tid : ℤ
  pub continue_tid : ℤ
  pub have_action : Bool

abbrev pub no_actions : Actions
no_actions = record {
  any_step = false;
  step_tid = minus_one;
  continue_tid = minus_one;
  have_action = false;
}

-- how the loop ends: with an error reply, with its variables, or without fuel
pub data Outcome : Type 0 where
  refused : List ℕ → Outcome
  parsed : Actions → Outcome
  out_of_fuel : Outcome

-- `isxdigit(actions[0]) && isxdigit(actions[1])`, then `actions += 2`
unfoldable pub skip_two_digits : List ℕ → List ℕ
skip_two_digits (a ∷ b ∷ str) = if isxdigit a && isxdigit b then str else a ∷ b ∷ str
skip_two_digits str = str

-- the signal number behind `C`, `S` and `T`
unfoldable pub skip_signal : ℕ → List ℕ → List ℕ
skip_signal action str =
    if action == b'C' || action == b'S' || action == b'T' then skip_two_digits str else str

-- the text up to the next `;`, and the text from there on
unfoldable pub split_spec : List ℕ → List ℕ × List ℕ
split_spec [] = ([], [])
split_spec (c ∷ str) =
    let (spec, next) = split_spec str in if c == b';' then ([], c ∷ str) else (c ∷ spec, next)

-- The thread of an action and the text behind it; `none` where the thread is 32 bytes or longer.
unfoldable pub action_thread : List ℕ → Option ((ℤ × ℤ) × List ℕ)
action_thread [] = some ((pos 0, minus_one), [])
action_thread (c ∷ str) =
    let (spec, next) = split_spec str in
    if c == b':'
    then (if leb 32 (length spec) then none else some (parse_thread_spec spec, next))
    else some ((pos 0, minus_one), c ∷ str)

-- the `switch` on the action: what it makes of the variables, or an error reply
unfoldable pub apply_action : Context → ℕ → ℤ → ℤ → Actions → Outcome
apply_action ctx action pid tid acc =
    let ct = resolve_continue_thread pid tid in
    let st = resolve_step_thread ctx pid tid in
    if action == b'c' || action == b'C'
    then (if eqb_ℤ ct minus_two
        then refused (codes "E01")
        else parsed (record acc { continue_tid = ct; have_action = true }))
    else if action == b's' || action == b'S' || action == b't' || action == b'T'
    then (if eqb_ℤ st minus_two
        then refused (codes "E01")
        else parsed (record acc { any_step = true; step_tid = st; have_action = true }))
    else refused []

-- `if (*actions == ';') actions++`
unfoldable pub skip_semicolon : List ℕ → List ℕ
skip_semicolon [] = []
skip_semicolon (c ∷ str) = if c == b';' then str else c ∷ str

-- one round: the variables and the text that is left, or the end
unfoldable pub vcont_round : Context → ℕ → List ℕ → Actions → Outcome × List ℕ
vcont_round ctx action str acc = elim (action_thread (skip_signal action str)) [
  | none ↦ (refused (codes "E01"), [])
  | some ((pid, tid), next) ↦
      if thread_pid_valid pid
      then (apply_action ctx action pid tid acc, skip_semicolon next)
      else (refused (codes "E01"), [])
]

-- The loop. A round takes at least one character, so the length of the text is enough fuel.
unfoldable pub vcont_loop : Context → ℕ → List ℕ → Actions → Outcome
vcont_loop ctx fuel [] acc = parsed acc
vcont_loop ctx zero (action ∷ str) acc = out_of_fuel
vcont_loop ctx (suc fuel) (action ∷ str) acc =
    let (outcome, next) = vcont_round ctx action str acc in
    elim outcome [
      | refused text ↦ refused text
      | parsed acc' ↦ vcont_loop ctx fuel next acc'
      | out_of_fuel ↦ out_of_fuel
    ]

module _ {Sim : Type 0} (cb : Callbacks Sim) where
  -- the end of `handle_vcont`, with `*run_cpu`
  unfoldable pub run_actions : Actions → World Sim → World Sim × Bool
  run_actions acc w =
      if acc.have_action
      then (
        run_optional cb.resume (
            with_ctx w (record w.ctx {
              single_step = acc.any_step;
              continue_thread = if acc.any_step then acc.step_tid else acc.continue_tid;
              should_stop = false;
              stop_thread = pos 0;
            })),
        true,
      )
      else (reply w (codes "E01"), false)

  -- the actions behind `vCont;`
  unfoldable pub vcont_actions : List ℕ → World Sim → World Sim × Bool
  vcont_actions [] w = (reply w (codes "E01"), false)
  vcont_actions (c ∷ str) w = elim (vcont_loop w.ctx (length (c ∷ str)) (c ∷ str) no_actions) [
    | refused text ↦ (reply w text, false)
    | parsed acc ↦ run_actions acc w
    | out_of_fuel ↦ (w, false)
  ]

  unfoldable pub handle_vcont : World Sim → World Sim × Bool
  handle_vcont w =
      let packet = c_str (packet_buffer w) in
      if str_equal packet (codes "vCont?")
      then (reply w (codes "vCont;c;C; s;S"), false)
      else if starts_with packet (codes "vCont")
      then vcont_actions (skip_semicolon (drop 5 packet)) w
      else (reply w [], false)
