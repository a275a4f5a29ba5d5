-- ===== src/Handlers/VCont/Lists.antt =====
-- Lists of actions in a `vCont` packet of src/gdb_stub.c: what they make of the step flag and the threads.
use gdb_stub.Prelude.{
  ℕ, zero, suc, ◌^◌, ◌<◌, ◌≤◌, ◌≡◌, ◌≢◌, ◌∙◌, refl, ap, Bool, true, false, some, List, [], ◌∷◌,
  ◌++◌, length, length-append, if◌then◌else◌, arith,
}
use gdb_stub.Prelude.Int.{ℤ, pos, minus_one}
use gdb_stub.Prelude.Text.{codes, str_equal, starts_with, c_str, isxdigit}
use gdb_stub.Hex.{format_hex}
use gdb_stub.Hex.Bounds.{length-format_hex}
use gdb_stub.Context.{Context}
use gdb_stub.Thread.{thread_pid_valid, resolve_continue_thread, resolve_step_thread}
use gdb_stub.Thread.RoundTrip.{AllDigits, AllDigits-format_hex, parse_thread_spec-format}
use gdb_stub.World.{World, Callbacks, with_ctx, run_optional, packet_buffer}
use gdb_stub.Handlers.VCont.{
  Actions, no_actions, parsed, skip_signal, split_spec, action_thread, apply_action, skip_semicolon,
  vcont_round, vcont_loop, run_actions, vcont_actions, handle_vcont,
}

-- an action that names a thread of process 1
pub data ThreadAction : Type 0 where
  step continue : ℕ → ThreadAction

abbrev pub thread_of : ThreadAction → ℕ
thread_of (step tid) = tid
thread_of (continue tid) = tid

abbrev pub letter : ThreadAction → ℕ
letter (step tid) = b's'
letter (continue tid) = b'c'

-- as GDB sends them, each behind a `;`
abbrev pub actions_text : List ThreadAction → List ℕ
actions_text [] = []
actions_text (a ∷ acts) =
    b';' ∷ letter a ∷ (codes ":p1." ++ (format_hex (thread_of a) ++ actions_text acts))

abbrev pub AllThreads : List ThreadAction → Type 0
AllThreads [] = Unit
AllThreads (a ∷ acts) = (0 < thread_of a) × (thread_of a < 2 ^ 31) × AllThreads acts

-- the threads of the steps and of the others, in order
abbrev pub stepped : List ThreadAction → List ℕ
stepped [] = []
stepped (step tid ∷ acts) = tid ∷ stepped acts
stepped (continue tid ∷ acts) = stepped acts

abbrev pub continued : List ThreadAction → List ℕ
continued [] = []
continued (step tid ∷ acts) = continued acts
continued (continue tid ∷ acts) = tid ∷ continued acts

-- the last of some numbers, or another value
abbrev pub last_or : ℤ → List ℕ → ℤ
last_or z [] = z
last_or z (n ∷ ns) = last_or (pos n) ns

abbrev pub some_or : Bool → List ℕ → Bool
some_or b [] = b
some_or b (n ∷ ns) = true

some_or-true : (ns : List ℕ) → some_or true ns ≡ true
some_or-true [] = refl
some_or-true (n ∷ ns) = refl

-- the variables of the loop behind the actions
abbrev after_actions : Actions → List ThreadAction → Actions
after_actions acc acts = record {
  any_step = some_or acc.any_step (stepped acts);
  step_tid = last_or acc.step_tid (stepped acts);
  continue_tid = last_or acc.continue_tid (continued acts);
  have_action = some_or (some_or acc.have_action (stepped acts)) (continued acts);
}

no_semicolon : (c : ℕ) → isxdigit c ≡ true → c ≢ b';'
unfolding isxdigit
no_semicolon c h = ground arith

split_spec-actions_text :
    (acts : List ThreadAction) → split_spec (actions_text acts) ≡ ([], actions_text acts)
unfolding split_spec
split_spec-actions_text [] = refl
split_spec-actions_text (a ∷ acts) = refl

split_spec-digits :
    (s : List ℕ) (acts : List ThreadAction)
    → AllDigits s
    → split_spec (s ++ actions_text acts) ≡ (s, actions_text acts)
unfolding split_spec
split_spec-digits [] acts h = split_spec-actions_text acts
split_spec-digits (c ∷ s) acts h = ground (arith, no_semicolon c h.0, split_spec-digits s acts h.1)

split_spec-process :
    (s : List ℕ) (acts : List ThreadAction)
    → AllDigits s
    → split_spec (codes "p1." ++ (s ++ actions_text acts)) ≡ (codes "p1." ++ s, actions_text acts)
unfolding split_spec
split_spec-process s acts h = rw (split_spec-digits s acts h)

action_thread-format :
    (tid : ℕ) (acts : List ThreadAction)
    → 0 < tid
    → tid < 2 ^ 31
    → action_thread (codes ":p1." ++ (format_hex tid ++ actions_text acts))
      ≡ some ((pos 1, pos tid), actions_text acts)
unfolding action_thread
action_thread-format tid acts h k = ground (
  arith,
  split_spec-process (format_hex tid) acts (AllDigits-format_hex tid),
  length-append {0} (codes "p1.") (format_hex tid),
  length-format_hex tid,
  (parse_thread_spec-format tid h k).0,
)

-- one action, as the variables of the loop take it
abbrev take_action : Actions → ThreadAction → Actions
take_action acc (step tid) = record acc { any_step = true; step_tid = pos tid; have_action = true }
take_action acc (continue tid) = record acc { continue_tid = pos tid; have_action = true }

apply_action-letter :
    (ctx : Context) (a : ThreadAction) (acc : Actions)
    → 0 < thread_of a
    → apply_action ctx (letter a) (pos 1) (pos (thread_of a)) acc ≡ parsed (take_action acc a)
unfolding apply_action resolve_step_thread resolve_continue_thread
apply_action-letter ctx (step tid) acc h = ground arith
apply_action-letter ctx (continue tid) acc h = ground arith

skip_signal-letter : (a : ThreadAction) (str : List ℕ) → skip_signal (letter a) str ≡ str
unfolding skip_signal
skip_signal-letter (step tid) str = refl
skip_signal-letter (continue tid) str = refl

vcont_round-letter :
    (ctx : Context) (a : ThreadAction) (acts : List ThreadAction) (acc : Actions)
    → 0 < thread_of a
    → thread_of a < 2 ^ 31
    → vcont_round ctx
        (letter a)
        (codes ":p1." ++ (format_hex (thread_of a) ++ actions_text acts))
        acc
      ≡ (parsed (take_action acc a), skip_semicolon (actions_text acts))
unfolding vcont_round thread_pid_valid
vcont_round-letter ctx a acts acc h k = ground (
  arith,
  skip_signal-letter a (codes ":p1." ++ (format_hex (thread_of a) ++ actions_text acts)),
  action_thread-format (thread_of a) acts h k,
  apply_action-letter ctx a acc h,
)

after_actions-take_action :
    (a : ThreadAction) (acts : List ThreadAction) (acc : Actions)
    → after_actions (take_action acc a) acts ≡ after_actions acc (a ∷ acts)
after_actions-take_action (step tid) acts acc = rw (some_or-true (stepped acts)) refl
after_actions-take_action (continue tid) acts acc =
    rw (some_or-true (stepped acts), some_or-true (continued acts)) refl

vcont_loop-round :
    (ctx : Context) (fuel action : ℕ) (str : List ℕ) (acc : Actions) {acc' : Actions}
    {next : List ℕ}
    → vcont_round ctx action str acc ≡ (parsed acc', next)
    → vcont_loop ctx (suc fuel) (action ∷ str) acc ≡ vcont_loop ctx fuel next acc'
unfolding vcont_loop
vcont_loop-round ctx fuel action str acc e = ground (arith, e)

vcont_loop-actions_text :
    (ctx : Context) (fuel : ℕ) (acts : List ThreadAction) (acc : Actions)
    → AllThreads acts
    → length acts ≤ fuel
    → vcont_loop ctx fuel (skip_semicolon (actions_text acts)) acc ≡ parsed (after_actions acc acts)
unfolding vcont_loop skip_semicolon
vcont_loop-actions_text ctx zero [] acc named enough = refl
vcont_loop-actions_text ctx (suc fuel) [] acc named enough = refl
vcont_loop-actions_text ctx zero (a ∷ acts) acc named enough = absurd (omega arith)
vcont_loop-actions_text ctx (suc fuel) (a ∷ acts) acc (h, k, named) enough =
    vcont_loop-round ctx fuel (letter a)
      (codes ":p1." ++ (format_hex (thread_of a) ++ actions_text acts)) acc
      (vcont_round-letter ctx a acts acc h k)
    ∙ vcont_loop-actions_text ctx fuel acts (take_action acc a) named (omega arith)
    ∙ ap parsed (after_actions-take_action a acts acc)

length-actions_text : (acts : List ThreadAction) → length acts ≤ length (actions_text acts)
length-actions_text [] = omega arith
length-actions_text (a ∷ acts) = omega (
  arith,
  length-append {0} (format_hex (thread_of a)) (actions_text acts),
  length-actions_text acts,
)

some_or-actions :
    (a : ThreadAction) (acts : List ThreadAction)
    → some_or (some_or false (stepped (a ∷ acts))) (continued (a ∷ acts)) ≡ true
some_or-actions (step tid) acts = some_or-true (continued acts)
some_or-actions (continue tid) acts = refl

-- the context on which the simulator runs: it steps if any action is a step, and then the thread of the last
-- step may run, and else the thread of the last action
abbrev pub running : List ThreadAction → Context → Context
running acts ctx = record ctx {
  single_step = some_or false (stepped acts);
  continue_thread =
      if some_or false (stepped acts)
      then last_or minus_one (stepped acts)
      else last_or minus_one (continued acts);
  should_stop = false;
  stop_thread = pos 0;
}

module _ {Sim : Type 0} (cb : Callbacks Sim) where
  vcont_actions-actions_text :
      (w : World Sim) (a : ThreadAction) (acts : List ThreadAction)
      → AllThreads (a ∷ acts)
      → vcont_actions cb (skip_semicolon (actions_text (a ∷ acts))) w
        ≡ (run_optional cb.resume (with_ctx w (running (a ∷ acts) w.ctx)), true)
  unfolding vcont_actions run_actions skip_semicolon
  vcont_actions-actions_text w a acts named =
      rw
        (
          vcont_actions,
          vcont_loop-actions_text w.ctx (length (skip_semicolon (actions_text (a ∷ acts))))
              (a ∷ acts) no_actions named
              (omega (
                arith,
                length-append {0} (format_hex (thread_of a)) (actions_text acts),
                length-actions_text acts,
              )),
          some_or-actions a acts,
        )
        refl

  -- A `vCont` packet of one or more actions `s` and `c`, each with a thread from 1 to 2 ^ 31 - 1 of process 1, resumes
  -- the simulator, with no stop pending: the step flag is on exactly if some action is a step, and the one thread that
  -- may run is that of the last step, or where there is none, that of the last action.
  pub handle_vcont-actions_text :
      (w : World Sim) (a : ThreadAction) (acts : List ThreadAction)
      → AllThreads (a ∷ acts)
      → c_str (packet_buffer w) ≡ codes "vCont" ++ actions_text (a ∷ acts)
      → handle_vcont cb w ≡ (run_optional cb.resume (with_ctx w (running (a ∷ acts) w.ctx)), true)
  unfolding handle_vcont str_equal starts_with
  handle_vcont-actions_text w a acts named e =
      rw (handle_vcont, e) (vcont_actions-actions_text w a acts named)
