-- ===== src/Thread.antt =====
-- The thread functions of src/gdb_stub.c. An `int` is an integer; a thread is named by the 1-based
-- number of its hart, and -1 and -2 are the source's marks for all harts and for an error.
pub mod RoundTrip
use gdb_stub.Prelude.{
  ℕ, suc, ◌+◌, Bool, true, false, ◌||◌, Option, none, some, List, [], ◌∷◌, drop, ltb, ◌==◌,
  if◌then◌else◌,
}
use gdb_stub.Prelude.Int.{ℤ, pos, negsuc, eqb_ℤ, minus_one, minus_two}
use gdb_stub.Prelude.Text.{codes, strchr, str_equal, strtol, long_to_int}
use gdb_stub.Context.{Context}

-- `GDB_STUB_PID`
abbrev pub gdb_stub_pid : ℤ
gdb_stub_pid = pos 1

-- `z >= 1`
abbrev pub is_positive : ℤ → Bool
is_positive (pos n) = ltb 0 n
is_positive (negsuc n) = false

-- `z < 0`
abbrev pub is_negative : ℤ → Bool
is_negative (pos n) = false
is_negative (negsuc n) = true

unfoldable pub thread_pid_valid : ℤ → Bool
thread_pid_valid pid = eqb_ℤ pid (pos 0) || eqb_ℤ pid gdb_stub_pid

-- `(int)strtol(str, NULL, 16)`
unfoldable pub parse_id : List ℕ → ℤ
unfolding strtol long_to_int
parse_id str = long_to_int (strtol str)

-- the last part of `parse_thread_spec`, behind the `p`: process and thread
unfoldable pub parse_ids : List ℕ → ℤ × ℤ
unfolding strchr parse_id
parse_ids str = elim (strchr str b'.') [
  | some dot ↦ (parse_id str, parse_id (drop (dot + 1) str))
  | none ↦ (pos 0, parse_id str)
]

-- Process and thread; the function's result is always 0.
unfoldable pub parse_thread_spec : List ℕ → ℤ × ℤ
unfolding parse_ids str_equal
parse_thread_spec [] = (pos 0, minus_one)
parse_thread_spec (c ∷ str) =
    if str_equal (c ∷ str) (codes "-1")
    then (pos 0, minus_one)
    else if c == b'p' || c == b'P'
    then parse_ids str
    else parse_ids (c ∷ str)

unfoldable pub resolve_continue_thread : ℤ → ℤ → ℤ
unfolding thread_pid_valid
resolve_continue_thread pid tid =
    if thread_pid_valid pid then (if is_positive tid then tid else minus_one) else minus_two

unfoldable pub resolve_step_thread : Context → ℤ → ℤ → ℤ
unfolding resolve_continue_thread
resolve_step_thread ctx pid tid =
    let ct = resolve_continue_thread pid tid in
    if eqb_ℤ ct minus_two then minus_two else if is_positive ct then ct else ctx.current_thread

unfoldable pub gdb_stub_set_stop_thread : Context → ℤ → Context
gdb_stub_set_stop_thread ctx thread_id =
    if is_positive thread_id
    then record ctx { stop_thread = thread_id }
    else if is_positive ctx.current_thread
    then record ctx { stop_thread = ctx.current_thread }
    else record ctx { stop_thread = pos 1 }

unfoldable pub gdb_stub_should_run_thread : Context → ℤ → Bool
gdb_stub_should_run_thread ctx thread_id =
    if is_negative ctx.continue_thread then true else eqb_ℤ ctx.continue_thread thread_id
