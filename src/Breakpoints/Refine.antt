-- ===== src/Breakpoints/Refine.antt =====
-- The breakpoint table of src/gdb_stub.c against its contract: a set of addresses. The contract
-- forgets the slots, their order and the disabled entries.
use mathlib.Core.Path.{fun_ext, Σ_path}
use gdb_stub.Prelude.{
  ℕ, ◌+◌, ◌≤◌, ◌≡◌, refl, Bool, true, false, List, [], ◌∷◌, length, map, ap, ◌∙◌, ◌==◌,
  if◌then◌else◌, arith,
}
use gdb_stub.Prelude.Int.{pos, minus_one}
use gdb_stub.Context.{Context, max_breakpoints}
use gdb_stub.Breakpoints.{
  gdb_stub_add_breakpoint, gdb_stub_remove_breakpoint, gdb_stub_clear_breakpoints,
}
use gdb_stub.Breakpoints.Laws.{
  IsValid, stops_at, gdb_stub_add_breakpoint-IsValid, gdb_stub_remove_breakpoint-IsValid,
  stops_at-gdb_stub_add_breakpoint, stops_at-gdb_stub_remove_breakpoint,
  gdb_stub_add_breakpoint-full, stops_at-gdb_stub_clear_breakpoints,
}

-- what a debugger asks of the table
pub data Request : Type 0 where
  insert remove : ℕ → Request
  clear : Request

abbrev pub perform : Context → Request → Context
perform ctx (insert addr) = (gdb_stub_add_breakpoint ctx addr).0
perform ctx (remove addr) = (gdb_stub_remove_breakpoint ctx addr).0
perform ctx clear = gdb_stub_clear_breakpoints ctx

unfoldable pub perform_all : Context → List Request → Context
perform_all ctx [] = ctx
perform_all ctx (r ∷ rs) = perform_all (perform ctx r) rs

-- the same on a set of addresses, given by its test
abbrev pub request_set : (ℕ → Bool) → Request → ℕ → Bool
request_set s (insert addr) pc = if addr == pc then true else s pc
request_set s (remove addr) pc = if addr == pc then false else s pc
request_set s clear pc = false

unfoldable pub request_set_all : (ℕ → Bool) → List Request → ℕ → Bool
request_set_all s [] = s
request_set_all s (r ∷ rs) = request_set_all (request_set s r) rs

perform-IsValid : (ctx : Context) (r : Request) → IsValid ctx → IsValid (perform ctx r)
perform-IsValid ctx (insert addr) v = gdb_stub_add_breakpoint-IsValid ctx addr v
perform-IsValid ctx (remove addr) v = (gdb_stub_remove_breakpoint-IsValid ctx addr v).0
perform-IsValid ctx clear v = (stops_at-gdb_stub_clear_breakpoints ctx 0 v).0

breakpoint_count-perform :
    (ctx : Context) (r : Request) → (perform ctx r).breakpoint_count ≤ ctx.breakpoint_count + 1
unfolding gdb_stub_add_breakpoint gdb_stub_remove_breakpoint gdb_stub_clear_breakpoints
breakpoint_count-perform ctx (insert addr) = ground arith
breakpoint_count-perform ctx (remove addr) = ground arith
breakpoint_count-perform ctx clear = omega arith

pub gdb_stub_add_breakpoint-room :
    (ctx : Context) (addr : ℕ)
    → ctx.breakpoint_count + 1 ≤ max_breakpoints
    → (gdb_stub_add_breakpoint ctx addr).1 ≡ pos 0
unfolding gdb_stub_add_breakpoint
gdb_stub_add_breakpoint-room ctx addr h = ground arith

stops_at-perform :
    (ctx : Context) (r : Request)
    → IsValid ctx
    → ctx.breakpoint_count + 1 ≤ max_breakpoints
    → (pc : ℕ) → stops_at (perform ctx r) pc ≡ request_set (stops_at ctx) r pc
stops_at-perform ctx (insert addr) v h pc =
    stops_at-gdb_stub_add_breakpoint ctx addr v (gdb_stub_add_breakpoint-room ctx addr h) pc
stops_at-perform ctx (remove addr) v h pc = stops_at-gdb_stub_remove_breakpoint ctx addr v pc
stops_at-perform ctx clear v h pc = (stops_at-gdb_stub_clear_breakpoints ctx pc v).1

-- From a valid table with a free slot for each request, any sequence of insertions, removals and
-- resets leaves a valid table that stops the program exactly at the addresses of the set on which
-- the same requests were made.
pub perform_all_refines :
    (rs : List Request) (ctx : Context)
    → IsValid ctx
    → ctx.breakpoint_count + length rs ≤ max_breakpoints
    → IsValid (perform_all ctx rs)
      × ((pc : ℕ) → stops_at (perform_all ctx rs) pc ≡ request_set_all (stops_at ctx) rs pc)
unfolding perform_all request_set_all
perform_all_refines [] ctx v h = (v, λ pc. refl)
perform_all_refines (r ∷ rs) ctx v h =
    let next =
      perform_all_refines rs (perform ctx r) (perform-IsValid ctx r v)
        (omega (arith, breakpoint_count-perform ctx r)) in
    (
      next.0,
      λ pc.
          next.1 pc
          ∙ ap (λ (s : ℕ → Bool). request_set_all s rs pc)
              (fun_ext (stops_at-perform ctx r v (omega arith))),
    )

-- Removal frees no slot: once all slots of a valid table have been used, every insertion fails and changes
-- nothing, also after any sequence of removals.
pub gdb_stub_add_breakpoint-exhausted :
    (addrs : List ℕ) (ctx : Context) (addr : ℕ)
    → IsValid ctx
    → ctx.breakpoint_count ≡ max_breakpoints
    → gdb_stub_add_breakpoint (perform_all ctx (map remove addrs)) addr
      ≡ (perform_all ctx (map remove addrs), minus_one)
unfolding perform_all
gdb_stub_add_breakpoint-exhausted [] ctx addr v full =
    Σ_path ((gdb_stub_add_breakpoint-full ctx addr v).1 full)
      ((gdb_stub_add_breakpoint-full ctx addr v).0.1 full)
gdb_stub_add_breakpoint-exhausted (a ∷ addrs) ctx addr v full =
    let (v', same) = gdb_stub_remove_breakpoint-IsValid ctx a v in
    gdb_stub_add_breakpoint-exhausted addrs (gdb_stub_remove_breakpoint ctx a).0 addr v'
      (same ∙ full)
