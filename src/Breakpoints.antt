-- ===== src/Breakpoints.antt =====
-- The breakpoint functions of src/gdb_stub.c. Each returns the new context and its `int` or `bool`.
pub mod Laws
pub mod Refine
use gdb_stub.Prelude.{
  ℕ, suc, ◌+◌, Bool, true, false, ◌&&◌, Option, none, some, List, set, leb, ◌==◌, if◌then◌else◌,
}
use gdb_stub.Prelude.Int.{ℤ, pos, minus_one}
use gdb_stub.Slots.{find_slot, update_slot}
use gdb_stub.Context.{Context, Breakpoint, max_breakpoints}

abbrev pub breakpoint_addr : Breakpoint → ℕ
breakpoint_addr b = b.addr

abbrev pub breakpoint_enabled : Breakpoint → Bool
breakpoint_enabled b = b.enabled

abbrev pub enable_breakpoint : Bool → Breakpoint → Breakpoint
enable_breakpoint on b = record b { enabled = on }

-- `ctx->breakpoints[i].addr == addr`
abbrev pub at_addr : ℕ → Breakpoint → Bool
at_addr addr b = breakpoint_addr b == addr

unfoldable pub gdb_stub_add_breakpoint : Context → ℕ → Context × ℤ
unfolding find_slot update_slot
gdb_stub_add_breakpoint ctx addr =
    if leb max_breakpoints ctx.breakpoint_count
    then (ctx, minus_one)
    else elim (find_slot (at_addr addr) ctx.breakpoint_count ctx.breakpoints) [
      | some b ↦ (
        record ctx {
          breakpoints =
              update_slot (at_addr addr) (enable_breakpoint true) ctx.breakpoint_count
                ctx.breakpoints;
        },
        pos 0,
      )
      | none ↦ (
        record ctx {
          breakpoints =
              set ctx.breakpoints ctx.breakpoint_count (record { addr = addr; enabled = true });
          breakpoint_count = suc ctx.breakpoint_count;
        },
        pos 0,
      )
    ]

unfoldable pub gdb_stub_remove_breakpoint : Context → ℕ → Context × ℤ
unfolding find_slot update_slot
gdb_stub_remove_breakpoint ctx addr =
    elim (find_slot (at_addr addr) ctx.breakpoint_count ctx.breakpoints) [
      | some b ↦ (
        record ctx {
          breakpoints =
              update_slot (at_addr addr) (enable_breakpoint false) ctx.breakpoint_count
                ctx.breakpoints;
        },
        pos 0,
      )
      | none ↦ (ctx, minus_one)
    ]

unfoldable pub gdb_stub_clear_breakpoints : Context → Context
gdb_stub_clear_breakpoints ctx = record ctx { breakpoint_count = 0 }

unfoldable pub gdb_stub_check_breakpoint : Context → ℕ → Context × Bool
unfolding find_slot
gdb_stub_check_breakpoint ctx pc =
    elim (find_slot (λ b. b.enabled && at_addr pc b) ctx.breakpoint_count ctx.breakpoints) [
      | some b ↦ (record ctx { breakpoint_hit = true }, true)
      | none ↦ (ctx, false)
    ]
