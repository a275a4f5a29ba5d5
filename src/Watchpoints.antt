-- ===== src/Watchpoints.antt =====
-- The watchpoint functions of src/gdb_stub.c, and `ranges_overlap`.
pub mod Overlap
pub mod Laws
pub mod Check
use gdb_stub.Prelude.{
  ℕ, suc, ◌+◌, ◌%◌, ◌^◌, Bool, true, false, ◌&&◌, ◌||◌, Option, none, some, List, set, leb, ltb,
  ◌==◌, if◌then◌else◌,
}
use gdb_stub.Prelude.Int.{ℤ, pos, minus_one}
use gdb_stub.Slots.{find_slot, update_slot}
use gdb_stub.Context.{
  Context, Watchpoint, WatchpointType, watchpoint_write, watchpoint_read, watchpoint_access,
  max_watchpoints,
}

-- The sums are `uint64_t` sums in both builds.
unfoldable pub ranges_overlap : ℕ → ℕ → ℕ → ℕ → Bool
ranges_overlap addr1 len1 addr2 len2 =
    if len1 == 0 || len2 == 0
    then false
    else let end1 = (addr1 + len1) % 2 ^ 64 in
      let end2 = (addr2 + len2) % 2 ^ 64 in ltb addr1 end2 && ltb addr2 end1

abbrev pub same_type : WatchpointType → WatchpointType → Bool
same_type watchpoint_write watchpoint_write = true
same_type watchpoint_read watchpoint_read = true
same_type watchpoint_access watchpoint_access = true
same_type _ _ = false

-- the three values by which a watchpoint is looked up
abbrev pub WatchpointKey : Type 0
WatchpointKey = ℕ × ℕ × WatchpointType

abbrev pub watchpoint_key : Watchpoint → WatchpointKey
watchpoint_key w = (w.addr, w.len, w.type)

abbrev pub same_key : WatchpointKey → WatchpointKey → Bool
same_key k j = k.0 == j.0 && k.1 == j.1 && same_type k.2 j.2

abbrev pub watchpoint_enabled : Watchpoint → Bool
watchpoint_enabled w = w.enabled

abbrev pub enable_watchpoint : Bool → Watchpoint → Watchpoint
enable_watchpoint on w = record w { enabled = on }

abbrev pub at_key : WatchpointKey → Watchpoint → Bool
at_key k w = same_key (watchpoint_key w) k

-- the body of `gdb_stub_add_watchpoint` behind its default for `len`
unfoldable pub add_watchpoint_at : Context → WatchpointKey → Context × ℤ
unfolding find_slot update_slot
add_watchpoint_at ctx k =
    if leb max_watchpoints ctx.watchpoint_count
    then (ctx, minus_one)
    else elim (find_slot (at_key k) ctx.watchpoint_count ctx.watchpoints) [
      | some w ↦ (
        record ctx {
          watchpoints =
              update_slot (at_key k) (enable_watchpoint true) ctx.watchpoint_count ctx.watchpoints;
        },
        pos 0,
      )
      | none ↦ (
        record ctx {
          watchpoints =
              set ctx.watchpoints ctx.watchpoint_count
                (record { addr = k.0; len = k.1; type = k.2; enabled = true });
          watchpoint_count = suc ctx.watchpoint_count;
        },
        pos 0,
      )
    ]

unfoldable pub gdb_stub_add_watchpoint : Context → ℕ → ℕ → WatchpointType → Context × ℤ
unfolding add_watchpoint_at
gdb_stub_add_watchpoint ctx addr len type =
    add_watchpoint_at ctx (addr, (if len == 0 then 4 else len), type)

unfoldable pub gdb_stub_remove_watchpoint : Context → ℕ → ℕ → WatchpointType → Context × ℤ
unfolding find_slot update_slot
gdb_stub_remove_watchpoint ctx addr len type =
    elim (find_slot (at_key (addr, len, type)) ctx.watchpoint_count ctx.watchpoints) [
      | some w ↦ (
        record ctx {
          watchpoints =
              update_slot (at_key (addr, len, type)) (enable_watchpoint false) ctx.watchpoint_count
                ctx.watchpoints;
        },
        pos 0,
      )
      | none ↦ (ctx, minus_one)
    ]

unfoldable pub gdb_stub_clear_watchpoints : Context → Context
gdb_stub_clear_watchpoints ctx = record ctx { watchpoint_count = 0 }

abbrev pub sees_read : WatchpointType → Bool
sees_read watchpoint_write = false
sees_read _ = true

abbrev pub sees_write : WatchpointType → Bool
sees_write watchpoint_read = false
sees_write _ = true

-- the two checks differ in the types that they pass over
unfoldable pub check_watchpoint : (WatchpointType → Bool) → Context → ℕ → ℕ → Context × Bool
unfolding find_slot ranges_overlap
check_watchpoint sees ctx addr len =
    elim (find_slot (λ w. w.enabled && sees w.type && ranges_overlap addr len w.addr w.len)
      ctx.watchpoint_count ctx.watchpoints) [
        | some w ↦ (record ctx { last_watchpoint_addr = w.addr }, true)
        | none ↦ (ctx, false)
      ]

unfoldable pub gdb_stub_check_watchpoint_read : Context → ℕ → ℕ → Context × Bool
unfolding check_watchpoint
gdb_stub_check_watchpoint_read = check_watchpoint sees_read

unfoldable pub gdb_stub_check_watchpoint_write : Context → ℕ → ℕ → Context × Bool
unfolding check_watchpoint
gdb_stub_check_watchpoint_write = check_watchpoint sees_write
