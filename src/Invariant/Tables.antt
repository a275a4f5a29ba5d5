-- ===== src/Invariant/Tables.antt =====
-- The commands Z and z of src/gdb_stub.c and the invariant.
use gdb_stub.Prelude.{
  ℕ, ◌+◌, ◌≡◌, Bool, true, false, Option, none, some, [], set, if◌then◌else◌, arith,
}
use gdb_stub.Prelude.Int.{ℤ, pos, eqb_ℤ}
use gdb_stub.Prelude.Text.{codes}
use gdb_stub.Hex.{Xlen}
use gdb_stub.Context.{Context, WatchpointType}
use gdb_stub.Breakpoints.{gdb_stub_add_breakpoint, gdb_stub_remove_breakpoint}
use gdb_stub.Breakpoints.Laws.{
  IsValid, gdb_stub_add_breakpoint-IsValid, gdb_stub_remove_breakpoint-IsValid,
}
use gdb_stub.Watchpoints.{gdb_stub_add_watchpoint, gdb_stub_remove_watchpoint}
use gdb_stub.Watchpoints.Laws as WatchLaws
use gdb_stub.World.{World, reply, with_ctx, with_buffer, packet_buffer}
use gdb_stub.Handlers.Table.{
  PointKind, breakpoint, unsupported, watchpoint, watch_len, point_request, finish_breakpoint,
  parsed_breakpoint, handle_breakpoint,
}
use gdb_stub.Invariant.{WholeTables, WellFormed}
use gdb_stub.Invariant.Commands.{reply-WellFormed, cut-WellFormed}

abbrev Whole : Context → Type 0
Whole ctx = WholeTables ctx.breakpoints ctx.breakpoint_count ctx.watchpoints ctx.watchpoint_count

breakpoints_of : (ctx : Context) → Whole ctx → IsValid ctx
breakpoints_of ctx g = record {
  array = g.breakpoint_array;
  count_le = g.breakpoint_count_le;
  distinct = g.breakpoints_distinct;
}

watchpoints_of : (ctx : Context) → Whole ctx → WatchLaws.IsValid ctx
watchpoints_of ctx g = record {
  array = g.watchpoint_array;
  count_le = g.watchpoint_count_le;
  distinct = g.watchpoints_distinct;
}

-- a change of the breakpoints that leaves the watchpoints alone
breakpoint_change :
    (ctx next : Context)
    → Whole ctx
    → IsValid next
    → (next.watchpoints ≡ ctx.watchpoints) × (next.watchpoint_count ≡ ctx.watchpoint_count)
    → Whole next
breakpoint_change ctx next g v (same, count) = record {
  breakpoint_array = v.array;
  breakpoint_count_le = v.count_le;
  breakpoints_distinct = v.distinct;
  watchpoint_array = rw same g.watchpoint_array;
  watchpoint_count_le = rw count g.watchpoint_count_le;
  watchpoints_distinct = rw (same, count) g.watchpoints_distinct;
}

watchpoint_change :
    (ctx next : Context)
    → Whole ctx
    → WatchLaws.IsValid next
    → (next.breakpoints ≡ ctx.breakpoints) × (next.breakpoint_count ≡ ctx.breakpoint_count)
    → Whole next
watchpoint_change ctx next g v (same, count) = record {
  breakpoint_array = rw same g.breakpoint_array;
  breakpoint_count_le = rw count g.breakpoint_count_le;
  breakpoints_distinct = rw (same, count) g.breakpoints_distinct;
  watchpoint_array = v.array;
  watchpoint_count_le = v.count_le;
  watchpoints_distinct = v.distinct;
}

module _ (ctx : Context) (addr : ℕ) (g : Whole ctx) where
  gdb_stub_add_breakpoint-Whole : Whole (gdb_stub_add_breakpoint ctx addr).0
  gdb_stub_add_breakpoint-Whole =
      breakpoint_change ctx (gdb_stub_add_breakpoint ctx addr).0 g
        (gdb_stub_add_breakpoint-IsValid ctx addr (breakpoints_of ctx g))
        (unfold gdb_stub_add_breakpoint in ground arith)

  gdb_stub_remove_breakpoint-Whole : Whole (gdb_stub_remove_breakpoint ctx addr).0
  gdb_stub_remove_breakpoint-Whole =
      breakpoint_change ctx (gdb_stub_remove_breakpoint ctx addr).0 g
        (gdb_stub_remove_breakpoint-IsValid ctx addr (breakpoints_of ctx g)).0
        (unfold gdb_stub_remove_breakpoint in ground arith)

  gdb_stub_add_watchpoint-Whole :
      (len : ℕ) (type : WatchpointType) → Whole (gdb_stub_add_watchpoint ctx addr len type).0
  gdb_stub_add_watchpoint-Whole len type =
      watchpoint_change ctx (gdb_stub_add_watchpoint ctx addr len type).0 g
        (WatchLaws.gdb_stub_add_watchpoint-IsValid ctx addr len type (watchpoints_of ctx g))
        (unfold gdb_stub_add_watchpoint in ground arith)

  gdb_stub_remove_watchpoint-Whole :
      (len : ℕ) (type : WatchpointType) → Whole (gdb_stub_remove_watchpoint ctx addr len type).0
  gdb_stub_remove_watchpoint-Whole len type =
      watchpoint_change ctx (gdb_stub_remove_watchpoint ctx addr len type).0 g
        (WatchLaws.gdb_stub_remove_watchpoint-IsValid ctx (addr, len, type)
          (watchpoints_of ctx g)).0
        (unfold gdb_stub_remove_watchpoint in ground arith)

-- the context that a request leaves, with the buffer untouched
abbrev Requested : Context → Option (Context × ℤ) → Type 0
Requested ctx none = Unit
Requested ctx (some (next, result)) = Whole next × (next.stub ≡ ctx.stub)

point_request-Requested :
    (insert : Bool) (kind : PointKind) (addr len : ℕ) (ctx : Context)
    → Whole ctx
    → Requested ctx (point_request insert kind addr len ctx)
unfolding point_request
point_request-Requested insert unsupported addr len ctx g = tt
point_request-Requested true breakpoint addr len ctx g =
    (gdb_stub_add_breakpoint-Whole ctx addr g, unfold gdb_stub_add_breakpoint in ground arith)
point_request-Requested false breakpoint addr len ctx g =
    (gdb_stub_remove_breakpoint-Whole ctx addr g, unfold gdb_stub_remove_breakpoint in ground arith)
point_request-Requested true (watchpoint type) addr len ctx g = (
  gdb_stub_add_watchpoint-Whole ctx addr g (watch_len len) type,
  unfold gdb_stub_add_watchpoint in ground arith,
)
point_request-Requested false (watchpoint type) addr len ctx g = (
  gdb_stub_remove_watchpoint-Whole ctx addr g (watch_len len) type,
  unfold gdb_stub_remove_watchpoint in ground arith,
)

module _ {Sim : Type 0} where
  finish_breakpoint-WellFormed :
      (insert : Bool) (kind : PointKind) (addr len : ℕ) (w : World Sim)
      → WellFormed w
      → WellFormed (finish_breakpoint insert kind addr len w)
  unfolding finish_breakpoint
  finish_breakpoint-WellFormed insert kind addr len w g =
      go (point_request insert kind addr len w.ctx)
        (point_request-Requested insert kind addr len w.ctx g.0)
    where
      go :
          (o : Option (Context × ℤ))
          → Requested w.ctx o
          → WellFormed (elim o as (λ q. World Sim) [
            | none ↦ reply w []
            | some (ctx, result) ↦
                reply (with_ctx w ctx) (if eqb_ℤ result (pos 0) then codes "OK" else codes "E01")
          ])
      go none r = reply-WellFormed w [] g
      go (some (ctx, result)) r = unfold reply in (r.0, rw r.1 g.1)

  parsed_breakpoint-WellFormed :
      (x : Xlen) (insert : Bool) (comma1 comma2 : ℕ) (w : World Sim)
      → WellFormed w
      → WellFormed (parsed_breakpoint x insert comma1 comma2 w)
  unfolding parsed_breakpoint
  parsed_breakpoint-WellFormed x insert comma1 comma2 w g =
      finish_breakpoint-WellFormed insert _ _ _
        (with_buffer w (set (set (packet_buffer w) (1 + comma1) 0) (1 + comma2) 0))
        (cut-WellFormed (1 + comma2) (with_buffer w (set (packet_buffer w) (1 + comma1) 0))
          (cut-WellFormed (1 + comma1) w g))

  pub handle_breakpoint-WellFormed :
      (x : Xlen) (insert : Bool) (w : World Sim)
      → WellFormed w
      → WellFormed (handle_breakpoint x insert w)
  unfolding handle_breakpoint
  handle_breakpoint-WellFormed x insert w g =
      grind (arith, reply-WellFormed, parsed_breakpoint-WellFormed)
