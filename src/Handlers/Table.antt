-- ===== src/Handlers/Table.antt =====
-- `handle_breakpoint` of src/gdb_stub.c: the commands Z and z.
use gdb_stub.Prelude.{
  ℕ, ◌+◌, ◌-◌, Bool, Option, none, some, [], set, drop, length, ltb, ◌==◌, if◌then◌else◌,
}
use gdb_stub.Prelude.Int.{ℤ, pos, negsuc, eqb_ℤ}
use gdb_stub.Prelude.Text.{codes, c_str, strchr, to_int}
use gdb_stub.Hex.{Xlen, parse_hex}
use gdb_stub.Context.{Context, WatchpointType, watchpoint_write, watchpoint_read, watchpoint_access}
use gdb_stub.Breakpoints.{gdb_stub_add_breakpoint, gdb_stub_remove_breakpoint}
use gdb_stub.Watchpoints.{gdb_stub_add_watchpoint, gdb_stub_remove_watchpoint}
use gdb_stub.World.{World, reply, with_ctx, packet_buffer, with_buffer}

-- what a type number asks for
pub data PointKind : Type 0 where
  breakpoint unsupported : PointKind
  watchpoint : WatchpointType → PointKind

unfoldable pub point_kind : ℤ → PointKind
point_kind (negsuc n) = unsupported
point_kind (pos n) =
    if ltb n 2
    then breakpoint
    else if n == 2
    then watchpoint watchpoint_write
    else if n == 3
    then watchpoint watchpoint_read
    else if n == 4
    then watchpoint watchpoint_access
    else unsupported

-- `if ((type >= 2 && type <= 4) && len == 0) len = 4`, where it is used
abbrev pub watch_len : ℕ → ℕ
watch_len len = if len == 0 then 4 else len

-- the call that a request makes; `none` for an unsupported type
unfoldable pub point_request : Bool → PointKind → ℕ → ℕ → Context → Option (Context × ℤ)
point_request insert unsupported addr len ctx = none
point_request insert breakpoint addr len ctx =
    some (if insert then gdb_stub_add_breakpoint ctx addr else gdb_stub_remove_breakpoint ctx addr)
point_request insert (watchpoint type) addr len ctx = some (
    if insert
    then gdb_stub_add_watchpoint ctx addr (watch_len len) type
    else gdb_stub_remove_watchpoint ctx addr (watch_len len) type)

module _ {Sim : Type 0} where
  -- the end of `handle_breakpoint`
  unfoldable pub finish_breakpoint : Bool → PointKind → ℕ → ℕ → World Sim → World Sim
  finish_breakpoint insert kind addr len w = elim (point_request insert kind addr len w.ctx) [
    | none ↦ reply w []
    | some (ctx, result) ↦
        reply (with_ctx w ctx) (if eqb_ℤ result (pos 0) then codes "OK" else codes "E01")
  ]

  -- the packet cut at its two commas, and its three numbers
  unfoldable pub parsed_breakpoint : Xlen → Bool → ℕ → ℕ → World Sim → World Sim
  parsed_breakpoint x insert comma1 comma2 w =
      let w' = with_buffer w (set (set (packet_buffer w) (1 + comma1) 0) (1 + comma2) 0) in
      let buffer = packet_buffer w' in
      let type = to_int (parse_hex x (drop 1 buffer) comma1) in
      let addr = parse_hex x (drop (1 + comma1 + 1) buffer) (comma2 - comma1 - 1) in
      let len_text = drop (1 + comma2 + 1) buffer in
      finish_breakpoint insert (point_kind type) addr
        (parse_hex x len_text (length (c_str len_text))) w'

  unfoldable pub handle_breakpoint : Xlen → Bool → World Sim → World Sim
  handle_breakpoint x insert w =
      let packet = c_str (drop 1 (packet_buffer w)) in
      elim (strchr packet b',') [
        | none ↦ reply w (codes "E01")
        | some comma1 ↦ elim (strchr (drop (comma1 + 1) packet) b',') [
          | none ↦ reply w (codes "E01")
          | some step ↦ parsed_breakpoint x insert comma1 (comma1 + 1 + step) w
        ]
      ]
