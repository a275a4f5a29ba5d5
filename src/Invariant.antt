-- ===== src/Invariant.antt =====
-- An invariant of the tables and of the packet buffer in the context of src/gdb_stub.c.
pub mod Commands
pub mod Tables
pub mod State
pub mod Process
use gdb_stub.Prelude.{
  ℕ, ◌≤◌, ◌≡◌, Bool, true, false, Option, none, some, List, length, if◌then◌else◌,
}
use gdb_stub.Prelude.Int.{ℤ}
use gdb_stub.Context.{Breakpoint, Watchpoint, gdb_buffer_size, max_breakpoints, max_watchpoints}
use gdb_stub.Breakpoints.Laws
use gdb_stub.Watchpoints.Laws as WatchLaws
use gdb_stub.World.{World, packet_buffer}

-- both tables are whole arrays, at most all slots are in use, and no two slots in use have one key
pub record WholeTables (bs : List Breakpoint) (n : ℕ) (ws : List Watchpoint) (m : ℕ) : Type 0 where
  pub breakpoint_array : length bs ≡ max_breakpoints
  pub breakpoint_count_le : n ≤ max_breakpoints
  pub breakpoints_distinct : Laws.DistinctTo n bs
  pub watchpoint_array : length ws ≡ max_watchpoints
  pub watchpoint_count_le : m ≤ max_watchpoints
  pub watchpoints_distinct : WatchLaws.DistinctTo m ws

module _ {Sim : Type 0} where
  -- the tables, and the packet buffer has its size
  abbrev pub WellFormed : World Sim → Type 0
  WellFormed w =
      WholeTables w.ctx.breakpoints w.ctx.breakpoint_count w.ctx.watchpoints w.ctx.watchpoint_count
      × (length (packet_buffer w) ≡ gdb_buffer_size)

  abbrev WellFormedResult : Option (World Sim) → Type 0
  WellFormedResult none = Unit
  WellFormedResult (some w) = WellFormed w

  abbrev WellFormedReturn : Option (ℤ × World Sim) → Type 0
  WellFormedReturn none = Unit
  WellFormedReturn (some (r, w)) = WellFormed w

  -- The world that a handler leaves, if it leaves one, is well formed.
  pub record Keeps (o : Option (World Sim)) : Type 0 where
    pub kept : WellFormedResult o

  -- The same of a call that also returns a number.
  pub record Returns (o : Option (ℤ × World Sim)) : Type 0 where
    pub returned : WellFormedReturn o

pub in_both {ℓ κ} :
    {A : Type ℓ} (P : A → Type κ) (b : Bool) {x y : A} → P x → P y → P (if b then x else y)
in_both P true h k = h
in_both P false h k = k
