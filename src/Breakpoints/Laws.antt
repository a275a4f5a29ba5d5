-- ===== src/Breakpoints/Laws.antt =====
-- Each breakpoint function on every branch, in terms of the addresses that stop the program.
use gdb_stub.Prelude.{
  ℕ, suc, ◌≤◌, ◌<◌, ◌≡◌, ◌↔◌, refl, Bool, true, false, ◌&&◌, none, some, List, zero, [], ◌∷◌, set,
  length, length-set, ◌==◌, ==_iff, if◌then◌else◌, Option-cases, inl, inr, arith,
}
use gdb_stub.Prelude.Int.{pos, minus_one}
use gdb_stub.Slots
use gdb_stub.Slots.{find_slot, update_slot, length-update_slot, find_slot-holds}
use gdb_stub.Context.{Context, Breakpoint, max_breakpoints}
use gdb_stub.Breakpoints.{
  breakpoint_addr, breakpoint_enabled, enable_breakpoint, at_addr, gdb_stub_add_breakpoint,
  gdb_stub_remove_breakpoint, gdb_stub_clear_breakpoints, gdb_stub_check_breakpoint,
}

abbrev armed : ℕ → List Breakpoint → ℕ → Bool
armed =
    Slots.is_armed breakpoint_addr ◌==◌ ==_iff breakpoint_enabled enable_breakpoint (λ b e. refl)
      (λ b e. refl)

abbrev pub DistinctTo : ℕ → List Breakpoint → Type 0
DistinctTo =
    Slots.IsDistinct breakpoint_addr ◌==◌ ==_iff breakpoint_enabled enable_breakpoint (λ b e. refl)
      (λ b e. refl)

-- what the program stops at: an enabled breakpoint in use has that address
abbrev pub stops_at : Context → ℕ → Bool
stops_at ctx pc = armed ctx.breakpoint_count ctx.breakpoints pc

abbrev pub IsDistinct : Context → Type 0
IsDistinct ctx = DistinctTo ctx.breakpoint_count ctx.breakpoints

-- the invariant of the breakpoint table
pub record IsValid (ctx : Context) : Type 0 where
  pub array : length ctx.breakpoints ≡ max_breakpoints
  pub count_le : ctx.breakpoint_count ≤ max_breakpoints
  pub distinct : IsDistinct ctx

-- the laws of the table, at breakpoints
slot_enable :
    (a k n : ℕ) (xs : List Breakpoint) {e : Breakpoint}
    → find_slot (at_addr a) n xs ≡ some e
    → armed n (update_slot (at_addr a) (enable_breakpoint true) n xs) k
      ≡ (if a == k then true else armed n xs k)
slot_enable =
    Slots.is_armed-enable breakpoint_addr ◌==◌ ==_iff breakpoint_enabled enable_breakpoint
      (λ b e. refl) (λ b e. refl)

slot_disable :
    (a k n : ℕ) (xs : List Breakpoint)
    → DistinctTo n xs
    → armed n (update_slot (at_addr a) (enable_breakpoint false) n xs) k
      ≡ (if a == k then false else armed n xs k)
slot_disable =
    Slots.is_armed-disable breakpoint_addr ◌==◌ ==_iff breakpoint_enabled enable_breakpoint
      (λ b e. refl) (λ b e. refl)

slot_new :
    (a k n : ℕ) (xs : List Breakpoint)
    → n < length xs
    → armed (suc n) (set xs n (record { addr = a; enabled = true })) k
      ≡ (if a == k then true else armed n xs k)
slot_new a k n xs h =
    Slots.is_armed-set breakpoint_addr ◌==◌ ==_iff breakpoint_enabled enable_breakpoint
      (λ b e. refl) (λ b e. refl) (record { addr = a; enabled = true }) k n xs h refl

update_slot-distinct :
    (q : Breakpoint → Bool) (b : Bool) (n : ℕ) (xs : List Breakpoint)
    → DistinctTo n xs
    → DistinctTo n (update_slot q (enable_breakpoint b) n xs)
update_slot-distinct =
    Slots.update_slot-IsDistinct breakpoint_addr ◌==◌ ==_iff breakpoint_enabled enable_breakpoint
      (λ b e. refl) (λ b e. refl)

set-distinct :
    (a n : ℕ) (xs : List Breakpoint)
    → find_slot (at_addr a) n xs ≡ none
    → DistinctTo n xs
    → DistinctTo (suc n) (set xs n (record { addr = a; enabled = true }))
set-distinct a =
    Slots.set-IsDistinct breakpoint_addr ◌==◌ ==_iff breakpoint_enabled enable_breakpoint
      (λ b e. refl) (λ b e. refl) (record { addr = a; enabled = true })

slot_absent :
    (n : ℕ) (xs : List Breakpoint) (k : ℕ)
    → find_slot (at_addr k) n xs ≡ none
    → armed n xs k ≡ false
slot_absent =
    Slots.is_armed-absent breakpoint_addr ◌==◌ ==_iff breakpoint_enabled enable_breakpoint
      (λ b e. refl) (λ b e. refl)

module _ (ctx : Context) (addr : ℕ) where
  -- Adding keeps the invariant, on every branch.
  pub gdb_stub_add_breakpoint-IsValid : IsValid ctx → IsValid (gdb_stub_add_breakpoint ctx addr).0
  unfolding gdb_stub_add_breakpoint
  gdb_stub_add_breakpoint-IsValid v = ground (
    arith,
    length-update_slot (at_addr addr) (enable_breakpoint true) ctx.breakpoint_count ctx.breakpoints,
    length-set ctx.breakpoints ctx.breakpoint_count (record { addr = addr; enabled = true }),
    update_slot-distinct (at_addr addr) true ctx.breakpoint_count ctx.breakpoints v.distinct,
    set-distinct addr ctx.breakpoint_count ctx.breakpoints,
  )

  -- Removing keeps the invariant and the number of slots in use, on every branch.
  pub gdb_stub_remove_breakpoint-IsValid :
      IsValid ctx
      → IsValid (gdb_stub_remove_breakpoint ctx addr).0
        × ((gdb_stub_remove_breakpoint ctx addr).0.breakpoint_count ≡ ctx.breakpoint_count)
  unfolding gdb_stub_remove_breakpoint
  gdb_stub_remove_breakpoint-IsValid v = ground (
    arith,
    length-update_slot (at_addr addr) (enable_breakpoint false) ctx.breakpoint_count
        ctx.breakpoints,
    update_slot-distinct (at_addr addr) false ctx.breakpoint_count ctx.breakpoints v.distinct,
  )

  -- Adding fails exactly when all slots are in use, and then changes nothing.
  pub gdb_stub_add_breakpoint-full :
      IsValid ctx
      → ((gdb_stub_add_breakpoint ctx addr).1 ≡ minus_one
          ↔ (ctx.breakpoint_count ≡ max_breakpoints))
        × (ctx.breakpoint_count ≡ max_breakpoints → (gdb_stub_add_breakpoint ctx addr).0 ≡ ctx)
  unfolding gdb_stub_add_breakpoint
  gdb_stub_add_breakpoint-full v = ((λ h. ground arith, λ h. ground arith), λ h. ground arith)

  -- On a valid table, a successful addition makes the program stop at that address and changes no other.
  pub stops_at-gdb_stub_add_breakpoint :
      IsValid ctx
      → (gdb_stub_add_breakpoint ctx addr).1 ≡ pos 0
      → (pc : ℕ)
      → stops_at (gdb_stub_add_breakpoint ctx addr).0 pc
        ≡ (if addr == pc then true else stops_at ctx pc)
  unfolding gdb_stub_add_breakpoint
  stops_at-gdb_stub_add_breakpoint v ok pc =
      elim (Option-cases (find_slot (at_addr addr) ctx.breakpoint_count ctx.breakpoints)) [
        | inl fresh ↦ ground (arith, slot_new addr pc ctx.breakpoint_count ctx.breakpoints)
        | inr (b, found) ↦
            ground (arith, slot_enable addr pc ctx.breakpoint_count ctx.breakpoints found)
      ]

  -- On a valid table, after a removal, successful or not, the program does not stop at that address; no other changes.
  pub stops_at-gdb_stub_remove_breakpoint :
      IsValid ctx
      → (pc : ℕ)
      → stops_at (gdb_stub_remove_breakpoint ctx addr).0 pc
        ≡ (if addr == pc then false else stops_at ctx pc)
  unfolding gdb_stub_remove_breakpoint
  stops_at-gdb_stub_remove_breakpoint v pc =
      elim (Option-cases (find_slot (at_addr addr) ctx.breakpoint_count ctx.breakpoints)) [
        | inl missing ↦
            ground (arith, slot_absent ctx.breakpoint_count ctx.breakpoints pc, ==_iff addr pc)
        | inr (b, found) ↦
            ground (arith, slot_disable addr pc ctx.breakpoint_count ctx.breakpoints v.distinct)
      ]

check_loop :
    (n : ℕ) (xs : List Breakpoint) (pc : ℕ)
    → (find_slot (λ b. b.enabled && at_addr pc b) n xs ≡ none) ↔ (armed n xs pc ≡ false)
unfolding find_slot Slots.is_armed
check_loop zero xs pc = ((λ h. refl), (λ h. refl))
check_loop (suc n) [] pc = ((λ h. refl), (λ h. refl))
check_loop (suc n) (b ∷ xs) pc = ground (arith, check_loop n xs pc)

-- The check reports whether the program stops at `pc`, records a hit then, and changes nothing else.
pub gdb_stub_check_breakpoint_lem :
    (ctx : Context) (pc : ℕ)
    → gdb_stub_check_breakpoint ctx pc
      ≡ (if stops_at ctx pc then (record ctx { breakpoint_hit = true }, true) else (ctx, false))
unfolding gdb_stub_check_breakpoint
gdb_stub_check_breakpoint_lem ctx pc =
    ground (arith, check_loop ctx.breakpoint_count ctx.breakpoints pc)

-- After a reset of the table the program stops nowhere.
pub stops_at-gdb_stub_clear_breakpoints :
    (ctx : Context) (pc : ℕ)
    → IsValid ctx
    → IsValid (gdb_stub_clear_breakpoints ctx)
      × (stops_at (gdb_stub_clear_breakpoints ctx) pc ≡ false)
unfolding gdb_stub_clear_breakpoints Slots.is_armed Slots.IsDistinct
stops_at-gdb_stub_clear_breakpoints ctx pc v = ground arith
