-- ===== src/Watchpoints/Laws.antt =====
-- Each watchpoint function on every branch, in terms of the watchpoints that are armed.
use gdb_stub.Prelude.{
  ℕ, suc, ◌≤◌, ◌<◌, ◌≡◌, ◌↔◌, refl, Bool, true, false, none, some, List, set, length, length-set,
  ◌==◌, if◌then◌else◌, Option-cases, inl, inr, arith,
}
use gdb_stub.Prelude.Int.{pos, minus_one}
use gdb_stub.Slots
use gdb_stub.Slots.{find_slot, update_slot, length-update_slot}
use gdb_stub.Context.{Context, Watchpoint, WatchpointType, max_watchpoints}
use gdb_stub.Watchpoints.{
  WatchpointKey, watchpoint_key, same_type, same_key, watchpoint_enabled, enable_watchpoint, at_key,
  add_watchpoint_at, gdb_stub_add_watchpoint, gdb_stub_remove_watchpoint,
  gdb_stub_clear_watchpoints,
}

same_type_iff : (s t : WatchpointType) → (same_type s t ≡ true) ↔ (s ≡ t)
same_type_iff s t = ground arith

pub same_key_iff : (k j : WatchpointKey) → (same_key k j ≡ true) ↔ (k ≡ j)
same_key_iff (a, l, s) (b, m, t) = ground (arith, same_type_iff s t)

abbrev pub armed : ℕ → List Watchpoint → WatchpointKey → Bool
armed =
    Slots.is_armed watchpoint_key same_key same_key_iff watchpoint_enabled enable_watchpoint
      (λ b e. refl) (λ b e. refl)

abbrev pub DistinctTo : ℕ → List Watchpoint → Type 0
DistinctTo =
    Slots.IsDistinct watchpoint_key same_key same_key_iff watchpoint_enabled enable_watchpoint
      (λ b e. refl) (λ b e. refl)

-- an enabled watchpoint in use has that address, length and type
abbrev pub watches : Context → WatchpointKey → Bool
watches ctx j = armed ctx.watchpoint_count ctx.watchpoints j

abbrev pub IsDistinct : Context → Type 0
IsDistinct ctx = DistinctTo ctx.watchpoint_count ctx.watchpoints

-- the invariant of the watchpoint table
pub record IsValid (ctx : Context) : Type 0 where
  pub array : length ctx.watchpoints ≡ max_watchpoints
  pub count_le : ctx.watchpoint_count ≤ max_watchpoints
  pub distinct : IsDistinct ctx

-- the laws of the table, at watchpoints
slot_enable :
    (a k : WatchpointKey) (n : ℕ) (xs : List Watchpoint) {e : Watchpoint}
    → find_slot (at_key a) n xs ≡ some e
    → armed n (update_slot (at_key a) (enable_watchpoint true) n xs) k
      ≡ (if same_key a k then true else armed n xs k)
slot_enable =
    Slots.is_armed-enable watchpoint_key same_key same_key_iff watchpoint_enabled enable_watchpoint
      (λ b e. refl) (λ b e. refl)

slot_disable :
    (a k : WatchpointKey) (n : ℕ) (xs : List Watchpoint)
    → DistinctTo n xs
    → armed n (update_slot (at_key a) (enable_watchpoint false) n xs) k
      ≡ (if same_key a k then false else armed n xs k)
slot_disable =
    Slots.is_armed-disable watchpoint_key same_key same_key_iff watchpoint_enabled enable_watchpoint
      (λ b e. refl) (λ b e. refl)

slot_new :
    (a k : WatchpointKey) (n : ℕ) (xs : List Watchpoint)
    → n < length xs
    → armed (suc n) (set xs n (record { addr = a.0; len = a.1; type = a.2; enabled = true })) k
      ≡ (if same_key a k then true else armed n xs k)
slot_new a k n xs h =
    Slots.is_armed-set watchpoint_key same_key same_key_iff watchpoint_enabled enable_watchpoint
      (λ b e. refl) (λ b e. refl) (record { addr = a.0; len = a.1; type = a.2; enabled = true }) k n
      xs h refl

update_slot-distinct :
    (q : Watchpoint → Bool) (b : Bool) (n : ℕ) (xs : List Watchpoint)
    → DistinctTo n xs
    → DistinctTo n (update_slot q (enable_watchpoint b) n xs)
update_slot-distinct =
    Slots.update_slot-IsDistinct watchpoint_key same_key same_key_iff watchpoint_enabled
      enable_watchpoint (λ b e. refl) (λ b e. refl)

set-distinct :
    (a : WatchpointKey) (n : ℕ) (xs : List Watchpoint)
    → find_slot (at_key a) n xs ≡ none
    → DistinctTo n xs
    → DistinctTo (suc n) (set xs n (record { addr = a.0; len = a.1; type = a.2; enabled = true }))
set-distinct a =
    Slots.set-IsDistinct watchpoint_key same_key same_key_iff watchpoint_enabled enable_watchpoint
      (λ b e. refl) (λ b e. refl) (record { addr = a.0; len = a.1; type = a.2; enabled = true })

slot_absent :
    (n : ℕ) (xs : List Watchpoint) (k : WatchpointKey)
    → find_slot (at_key k) n xs ≡ none
    → armed n xs k ≡ false
slot_absent =
    Slots.is_armed-absent watchpoint_key same_key same_key_iff watchpoint_enabled enable_watchpoint
      (λ b e. refl) (λ b e. refl)

module _ (ctx : Context) (k : WatchpointKey) where
  -- Adding keeps the invariant, on every branch.
  pub add_watchpoint_at-IsValid : IsValid ctx → IsValid (add_watchpoint_at ctx k).0
  unfolding add_watchpoint_at
  add_watchpoint_at-IsValid v = ground (
    arith,
    length-update_slot (at_key k) (enable_watchpoint true) ctx.watchpoint_count ctx.watchpoints,
    length-set ctx.watchpoints ctx.watchpoint_count
        (record { addr = k.0; len = k.1; type = k.2; enabled = true }),
    update_slot-distinct (at_key k) true ctx.watchpoint_count ctx.watchpoints v.distinct,
    set-distinct k ctx.watchpoint_count ctx.watchpoints,
  )

  -- Removing keeps the invariant and the number of slots in use, on every branch.
  pub gdb_stub_remove_watchpoint-IsValid :
      IsValid ctx
      → IsValid (gdb_stub_remove_watchpoint ctx k.0 k.1 k.2).0
        × ((gdb_stub_remove_watchpoint ctx k.0 k.1 k.2).0.watchpoint_count ≡ ctx.watchpoint_count)
  unfolding gdb_stub_remove_watchpoint
  gdb_stub_remove_watchpoint-IsValid v = ground (
    arith,
    length-update_slot (at_key k) (enable_watchpoint false) ctx.watchpoint_count ctx.watchpoints,
    update_slot-distinct (at_key k) false ctx.watchpoint_count ctx.watchpoints v.distinct,
  )

  -- Adding fails exactly when all slots are in use, and then changes nothing.
  pub add_watchpoint_at-full :
      IsValid ctx
      → ((add_watchpoint_at ctx k).1 ≡ minus_one ↔ (ctx.watchpoint_count ≡ max_watchpoints))
        × (ctx.watchpoint_count ≡ max_watchpoints → (add_watchpoint_at ctx k).0 ≡ ctx)
  unfolding add_watchpoint_at
  add_watchpoint_at-full v = ((λ h. ground arith, λ h. ground arith), λ h. ground arith)

  -- A successful addition arms that address, length and type, and changes no other.
  pub watches-add_watchpoint_at :
      IsValid ctx
      → (add_watchpoint_at ctx k).1 ≡ pos 0
      → (j : WatchpointKey)
      → watches (add_watchpoint_at ctx k).0 j ≡ (if same_key k j then true else watches ctx j)
  unfolding add_watchpoint_at
  watches-add_watchpoint_at v ok j =
      elim (Option-cases (find_slot (at_key k) ctx.watchpoint_count ctx.watchpoints)) [
        | inl fresh ↦ ground (arith, slot_new k j ctx.watchpoint_count ctx.watchpoints)
        | inr (b, found) ↦
            ground (arith, slot_enable k j ctx.watchpoint_count ctx.watchpoints found)
      ]

  -- On a valid table, after a removal, successful or not, that address, length and type is not armed; no other changes.
  pub watches-gdb_stub_remove_watchpoint :
      IsValid ctx
      → (j : WatchpointKey)
      → watches (gdb_stub_remove_watchpoint ctx k.0 k.1 k.2).0 j
        ≡ (if same_key k j then false else watches ctx j)
  unfolding gdb_stub_remove_watchpoint
  watches-gdb_stub_remove_watchpoint v j =
      elim (Option-cases (find_slot (at_key k) ctx.watchpoint_count ctx.watchpoints)) [
        | inl missing ↦
            ground (arith, slot_absent ctx.watchpoint_count ctx.watchpoints j, same_key_iff k j)
        | inr (b, found) ↦
            ground (arith, slot_disable k j ctx.watchpoint_count ctx.watchpoints v.distinct)
      ]

-- After a reset of the table nothing is armed.
pub watches-gdb_stub_clear_watchpoints :
    (ctx : Context) (j : WatchpointKey)
    → IsValid ctx
    → IsValid (gdb_stub_clear_watchpoints ctx)
      × (watches (gdb_stub_clear_watchpoints ctx) j ≡ false)
unfolding gdb_stub_clear_watchpoints Slots.is_armed Slots.IsDistinct
watches-gdb_stub_clear_watchpoints ctx j v = ground arith

-- On a valid table, a successful addition arms that address, that length (4 for a length of 0) and that type, and
-- changes no other.
pub watches-gdb_stub_add_watchpoint :
    (ctx : Context) (addr len : ℕ) (type : WatchpointType)
    → IsValid ctx
    → (gdb_stub_add_watchpoint ctx addr len type).1 ≡ pos 0
    → (j : WatchpointKey)
    → watches (gdb_stub_add_watchpoint ctx addr len type).0 j
      ≡ (if same_key (addr, (if len == 0 then 4 else len), type) j then true else watches ctx j)
unfolding gdb_stub_add_watchpoint
watches-gdb_stub_add_watchpoint ctx addr len type =
    watches-add_watchpoint_at ctx (addr, (if len == 0 then 4 else len), type)

pub gdb_stub_add_watchpoint-IsValid :
    (ctx : Context) (addr len : ℕ) (type : WatchpointType)
    → IsValid ctx
    → IsValid (gdb_stub_add_watchpoint ctx addr len type).0
unfolding gdb_stub_add_watchpoint
gdb_stub_add_watchpoint-IsValid ctx addr len type =
    add_watchpoint_at-IsValid ctx (addr, (if len == 0 then 4 else len), type)
