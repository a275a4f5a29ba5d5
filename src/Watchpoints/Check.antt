-- ===== src/Watchpoints/Check.antt =====
-- The watchpoint checks of src/gdb_stub.c: which accesses hit, and what is recorded.
use gdb_stub.Prelude.{
  ℕ, suc, zero, ◌+◌, ◌^◌, ◌<◌, ◌≡◌, ◌≢◌, Bool, true, false, ◌&&◌, none, some, List, [], ◌∷◌,
  Option-cases, inl, inr, refl, ◌⊎◌, arith,
}
use gdb_stub.Slots
use gdb_stub.Slots.{find_slot, find_slot-holds}
use gdb_stub.Context.{
  Context, Watchpoint, WatchpointType, watchpoint_write, watchpoint_read, watchpoint_access,
}
use gdb_stub.Watchpoints.{
  WatchpointKey, watchpoint_key, sees_read, sees_write, ranges_overlap, check_watchpoint,
  gdb_stub_check_watchpoint_read, gdb_stub_check_watchpoint_write,
}
use gdb_stub.Watchpoints.Laws.{armed, watches, same_key_iff}
use gdb_stub.Watchpoints.Overlap.{ShareByte, ranges_overlap_iff}

module _ (sees : WatchpointType → Bool) (addr len : ℕ) where
  abbrev hits : Watchpoint → Bool
  hits w = w.enabled && sees w.type && ranges_overlap addr len w.addr w.len

  abbrev HitBy : WatchpointKey → Type 0
  HitBy k = (sees k.2 ≡ true) × (ranges_overlap addr len k.0 k.1 ≡ true)

  armed_of_found :
      (n : ℕ) (xs : List Watchpoint) {w : Watchpoint}
      → find_slot hits n xs ≡ some w
      → armed n xs (watchpoint_key w) ≡ true
  unfolding find_slot Slots.is_armed
  armed_of_found zero xs h = cc
  armed_of_found (suc n) [] h = cc
  armed_of_found (suc n) (x ∷ xs) {w} h =
      ground
        (arith, same_key_iff (watchpoint_key x) (watchpoint_key w), armed_of_found n xs {w = w})

  found_of_armed :
      (n : ℕ) (xs : List Watchpoint) (k : WatchpointKey)
      → armed n xs k ≡ true
      → HitBy k
      → find_slot hits n xs ≢ none
  unfolding find_slot Slots.is_armed
  found_of_armed zero xs k h s = cc
  found_of_armed (suc n) [] k h s = cc
  found_of_armed (suc n) (x ∷ xs) k h s =
      ground (arith, same_key_iff (watchpoint_key x) k, found_of_armed n xs k)

  check_hit :
      (ctx : Context)
      → (check_watchpoint sees ctx addr len).1 ≡ true
      → (k : WatchpointKey) × (watches ctx k ≡ true)
        × (sees k.2 ≡ true)
        × (ranges_overlap addr len k.0 k.1 ≡ true)
        × ((check_watchpoint sees ctx addr len).0 ≡ record ctx { last_watchpoint_addr = k.0 })
  unfolding check_watchpoint
  check_hit ctx h = elim (Option-cases (find_slot hits ctx.watchpoint_count ctx.watchpoints)) [
    | inl missing ↦ absurd (ground (arith, missing))
    | inr (w, found) ↦ (
      watchpoint_key w,
      armed_of_found ctx.watchpoint_count ctx.watchpoints found,
      ground (arith, find_slot-holds hits ctx.watchpoint_count ctx.watchpoints found),
      ground (arith, find_slot-holds hits ctx.watchpoint_count ctx.watchpoints found),
      ground (arith, found),
    )
  ]

  check_complete :
      (ctx : Context) (k : WatchpointKey)
      → watches ctx k ≡ true
      → HitBy k
      → (check_watchpoint sees ctx addr len).1 ≡ true
  unfolding check_watchpoint
  check_complete ctx k h s =
      ground (arith, found_of_armed ctx.watchpoint_count ctx.watchpoints k h s)

  check_miss :
      (ctx : Context)
      → (check_watchpoint sees ctx addr len).1 ≡ false
      → (check_watchpoint sees ctx addr len).0 ≡ ctx
  unfolding check_watchpoint
  check_miss ctx h = ground arith

-- no armed watchpoint ends past the last `uint64_t`
abbrev pub Fits : Context → Type 0
Fits ctx = (k : WatchpointKey) → watches ctx k ≡ true → k.0 + k.1 < 2 ^ 64

-- the types of watchpoint that a write hits, and those that a read hits
abbrev pub SeesWrite : WatchpointType → Type 0
SeesWrite t = (t ≡ watchpoint_write) ⊎ (t ≡ watchpoint_access)

abbrev pub SeesRead : WatchpointType → Type 0
SeesRead t = (t ≡ watchpoint_read) ⊎ (t ≡ watchpoint_access)

-- what a check that hits the types `Sees` does on an access to `len` bytes at `addr`
pub record Checks (Sees : WatchpointType → Type 0) (ctx : Context) (addr len : ℕ)
    (result : Context × Bool) : Type 0 where
  pub hit :
      result.1 ≡ true
      → (k : WatchpointKey) × (watches ctx k ≡ true)
        × Sees k.2
        × ShareByte addr len k.0 k.1
        × (result.0 ≡ record ctx { last_watchpoint_addr = k.0 })
  pub complete :
      (k : WatchpointKey)
      → watches ctx k ≡ true
      → Sees k.2
      → ShareByte addr len k.0 k.1
      → result.1 ≡ true
  pub miss : result.1 ≡ false → result.0 ≡ ctx

check_watchpoint_lem :
    (sees : WatchpointType → Bool) (Sees : WatchpointType → Type 0)
    → ((t : WatchpointType) → sees t ≡ true → Sees t)
    → ((t : WatchpointType) → Sees t → sees t ≡ true)
    → (ctx : Context) (addr len : ℕ) → Fits ctx
    → addr + len < 2 ^ 64
    → Checks Sees ctx addr len (check_watchpoint sees ctx addr len)
check_watchpoint_lem sees Sees there back ctx addr len fits h = record {
  hit = λ e.
      let (k, w, s, o, c) = check_hit sees addr len ctx e in
      (k, w, there k.2 s, (ranges_overlap_iff addr len k.0 k.1 h (fits k w)).0 o, c);
  complete = λ k w s b.
      check_complete sees addr len ctx k w
        (back k.2 s, (ranges_overlap_iff addr len k.0 k.1 h (fits k w)).1 b);
  miss = λ e. check_miss sees addr len ctx e;
}

sees_read-SeesRead : (t : WatchpointType) → sees_read t ≡ true → SeesRead t
sees_read-SeesRead watchpoint_write h = absurd (ground arith)
sees_read-SeesRead watchpoint_read h = inl refl
sees_read-SeesRead watchpoint_access h = inr refl

SeesRead-sees_read : (t : WatchpointType) → SeesRead t → sees_read t ≡ true
SeesRead-sees_read t (inl e) = rw e refl
SeesRead-sees_read t (inr e) = rw e refl

sees_write-SeesWrite : (t : WatchpointType) → sees_write t ≡ true → SeesWrite t
sees_write-SeesWrite watchpoint_write h = inl refl
sees_write-SeesWrite watchpoint_read h = absurd (ground arith)
sees_write-SeesWrite watchpoint_access h = inr refl

SeesWrite-sees_write : (t : WatchpointType) → SeesWrite t → sees_write t ≡ true
SeesWrite-sees_write t (inl e) = rw e refl
SeesWrite-sees_write t (inr e) = rw e refl

-- A read hits exactly when an armed read or access watchpoint shares a byte with it, and then such
-- a watchpoint's address is recorded; without a hit nothing changes. The ends of the
-- ranges, the access and the armed watchpoints, must be below 2 ^ 64.
pub gdb_stub_check_watchpoint_read_lem :
    (ctx : Context) (addr len : ℕ)
    → Fits ctx
    → addr + len < 2 ^ 64
    → Checks SeesRead ctx addr len (gdb_stub_check_watchpoint_read ctx addr len)
unfolding gdb_stub_check_watchpoint_read
gdb_stub_check_watchpoint_read_lem =
    check_watchpoint_lem sees_read SeesRead sees_read-SeesRead SeesRead-sees_read

-- A write hits exactly when an armed write or access watchpoint shares a byte with it, and then
-- such a watchpoint's address is recorded; without a hit nothing changes. The ends of the
-- ranges, the access and the armed watchpoints, must be below 2 ^ 64.
pub gdb_stub_check_watchpoint_write_lem :
    (ctx : Context) (addr len : ℕ)
    → Fits ctx
    → addr + len < 2 ^ 64
    → Checks SeesWrite ctx addr len (gdb_stub_check_watchpoint_write ctx addr len)
unfolding gdb_stub_check_watchpoint_write
gdb_stub_check_watchpoint_write_lem =
    check_watchpoint_lem sees_write SeesWrite sees_write-SeesWrite SeesWrite-sees_write
