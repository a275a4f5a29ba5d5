-- ===== src/Watchpoints/Overlap.antt =====
-- `ranges_overlap` of src/gdb_stub.c against the ranges of bytes.
use gdb_stub.Prelude.{ℕ, ◌+◌, ◌^◌, ◌≤◌, ◌<◌, ◌≡◌, ◌↔◌, true, false, if◌then◌else◌, leb, arith}
use gdb_stub.Watchpoints.{ranges_overlap}

-- Some byte lies in both ranges.
abbrev pub ShareByte : ℕ → ℕ → ℕ → ℕ → Type 0
ShareByte addr1 len1 addr2 len2 =
    (b : ℕ) × (addr1 ≤ b) × (b < addr1 + len1) × (addr2 ≤ b) × (b < addr2 + len2)

abbrev later_start : ℕ → ℕ → ℕ
later_start a b = if leb a b then b else a

-- Where the end of neither range exceeds the largest `uint64_t`, the test holds exactly when some
-- byte lies in both.
pub ranges_overlap_iff :
    (addr1 len1 addr2 len2 : ℕ)
    → addr1 + len1 < 2 ^ 64
    → addr2 + len2 < 2 ^ 64
    → (ranges_overlap addr1 len1 addr2 len2 ≡ true) ↔ ShareByte addr1 len1 addr2 len2
unfolding ranges_overlap
ranges_overlap_iff addr1 len1 addr2 len2 h k = (
  λ e. (later_start addr1 addr2, ground arith, ground arith, ground arith, ground arith),
  λ e. ground arith,
)

-- The test is symmetric in its ranges.
pub ranges_overlap_comm :
    (addr1 len1 addr2 len2 : ℕ)
    → ranges_overlap addr1 len1 addr2 len2 ≡ ranges_overlap addr2 len2 addr1 len1
unfolding ranges_overlap
ranges_overlap_comm addr1 len1 addr2 len2 = ground arith

-- A range that ends at the top of the 64-bit address space overlaps no range by this test.
pub ranges_overlap_top :
    (addr1 len1 addr2 len2 : ℕ)
    → addr1 + len1 ≡ 2 ^ 64
    → ranges_overlap addr1 len1 addr2 len2 ≡ false
unfolding ranges_overlap
ranges_overlap_top addr1 len1 addr2 len2 h = ground arith
