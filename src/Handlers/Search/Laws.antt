-- ===== src/Handlers/Search/Laws.antt =====
-- The search of src/gdb_stub.c on a memory that reading does not change.
use gdb_stub.Prelude.{
  ℕ, zero, suc, ◌+◌, ◌-◌, ◌%◌, ◌≤◌, ◌<◌, ◌≡◌, ◌∙◌, refl, ap, Bool, true, false, ◌&&◌, Option, none,
  some, List, [], ◌∷◌, ◌++◌, length, leb, ◌==◌, if◌then◌else◌, Bool-cases, inl, inr, arith,
}
use native.Mathlib.Nat.{mod-eq_of_lt, mod-lt}
use native.Mathlib.Decide.{ℕ_discrete, dec_le}
use gdb_stub.Hex.{Xlen, rv32, rv64, word_mod, format_hex_width}
use gdb_stub.Stop.{format_addr}
use gdb_stub.Prelude.Text.{codes}
use gdb_stub.Hex.Bounds.{word_mod_pos}
use gdb_stub.Context.{Context}
use gdb_stub.World.{World, Callbacks, run_read_mem, reply}
use gdb_stub.Handlers.Search.{match_at, search_loop, reply_search, search_memory}

-- Reading a byte gives the byte of `mem` and changes nothing.
abbrev pub ReadsMemory : {Sim : Type 0} → Callbacks Sim → (ℕ → ℕ) → Type 0
ReadsMemory {Sim} cb mem =
    (addr : ℕ) (ctx : Context) (sim : Sim)
    → cb.read_mem addr 1 ctx sim ≡ (mem addr, sim, ctx.last_watchpoint_addr)

-- The pattern stands in memory at `addr + i`, addresses taken modulo the word.
unfoldable pub occurs_at : Xlen → (ℕ → ℕ) → List ℕ → ℕ → ℕ → Bool
occurs_at x mem [] addr i = true
occurs_at x mem (p ∷ pattern') addr i =
    p == mem ((addr + i) % word_mod x) % 256 && occurs_at x mem pattern' addr (i + 1)

-- The first place of the pattern from `addr` to `last`, or that there is none.
abbrev pub FirstMatch : (ℕ → Bool) → ℕ → ℕ → Option ℕ → Type 0
FirstMatch occurs addr last none = (b : ℕ) → addr ≤ b → b ≤ last → occurs b ≡ false
FirstMatch occurs addr last (some a) =
    (addr ≤ a) × (a ≤ last) × (occurs a ≡ true) × ((b : ℕ) → addr ≤ b → b < a → occurs b ≡ false)

-- what GDB is to read: `0`, or `1,` and the address
abbrev pub answer : Xlen → Option ℕ → List ℕ
answer x none = codes "0"
answer rv32 (some a) = codes "1," ++ format_hex_width 8 a
answer rv64 (some a) = codes "1," ++ format_hex_width 16 a

FirstMatch-cons :
    (occurs : ℕ → Bool) (a last : ℕ) (r : Option ℕ)
    → occurs a ≡ false
    → FirstMatch occurs (a + 1) last r
    → FirstMatch occurs a last r
FirstMatch-cons occurs a last none miss rest = λ b h k. elim (ℕ_discrete b a) [
  | yes same ↦ ap occurs same ∙ miss
  | no other ↦ rest b (omega arith) k
]
FirstMatch-cons occurs a last (some c) miss (above, below, here, before) = (
  omega arith,
  below,
  here,
  λ b h k. elim (ℕ_discrete b a) [
    | yes same ↦ ap occurs same ∙ miss
    | no other ↦ before b (omega arith) k
  ],
)

search_memory_run :
    {Sim : Type 0} (x : Xlen) (cb : Callbacks Sim) (pattern' : List ℕ)
    (fuel start_addr search_len : ℕ) (w : World Sim)
    → 0 < length pattern'
    → length pattern' ≤ search_len
    → search_memory x cb fuel start_addr search_len pattern' w
      ≡ reply_search x cb (
          search_loop x cb fuel pattern' start_addr
            ((start_addr + search_len + word_mod x - length pattern') % word_mod x)
            w)
unfolding search_memory
search_memory_run x cb pattern' fuel start_addr search_len w h k = ground arith

module _ {Sim : Type 0} (x : Xlen) (cb : Callbacks Sim) (mem : ℕ → ℕ) (reads : ReadsMemory cb mem)
    (pattern' : List ℕ) where
  abbrev occurs : ℕ → Bool
  occurs a = occurs_at x mem pattern' a 0

  run_read_mem-pure : (a : ℕ) (w : World Sim) → run_read_mem cb a 1 w ≡ (mem a, w)
  unfolding run_read_mem
  run_read_mem-pure a w = ground (arith, reads a w.ctx w.sim)

  match_at-occurs_at :
      (ps : List ℕ) (a i : ℕ) (w : World Sim) → match_at x cb ps a i w ≡ (occurs_at x mem ps a i, w)
  unfolding match_at occurs_at
  match_at-occurs_at [] a i w = refl
  match_at-occurs_at (p ∷ ps) a i w =
      ground (arith, run_read_mem-pure ((a + i) % word_mod x) w, match_at-occurs_at ps a (i + 1) w)

  search_step :
      (fuel a last : ℕ) (w : World Sim)
      → search_loop x cb (suc fuel) pattern' a last w ≡ (
          if leb a last
          then (if occurs a
              then some (some a, w)
              else search_loop x cb fuel pattern' ((a + 1) % word_mod x) last w)
          else some (none, w))
  unfolding search_loop
  search_step fuel a last w = ground (arith, match_at-occurs_at pattern' a 0 w)

  search_loop_lem :
      (fuel a last : ℕ) (w : World Sim)
      → last + 1 < word_mod x
      → last + 1 ≤ a + fuel
      → (r : Option ℕ) × (search_loop x cb fuel pattern' a last w ≡ some (r, w))
        × FirstMatch occurs a last r
  search_loop_lem zero a last w h f =
      (none, unfold search_loop in ground arith, λ b lo hi. absurd (omega arith))
  search_loop_lem (suc fuel) a last w h f = elim (dec_le a last) [
    | no past ↦ (none, search_step fuel a last w ∙ ground arith, λ b lo hi. absurd (omega arith))
    | yes inside ↦ elim (Bool-cases (occurs a)) [
      | inl hit ↦ (
        some a,
        search_step fuel a last w ∙ ground arith,
        (omega arith, inside, hit, λ b lo hi. absurd (omega arith)),
      )
      | inr miss ↦
          let (r, later, first) = search_loop_lem fuel (a + 1) last w h (omega arith) in
          (
            r,
            search_step fuel a last w
                ∙ ground (arith, mod-eq_of_lt {n = a + 1} {m = word_mod x} (omega arith), later),
            FirstMatch-cons occurs a last r miss first,
          )
    ]
  ]

  -- On a memory that reading does not change: a pattern that is not empty, searched from `start_addr` in `search_len` bytes, not fewer than its own, on a
  -- range that ends before the last address: with fuel for each place, the reply is `1,` and the first
  -- address at which the pattern stands, in all its hexadecimal digits, or `0` if it stands nowhere, and nothing else changes.
  pub search_memory-FirstMatch :
      (fuel start_addr search_len : ℕ) (w : World Sim)
      → 0 < length pattern'
      → length pattern' ≤ search_len
      → start_addr + search_len - length pattern' + 1 < word_mod x
      → search_len - length pattern' + 1 ≤ fuel
      → (r : Option ℕ) × (search_memory x cb fuel start_addr search_len pattern' w
          ≡ some (reply w (answer x r)))
        × FirstMatch occurs start_addr (start_addr + search_len - length pattern') r
  search_memory-FirstMatch fuel start_addr search_len w some_pattern fits small f =
      let last = start_addr + search_len - length pattern' in
      let (r, found, first) = search_loop_lem fuel start_addr last w small (omega arith) in
      (r, in_range ∙ ap (reply_search x cb) found ∙ answered x r, first)
    where
      answered :
          (y : Xlen) (r : Option ℕ) → reply_search y cb (some (r, w)) ≡ some (reply w (answer y r))
      answered y none = refl
      answered rv32 (some a) = unfold format_addr in refl
      answered rv64 (some a) = unfold format_addr in refl

      no_wrap :
          (y : Xlen) (p : ℕ)
          → p ≤ search_len
          → start_addr + search_len - p + 1 < word_mod y
          → (start_addr + search_len + word_mod y - p) % word_mod y ≡ start_addr + search_len - p
      no_wrap rv32 p h k = omega arith
      no_wrap rv64 p h k = omega arith

      in_range :
          search_memory x cb fuel start_addr search_len pattern' w
          ≡ reply_search x cb (
              search_loop x cb fuel pattern' start_addr
                (start_addr + search_len - length pattern')
                w)
      in_range = ground (
        arith,
        search_memory_run x cb pattern' fuel start_addr search_len w some_pattern fits,
        no_wrap x (length pattern') fits small,
      )

  -- On a memory that reading does not change, a search up to the last address for a pattern that stands
  -- nowhere, from any address, never ends: it uses up any fuel.
  pub search_loop-endless :
      (fuel a : ℕ) (w : World Sim)
      → a < word_mod x
      → ((b : ℕ) → occurs b ≡ false)
      → search_loop x cb fuel pattern' a (word_mod x - 1) w ≡ none
  search_loop-endless zero a w h never = unfold search_loop in ground arith
  search_loop-endless (suc fuel) a w h never =
      search_step fuel a (word_mod x - 1) w
      ∙ ground (
        arith,
        never a,
        search_loop-endless fuel ((a + 1) % word_mod x) w (mod-lt (a + 1) (word_mod_pos x)) never,
      )
