-- ===== src/Handlers/Search.antt =====
-- `handle_search_memory` of src/gdb_stub.c. `none` is a search that is still running when its fuel,
-- the number of addresses that it may try, is used up: the source has no bound of its own.
pub mod Laws
use gdb_stub.Prelude.{
  ℕ, zero, suc, ◌+◌, ◌-◌, ◌*◌, ◌/◌, ◌%◌, Bool, true, false, not, ◌||◌, Option, none, some, List, [],
  ◌∷◌, ◌++◌, set, drop, length, ltb, leb, ◌==◌, if◌then◌else◌,
}
use gdb_stub.Prelude.Text.{codes, c_str, strchr}
use gdb_stub.Hex.{Xlen, word_mod, parse_hex, hex_pair}
use gdb_stub.Stop.{format_addr}
use gdb_stub.World.{World, Callbacks, reply, run_read_mem, packet_buffer, with_buffer}

-- the bytes of a hexadecimal pattern; an odd last digit is left out
unfoldable pub pattern_bytes : List ℕ → List ℕ
pattern_bytes [] = []
pattern_bytes (hi ∷ []) = []
pattern_bytes (hi ∷ lo ∷ str) = hex_pair hi lo ∷ pattern_bytes str

module _ {Sim : Type 0} (x : Xlen) (cb : Callbacks Sim) where
  -- the inner loop: it stops at the first byte that differs
  unfoldable pub match_at : List ℕ → ℕ → ℕ → World Sim → Bool × World Sim
  match_at [] addr i w = (true, w)
  match_at (p ∷ pattern') addr i w =
      let (value, w') = run_read_mem cb ((addr + i) % word_mod x) 1 w in
      elim (p == value % 256) [ true ↦ match_at pattern' addr (i + 1) w' | false ↦ (false, w') ]

  -- the outer loop: the address of a match, or the end of the range
  unfoldable pub search_loop : ℕ → List ℕ → ℕ → ℕ → World Sim → Option (Option ℕ × World Sim)
  search_loop zero pattern' addr last w = if leb addr last then none else some (none, w)
  search_loop (suc fuel) pattern' addr last w =
      let (found, w') = match_at pattern' addr 0 w in
      let rest = search_loop fuel pattern' ((addr + 1) % word_mod x) last w' in
      if leb addr last then (if found then some (some addr, w') else rest) else some (none, w)

  abbrev pub reply_search : Option (Option ℕ × World Sim) → Option (World Sim)
  reply_search none = none
  reply_search (some (none, w)) = some (reply w (codes "0"))
  reply_search (some (some addr, w)) = some (reply w (codes "1," ++ format_addr x addr))

  -- `handle_search_memory` behind its parsing
  unfoldable pub search_memory : ℕ → ℕ → ℕ → List ℕ → World Sim → Option (World Sim)
  search_memory fuel start_addr search_len pattern' w =
      let pattern_len = length pattern' in
      if pattern_len == 0 || ltb search_len pattern_len
      then some (reply w (codes "0"))
      else reply_search (
          search_loop fuel pattern' start_addr
            ((start_addr + search_len + word_mod x - pattern_len) % word_mod x) w)

  unfoldable pub cut_search : ℕ → ℕ → ℕ → World Sim → Option (World Sim)
  cut_search fuel colon1 colon2 w =
      let w' = with_buffer w (set (set (packet_buffer w) (15 + colon1) 0) (15 + colon2) 0) in
      let buffer = packet_buffer w' in
      search_memory fuel (parse_hex x (drop 15 buffer) colon1)
        (parse_hex x (drop (15 + colon1 + 1) buffer) (colon2 - colon1 - 1))
        (pattern_bytes (c_str (drop (15 + colon2 + 1) buffer))) w'

  unfoldable pub handle_search_memory : ℕ → World Sim → Option (World Sim)
  handle_search_memory fuel w =
      let packet = c_str (drop 15 (packet_buffer w)) in
      elim (strchr packet b':') [
        | none ↦ some (reply w (codes "E01"))
        | some colon1 ↦ elim (strchr (drop (colon1 + 1) packet) b':') [
          | none ↦ some (reply w (codes "E01"))
          | some step ↦ cut_search fuel colon1 (colon1 + 1 + step) w
        ]
      ]
