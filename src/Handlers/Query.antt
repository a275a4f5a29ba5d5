-- ===== src/Handlers/Query.antt =====
-- `handle_query` and `handle_general_set` of src/gdb_stub.c. The search of memory is given by the caller.
use gdb_stub.Prelude.{
  ℕ, zero, suc, ◌+◌, ◌-◌, Bool, true, Option, some, List, [], ◌∷◌, ◌++◌, drop, length, ltb, ◌==◌,
  if◌then◌else◌,
}
use gdb_stub.Prelude.Int.{ℤ, pos, negsuc}
use gdb_stub.Prelude.Text.{codes, c_str, starts_with, contains, snprintf}
use gdb_stub.Hex.{Xlen, rv32, rv64, format_hex}
use gdb_stub.Context.{gdb_buffer_size}
use gdb_stub.Stop.{format_int, reported_thread}
use gdb_stub.World.{World, Callbacks, reply, with_ctx, ask, packet_buffer}

-- `while (*client_caps == ' ') client_caps++`
unfoldable pub skip_blanks : List ℕ → List ℕ
skip_blanks [] = []
skip_blanks (c ∷ str) = if c == b' ' then skip_blanks str else c ∷ str

-- `if (*client_caps == ':') client_caps++`
unfoldable pub skip_colon : List ℕ → List ℕ
skip_colon [] = []
skip_colon (c ∷ str) = if c == b':' then str else c ∷ str

-- `GDB_TARGET_ARCH`
abbrev pub gdb_target_arch : Xlen → List ℕ
gdb_target_arch rv32 = codes "riscv:rv32"
gdb_target_arch rv64 = codes "riscv:rv64"

abbrev pub supported_features : List ℕ
supported_features =
    codes
      "PacketSize=4096;swbreak+;multiprocess+;vContSupported+;qXfer:features:read+;QStartNoAckMode+"

abbrev pub target_xml : Xlen → List ℕ
target_xml x =
    codes
      "l<?xml version=\"1.0\"?><!DOCTYPE target SYSTEM \"gdb-target.dtd\"><target version=\"1.0\"><architecture>"
    ++ (gdb_target_arch x ++ codes "</architecture></target>")

-- an `int` as the number of rounds of a loop that starts at 2
abbrev pub harts_after_first : ℤ → ℕ
harts_after_first (pos n) = n - 1
harts_after_first (negsuc n) = 0

-- One thread id of the list, with what goes before it.
abbrev pub thread_item : Bool → List ℕ → ℕ → List ℕ
thread_item multiprocess before h =
    before ++ ((if multiprocess then codes "p1." else []) ++ format_hex h)

-- The loop of `qfThreadInfo`: rounds left, `h`, what is in the buffer, and `pos`, which counts the
-- characters of all items and so can pass the end of the buffer, where the loop stops.
unfoldable pub thread_info_loop : Bool → ℕ → ℕ → List ℕ → ℕ → List ℕ
thread_info_loop multiprocess zero h buffer at = buffer
thread_info_loop multiprocess (suc n) h buffer at =
    let item = thread_item multiprocess (codes ",") h in
    let rest =
      thread_info_loop multiprocess n (h + 1) (buffer ++ snprintf (gdb_buffer_size - at) item)
        (at + length item) in
    if ltb at gdb_buffer_size then rest else buffer

unfoldable pub thread_info : Bool → ℤ → List ℕ
thread_info multiprocess num_harts =
    let first = thread_item multiprocess (codes "m") 1 in
    thread_info_loop multiprocess (harts_after_first num_harts) 2 first (length first)

module _ {Sim : Type 0} where
  -- `handle_query`; `search` is `handle_search_memory`
  unfoldable pub handle_query :
      Xlen → Callbacks Sim → (World Sim → Option (World Sim)) → World Sim → Option (World Sim)
  handle_query x cb search w =
      let packet = c_str (packet_buffer w) in
      if starts_with packet (codes "qSupported")
      then some (
          reply
            (with_ctx w (record w.ctx {
              multiprocess_active =
                  contains (skip_blanks (skip_colon (drop 10 packet))) (codes "multiprocess+");
            }))
            supported_features)
      else if starts_with packet (codes "qAttached")
      then some (reply w (codes "1"))
      else if starts_with packet (codes "qC")
      then some (
          reply w (
            snprintf 32 (
              codes "QC"
              ++ ((if w.ctx.multiprocess_active then codes "p1." else [])
                  ++ format_int (reported_thread w.ctx)))))
      else if starts_with packet (codes "qfThreadInfo")
      then some (reply w (thread_info w.ctx.multiprocess_active (ask cb.get_num_harts (pos 1) w)))
      else if starts_with packet (codes "qsThreadInfo")
      then some (reply w (codes "l"))
      else if starts_with packet (codes "qXfer:features:read:target.xml")
      then some (reply w (target_xml x))
      else if starts_with packet (codes "qOffsets")
      then some (reply w (codes "Text=0;Data=0;Bss=0"))
      else if starts_with packet (codes "qTStatus")
      then some (reply w (codes "T0;tnotrun:0"))
      else if starts_with packet (codes "qSearch:memory:")
      then search w
      else some (reply w [])

  unfoldable pub handle_general_set : World Sim → World Sim
  handle_general_set w =
      if starts_with (c_str (packet_buffer w)) (codes "QStartNoAckMode")
      then reply (with_ctx w (record w.ctx { stub = record w.ctx.stub { no_ack_mode = true } }))
          (codes "OK")
      else reply w []
