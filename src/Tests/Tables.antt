-- ===== src/Tests/Tables.antt =====
-- The tables of src/gdb_stub.c and the stop replies, on small contexts.
use gdb_stub.Prelude.{
  ℕ, zero, suc, ◌-◌, ◌^◌, ◌≤◌, ◌≡◌, refl, true, false, List, [], ◌∷◌, length, map, if◌then◌else◌,
  ◌==◌, arith,
}
use gdb_stub.Prelude.Int.{pos, minus_one}
use gdb_stub.Slots
use gdb_stub.Hex.{rv32}
use gdb_stub.Context.{Context, watchpoint_read, watchpoint_write, initial_context, max_breakpoints}
use gdb_stub.Breakpoints.{gdb_stub_add_breakpoint, gdb_stub_check_breakpoint}
use gdb_stub.Breakpoints.Laws.{IsValid, stops_at, gdb_stub_check_breakpoint_lem}
use gdb_stub.Breakpoints.Refine.{
  Request, insert, remove, perform_all, request_set_all, perform_all_refines,
  gdb_stub_add_breakpoint-exhausted,
}
use gdb_stub.Watchpoints.{
  WatchpointKey, same_key, ranges_overlap, gdb_stub_add_watchpoint, gdb_stub_remove_watchpoint,
  gdb_stub_check_watchpoint_read, gdb_stub_check_watchpoint_write,
}
use gdb_stub.Watchpoints.Overlap.{ShareByte, ranges_overlap_top}
use gdb_stub.Watchpoints.Laws.{
  watches, watches-gdb_stub_add_watchpoint, watches-gdb_stub_remove_watchpoint,
  gdb_stub_add_watchpoint-IsValid,
}
use gdb_stub.Watchpoints.Check.{
  Checks, SeesRead, SeesWrite, gdb_stub_check_watchpoint_read_lem,
  gdb_stub_check_watchpoint_write_lem,
}
use gdb_stub.Thread.{gdb_stub_set_stop_thread}
use gdb_stub.Stop.{stop_text, format_stop_reply, stop_reason}
use gdb_stub.Stop.Format.{format_stop_reply-fits}
use gdb_stub.Stop.Reason.{
  stop_reason-gdb_stub_check_breakpoint, stop_reason-gdb_stub_check_watchpoint_write,
}
use gdb_stub.Tests.Fixtures.{
  fresh, fresh-IsValid, fresh-watch_IsValid, stopping, watching, watching_only, watching-Fits,
}

abbrev requests : List Request
requests = insert 16 ∷ insert 32 ∷ remove 16 ∷ insert 48 ∷ []

perform_all_refines_example :
    IsValid (perform_all fresh requests)
    × ((pc : ℕ)
        → stops_at (perform_all fresh requests) pc ≡ request_set_all (stops_at fresh) requests pc)
perform_all_refines_example =
    perform_all_refines requests fresh fresh-IsValid (unfold initial_context in omega arith)

-- a request for each of the 64 slots
many : ℕ → List Request
many zero = []
many (suc n) = insert n ∷ many n

abbrev crowded : Context
crowded = perform_all fresh (many 64)

crowded-IsValid : IsValid crowded
unfolding many initial_context
crowded-IsValid = (perform_all_refines (many 64) fresh fresh-IsValid (omega arith)).0

crowded_full : crowded.breakpoint_count ≡ max_breakpoints
unfolding many initial_context perform_all gdb_stub_add_breakpoint
crowded_full = refl

gdb_stub_add_breakpoint-exhausted_example :
    gdb_stub_add_breakpoint (perform_all crowded (map remove (3 ∷ 5 ∷ []))) 3
    ≡ (perform_all crowded (map remove (3 ∷ 5 ∷ [])), minus_one)
gdb_stub_add_breakpoint-exhausted_example =
    gdb_stub_add_breakpoint-exhausted (3 ∷ 5 ∷ []) crowded 3 crowded-IsValid crowded_full

gdb_stub_check_breakpoint_lem_example : gdb_stub_check_breakpoint stopping 0x80 ≡ (
    if stops_at stopping 0x80
    then (record stopping { breakpoint_hit = true }, true)
    else (stopping, false))
gdb_stub_check_breakpoint_lem_example = gdb_stub_check_breakpoint_lem stopping 0x80

gdb_stub_check_watchpoint_write_lem_example :
    Checks SeesWrite watching 0x102 4 (gdb_stub_check_watchpoint_write watching 0x102 4)
gdb_stub_check_watchpoint_write_lem_example =
    gdb_stub_check_watchpoint_write_lem watching 0x102 4 watching-Fits (omega arith)

gdb_stub_check_watchpoint_read_lem_example :
    Checks SeesRead watching 0x102 4 (gdb_stub_check_watchpoint_read watching 0x102 4)
gdb_stub_check_watchpoint_read_lem_example =
    gdb_stub_check_watchpoint_read_lem watching 0x102 4 watching-Fits (omega arith)

watches-gdb_stub_add_watchpoint_example :
    watches (gdb_stub_add_watchpoint fresh 0x100 0 watchpoint_read).0 (0x100, 4, watchpoint_read)
    ≡ (if same_key
          (0x100, (if zero == 0 then 4 else zero), watchpoint_read)
          (0x100, 4, watchpoint_read)
        then true
        else watches fresh (0x100, 4, watchpoint_read))
watches-gdb_stub_add_watchpoint_example =
    watches-gdb_stub_add_watchpoint fresh 0x100 0 watchpoint_read fresh-watch_IsValid
      (unfold initial_context gdb_stub_add_watchpoint in refl) (0x100, 4, watchpoint_read)

watches-gdb_stub_remove_watchpoint_example :
    watches
      (gdb_stub_remove_watchpoint watching 0x100 4 watchpoint_write).0
      (0x100, 4, watchpoint_write)
    ≡ (if same_key (0x100, 4, watchpoint_write) (0x100, 4, watchpoint_write)
        then false
        else watches watching (0x100, 4, watchpoint_write))
watches-gdb_stub_remove_watchpoint_example =
    watches-gdb_stub_remove_watchpoint watching (0x100, 4, watchpoint_write)
      (gdb_stub_add_watchpoint-IsValid fresh 0x100 4 watchpoint_write fresh-watch_IsValid)
      (0x100, 4, watchpoint_write)

ranges_overlap_top_example : ranges_overlap (2 ^ 64 - 8) 8 (2 ^ 64 - 8) 4 ≡ false
ranges_overlap_top_example = ranges_overlap_top (2 ^ 64 - 8) 8 (2 ^ 64 - 8) 4 (omega arith)

stops_at-stopping : stops_at stopping 0x80 ≡ true
unfolding initial_context gdb_stub_add_breakpoint Slots.is_armed
stops_at-stopping = refl

stop_reason-gdb_stub_check_breakpoint_example :
    stop_reason rv32
      (gdb_stub_set_stop_thread (gdb_stub_check_breakpoint stopping 0x80).0 (pos 2))
      5
      0
    ≡ (
      stop_text rv32 stopping.multiprocess_active 5 (pos 2) true 0 0,
      record stopping { breakpoint_hit = false; stop_thread = pos 2 },
    )
stop_reason-gdb_stub_check_breakpoint_example =
    stop_reason-gdb_stub_check_breakpoint rv32 stopping 5 0 (pos 2) refl 0x80 stops_at-stopping

watching_hit : (gdb_stub_check_watchpoint_write watching 0x102 4).1 ≡ true
unfolding initial_context gdb_stub_add_watchpoint gdb_stub_check_watchpoint_write
watching_hit = refl

watching_quiet : watching.breakpoint_hit ≡ false
unfolding initial_context gdb_stub_add_watchpoint
watching_quiet = refl

stop_reason-gdb_stub_check_watchpoint_write_example :
    (k : WatchpointKey) × (watches watching k ≡ true)
    × SeesWrite k.2
    × ShareByte 0x102 4 k.0 k.1
    × (stop_reason rv32
          (gdb_stub_set_stop_thread (gdb_stub_check_watchpoint_write watching 0x102 4).0 (pos 2))
          5
          0
        ≡ (
          stop_text rv32 watching.multiprocess_active 5 (pos 2) false k.0 0,
          record watching { last_watchpoint_addr = 0; stop_thread = pos 2 },
        ))
stop_reason-gdb_stub_check_watchpoint_write_example =
    stop_reason-gdb_stub_check_watchpoint_write rv32 watching 5 0 (pos 2) refl 0x102 4
      watching_quiet watching-Fits (λ k h. rw (← watching_only k h) (λ e. absurd (omega arith)))
      (omega arith) watching_hit

format_stop_reply-fits_example :
    (format_stop_reply rv32 fresh 128 5 (pos 2) false 0x100 0
      ≡ stop_text rv32 fresh.multiprocess_active 5 (pos 2) false 0x100 0)
    × (length (format_stop_reply rv32 fresh 128 5 (pos 2) false 0x100 0) ≤ 45)
format_stop_reply-fits_example = format_stop_reply-fits rv32 fresh 5 (pos 2) false 0x100 0
