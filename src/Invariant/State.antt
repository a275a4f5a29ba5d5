-- ===== src/Invariant/State.antt =====
-- The handlers of src/gdb_stub.c that select threads, reset, search or resume, and the invariant.
use gdb_stub.Prelude.{
  ◌==◌, ℕ, zero, suc, ◌+◌, ◌%◌, ◌≡◌, Bool, true, false, not, ◌||◌, Option, none, some, List, [],
  ◌∷◌, set, inl, inr, if◌then◌else◌, arith,
}
use gdb_stub.Prelude.Int.{ℤ, pos, ◌+ℤ◌, ◌-ℤ◌, ltb_ℤ}
use gdb_stub.Prelude.Text.{codes}
use gdb_stub.Hex.{Xlen, word_mod}
use gdb_stub.Context.{Context}
use gdb_stub.Slots
use gdb_stub.Breakpoints.{gdb_stub_clear_breakpoints, gdb_stub_check_breakpoint}
use gdb_stub.Breakpoints.Laws.{stops_at, gdb_stub_check_breakpoint_lem}
use gdb_stub.Watchpoints.{gdb_stub_clear_watchpoints}
use gdb_stub.Thread.{is_positive}
use gdb_stub.World.{
  World, Callbacks, Effect, reply, with_ctx, with_buffer, run_optional, run_read_mem, packet_buffer,
}
use gdb_stub.Handlers.Threads.{
  select_thread, select_continue, handle_set_thread, handle_thread_alive, handle_halt_reason,
  clear_registers_loop, reset_target, reset_context, handle_reset, default_hart, num_harts,
}
use gdb_stub.Handlers.VCont.{handle_vcont}
use gdb_stub.Handlers.VCont.Laws.{VContEffect, handle_vcont-VContEffect}
use gdb_stub.Handlers.Search.{
  match_at, search_loop, reply_search, search_memory, cut_search, handle_search_memory,
}
use gdb_stub.Invariant.{WellFormed, Keeps}
use gdb_stub.Invariant.Commands.{
  reply-WellFormed, reply-Keeps, some-Keeps, Keeps-some, run_effect-WellFormed,
  run_optional-WellFormed, cut-WellFormed,
}

module _ {Sim : Type 0} (cb : Callbacks Sim) where
  some_in_both :
      (b : Bool) (v u : World Sim)
      → Keeps (some v)
      → Keeps (some u)
      → Keeps (some (if b then v else u))
  some_in_both true v u h k = h
  some_in_both false v u h k = k

  pub none-Keeps : Keeps {Sim = Sim} none
  none-Keeps = record { kept = tt }

  selected :
      (o : Option (Effect Sim)) (t : ℤ) (w : World Sim)
      → WellFormed w
      → Keeps (
          some (
            reply (run_optional o (with_ctx w (record w.ctx { current_thread = t }))) (codes "OK")))
  selected o t w g =
      reply-Keeps _ (codes "OK")
        (run_optional-WellFormed o (with_ctx w (record w.ctx { current_thread = t })) g)

  continued :
      (t : ℤ) (w : World Sim) (text : List ℕ)
      → WellFormed w
      → Keeps (some (reply (with_ctx w (record w.ctx { continue_thread = t })) text))
  continued t w text g = reply-Keeps (with_ctx w (record w.ctx { continue_thread = t })) text g

  reported :
      (w : World Sim) (text : List ℕ)
      → WellFormed w
      → Keeps (some (reply (with_ctx w (record w.ctx { last_watchpoint_addr = 0 })) text))
  reported w text g = reply-Keeps (with_ctx w (record w.ctx { last_watchpoint_addr = 0 })) text g

  checked-WellFormed :
      (pc : ℕ) (w : World Sim)
      → WellFormed w
      → WellFormed (with_ctx w (gdb_stub_check_breakpoint w.ctx pc).0)
  checked-WellFormed pc w g =
      go (stops_at w.ctx pc) (gdb_stub_check_breakpoint w.ctx pc)
        (gdb_stub_check_breakpoint_lem w.ctx pc)
    where
      go :
          (b : Bool) (r : Context × Bool)
          → r ≡ (if b then (record w.ctx { breakpoint_hit = true }, true) else (w.ctx, false))
          → WellFormed (with_ctx w r.0)
      go true r e = rw e g
      go false r e = rw e g

  select_thread-Keeps :
      (spec : ℤ) (w : World Sim) → WellFormed w → Keeps (some (select_thread cb spec w))
  unfolding select_thread
  select_thread-Keeps spec w g =
      let tid = if is_positive spec then spec else default_hart cb w +ℤ pos 1 in
      some_in_both (not (is_positive tid) || ltb_ℤ (num_harts cb w) tid) _ _
        (reply-Keeps w (codes "E01") g)
        (selected (elim cb.set_focus_hart [ none ↦ none | some f ↦ some (f (tid -ℤ pos 1)) ]) tid w
          g)

  select_continue-Keeps :
      (pid tid : ℤ) (w : World Sim) → WellFormed w → Keeps (some (select_continue cb pid tid w))
  unfolding select_continue
  select_continue-Keeps pid tid w g = grind (arith, continued)

  pub handle_set_thread-Keeps :
      (w : World Sim) → WellFormed w → Keeps (some (handle_set_thread cb w))
  unfolding handle_set_thread
  handle_set_thread-Keeps w g =
      grind (arith, reply-Keeps, select_thread-Keeps, select_continue-Keeps)

  pub handle_thread_alive-Keeps :
      (w : World Sim) → WellFormed w → Keeps (some (handle_thread_alive cb w))
  unfolding handle_thread_alive
  handle_thread_alive-Keeps w g = grind (arith, reply-Keeps)

  clear_registers_loop-WellFormed :
      (n i : ℕ) (w : World Sim) → WellFormed w → WellFormed (clear_registers_loop cb n i w)
  unfolding clear_registers_loop
  clear_registers_loop-WellFormed zero i w g = g
  clear_registers_loop-WellFormed (suc n) i w g =
      clear_registers_loop-WellFormed n (i + 1) _ (run_effect-WellFormed (cb.write_reg i 0) w g)

  reset_target-WellFormed :
      (o : Option (Effect Sim)) (w : World Sim) → WellFormed w → WellFormed (reset_target cb o w)
  unfolding reset_target
  reset_target-WellFormed none w g =
      clear_registers_loop-WellFormed 31 1 _ (run_effect-WellFormed (cb.set_pc 0) w g)
  reset_target-WellFormed (some e) w g = run_effect-WellFormed e w g

  reset_context-WellFormed :
      (w : World Sim) → WellFormed w → WellFormed (with_ctx w (reset_context cb w.ctx))
  unfolding reset_context gdb_stub_clear_breakpoints gdb_stub_clear_watchpoints Slots.IsDistinct
  reset_context-WellFormed w g = (
    record {
      breakpoint_array = g.0.breakpoint_array;
      breakpoint_count_le = omega arith;
      breakpoints_distinct = tt;
      watchpoint_array = g.0.watchpoint_array;
      watchpoint_count_le = omega arith;
      watchpoints_distinct = tt;
    },
    g.1,
  )

  pub handle_reset-WellFormed : (w : World Sim) → WellFormed w → WellFormed (handle_reset cb w)
  unfolding handle_reset
  handle_reset-WellFormed w g =
      reply-WellFormed _ (codes "OK") (
        reset_context-WellFormed (reset_target cb cb.reset w)
          (reset_target-WellFormed cb.reset w g))

  pub handle_vcont-WellFormed : (w : World Sim) → WellFormed w → WellFormed (handle_vcont cb w).0
  handle_vcont-WellFormed w g = go (handle_vcont cb w) (handle_vcont-VContEffect cb w)
    where
      go : (r : World Sim × Bool) → VContEffect cb w r → WellFormed r.0
      go r (inl (text, e)) = rw e (reply-WellFormed w text g)
      go r (inr (acc, e)) = rw e (run_optional-WellFormed cb.resume _ g)

  pub handle_halt_reason-Keeps :
      (x : Xlen) (w : World Sim) → WellFormed w → Keeps (some (handle_halt_reason cb x w))
  unfolding handle_halt_reason
  handle_halt_reason-Keeps x w g = some_in_both w.ctx.single_step _ _ (reply-Keeps w _ g) (
      some_in_both (not (w.ctx.last_watchpoint_addr == 0)) _ _ (reported w _ g)
        (reply-Keeps _ _ (checked-WellFormed (cb.get_pc w.sim) w g)))

module _ {Sim : Type 0} (x : Xlen) (cb : Callbacks Sim) where
  read-WellFormed :
      (addr size : ℕ) (w : World Sim) → WellFormed w → WellFormed (run_read_mem cb addr size w).1
  unfolding run_read_mem
  read-WellFormed addr size w g = g

  matched :
      (b : Bool) (r : Bool × World Sim) (v : World Sim)
      → Keeps (some r.1)
      → WellFormed v
      → Keeps (some (elim b as (λ q. Bool × World Sim) [ true ↦ r | false ↦ (false, v) ]).1)
  matched true r v h k = h
  matched false r v h k = some-Keeps v k

  match_at-Keeps :
      (ps : List ℕ) (addr i : ℕ) (w : World Sim)
      → WellFormed w
      → Keeps (some (match_at x cb ps addr i w).1)
  unfolding match_at
  match_at-Keeps [] addr i w g = record { kept = g }
  match_at-Keeps (p ∷ ps) addr i w g =
      let (value, w') = run_read_mem cb ((addr + i) % word_mod x) 1 w in
      matched (p == value % 256) (match_at x cb ps addr (i + 1) w') w'
        (match_at-Keeps ps addr (i + 1) w' (read-WellFormed ((addr + i) % word_mod x) 1 w g))
        (read-WellFormed ((addr + i) % word_mod x) 1 w g)

  search_loop-Keeps :
      (fuel : ℕ) (ps : List ℕ) (addr last : ℕ) (w : World Sim)
      → WellFormed w
      → Keeps (reply_search x cb (search_loop x cb fuel ps addr last w))
  unfolding search_loop
  search_loop-Keeps zero ps addr last w g = grind (arith, reply-Keeps, none-Keeps cb)
  search_loop-Keeps (suc fuel) ps addr last w g = grind (
    arith,
    reply-Keeps,
    Keeps-some (match_at x cb ps addr 0 w).1 (match_at-Keeps ps addr 0 w g),
    search_loop-Keeps fuel ps ((addr + 1) % word_mod x) last,
  )

  search_memory-Keeps :
      (fuel start_addr search_len : ℕ) (ps : List ℕ) (w : World Sim)
      → WellFormed w
      → Keeps (search_memory x cb fuel start_addr search_len ps w)
  unfolding search_memory
  search_memory-Keeps fuel start_addr search_len ps w g =
      grind (arith, reply-Keeps, search_loop-Keeps)

  cut_search-Keeps :
      (fuel colon1 colon2 : ℕ) (w : World Sim)
      → WellFormed w
      → Keeps (cut_search x cb fuel colon1 colon2 w)
  unfolding cut_search
  cut_search-Keeps fuel colon1 colon2 w g =
      search_memory-Keeps fuel _ _ _
        (with_buffer w (set (set (packet_buffer w) (15 + colon1) 0) (15 + colon2) 0))
        (cut-WellFormed (15 + colon2) (with_buffer w (set (packet_buffer w) (15 + colon1) 0))
          (cut-WellFormed (15 + colon1) w g))

  pub handle_search_memory-Keeps :
      (fuel : ℕ) (w : World Sim) → WellFormed w → Keeps (handle_search_memory x cb fuel w)
  unfolding handle_search_memory
  handle_search_memory-Keeps fuel w g = grind (arith, reply-Keeps, cut_search-Keeps)
