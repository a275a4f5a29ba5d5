-- ===== src/Tests/Commands.antt =====
-- The commands of src/gdb_stub.c on a connected client.
use gdb_stub.Prelude.{
  List, drop, ℕ, ◌+◌, ◌-◌, ◌*◌, ◌%◌, ◌≡◌, ◌≢◌, refl, true, false, Option, none, some, [], ◌∷◌, ◌++◌,
  get_or, if◌then◌else◌, arith,
}
use gdb_stub.Prelude.Int.{ℤ, pos, eqb_ℤ, minus_one}
use gdb_stub.Prelude.Text.{codes, c_str}
use gdb_stub.Hex.{rv32, word_mod, hex_to_int, calculate_checksum, format_hex}
use gdb_stub.Context.{Context, initial_context}
use gdb_stub.Packet.{frame, send_ack, count_failure}
use gdb_stub.Packet.RoundTrip.{load_packet}
use gdb_stub.Thread.{is_negative, is_positive, gdb_stub_should_run_thread}
use gdb_stub.World.{World, reply, with_ctx, with_buffer, run_optional, packet_buffer}
use gdb_stub.Handlers.VCont.{handle_vcont}
use gdb_stub.Handlers.VCont.Lists.{ThreadAction, actions_text, running, handle_vcont-actions_text}
use gdb_stub.Handlers.VCont.Step.{step_one, handle_vcont-step_one}
use gdb_stub.Handlers.Search.{search_memory, search_loop}
use gdb_stub.Handlers.Search.Laws.{
  ReadsMemory, occurs_at, answer, FirstMatch, search_memory-FirstMatch, search_loop-endless,
}
use gdb_stub.Process.{dispatch, gdb_stub_process}
use gdb_stub.Process.Frame.{Delivers, delivered, gdb_stub_process-frame, gdb_stub_process-corrupt}
use gdb_stub.Process.Running.{gdb_stub_process-continue_all, gdb_stub_process-step_thread}
use gdb_stub.Slots
use gdb_stub.Breakpoints.Laws.{stops_at}
use gdb_stub.Watchpoints.{WatchpointKey}
use gdb_stub.Watchpoints.Laws.{watches}
use gdb_stub.Handlers.Threads.{handle_reset, handle_set_thread}
use gdb_stub.Handlers.Threads.Laws.{handle_reset_lem, HasThread, handle_set_thread-HasThread}
use gdb_stub.Invariant.{WellFormed, Returns}
use gdb_stub.Invariant.Process.{gdb_stub_process-Returns}
use gdb_stub.Tests.Fixtures.{counter, connected_world}

delivers :
    (c : ℕ)
    → c ≢ b'#'
    → Delivers (connected_world (frame (c ∷ []) ++ codes "+")) (c ∷ []) (codes "+")
unfolding initial_context send_ack
delivers c data_only = record {
  connected = refl;
  failures = omega arith;
  buffer = refl;
  inbox = refl;
  data_only = (data_only, tt);
  fits = omega arith;
  writable = refl;
}

abbrev continuing : World ℕ
continuing = connected_world (frame (codes "c") ++ codes "+")

Delivers-c : Delivers continuing (codes "c") (codes "+")
Delivers-c = delivers b'c' (λ e. absurd (omega arith))

gdb_stub_process-frame_example :
    gdb_stub_process rv32 counter 0 continuing
    ≡ dispatch rv32 counter 0
        (get_or (delivered continuing (codes "c") (codes "+")).ctx.stub.packet_buffer 0 0)
        (delivered continuing (codes "c") (codes "+"))
gdb_stub_process-frame_example =
    gdb_stub_process-frame rv32 counter 0 continuing (codes "c") (codes "+") Delivers-c

gdb_stub_process-continue_all_example :
    (ctx : Context) × (gdb_stub_process rv32 counter 0 continuing
      ≡ some (
        pos 1,
        run_optional counter.resume (with_ctx (delivered continuing (codes "c") (codes "+")) ctx),
      ))
    × (ctx.single_step ≡ false)
    × (ctx.should_stop ≡ false)
    × ((thread : ℤ) → gdb_stub_should_run_thread ctx thread ≡ true)
gdb_stub_process-continue_all_example =
    gdb_stub_process-continue_all rv32 counter 0 continuing (codes "+") Delivers-c

abbrev stepping : World ℕ
stepping = connected_world (frame (codes "s") ++ codes "+")

stepping_selected : is_positive stepping.ctx.current_thread ≡ true
unfolding initial_context
stepping_selected = refl

gdb_stub_process-step_thread_example :
    (ctx : Context) × (gdb_stub_process rv32 counter 0 stepping
      ≡ some (
        pos 1,
        run_optional counter.resume (with_ctx (delivered stepping (codes "s") (codes "+")) ctx),
      ))
    × (ctx.single_step ≡ true)
    × (ctx.should_stop ≡ false)
    × ((thread : ℤ)
        → gdb_stub_should_run_thread ctx thread
          ≡ eqb_ℤ
              (if is_negative stepping.ctx.continue_thread
                then stepping.ctx.current_thread
                else stepping.ctx.continue_thread)
              thread)
gdb_stub_process-step_thread_example =
    gdb_stub_process-step_thread rv32 counter 0 stepping (codes "+")
      (delivers b's' (λ e. absurd (omega arith))) stepping_selected

abbrev corrupt : World ℕ
corrupt = connected_world (codes "$g#00+")

corrupt_digits : hex_to_int b'0' * 16 + hex_to_int b'0' ≢ calculate_checksum (codes "g")
unfolding hex_to_int calculate_checksum
corrupt_digits e = absurd (omega (arith, e))

gdb_stub_process-corrupt_example :
    gdb_stub_process rv32 counter 0 corrupt
    ≡ some (
      minus_one,
      record corrupt {
        ctx = record corrupt.ctx {
          stub = count_failure (load_packet corrupt.ctx.stub (codes "g"));
        };
        wire =
            (send_ack b'-'
              (load_packet corrupt.ctx.stub (codes "g"))
              (record corrupt.wire { inbox = codes "+" })).1;
      },
    )
gdb_stub_process-corrupt_example =
    gdb_stub_process-corrupt rv32 counter 0 corrupt (codes "g") (codes "+") b'0' b'0' refl
      (unfold initial_context in omega arith) refl ((λ e. absurd (omega arith)), tt)
      (unfold initial_context in refl) (omega arith) corrupt_digits

abbrev vcont_world : World ℕ
vcont_world = with_buffer (connected_world []) (codes "vCont;" ++ step_one 2)

vcont_text : c_str (packet_buffer vcont_world) ≡ codes "vCont;" ++ step_one 2
unfolding c_str format_hex
vcont_text = refl

handle_vcont-step_one_example :
    (ctx : Context) × (handle_vcont counter vcont_world
      ≡ (run_optional counter.resume (with_ctx vcont_world ctx), true))
    × (ctx.single_step ≡ true)
    × ((other : ℤ) → gdb_stub_should_run_thread ctx other ≡ eqb_ℤ (pos 2) other)
handle_vcont-step_one_example =
    handle_vcont-step_one counter vcont_world 2 (omega arith) (omega arith) vcont_text

-- thread 2 steps, threads 3 and 17 continue
abbrev three_actions : List ThreadAction
three_actions = ThreadAction.step 2 ∷ ThreadAction.continue 3 ∷ ThreadAction.continue 17 ∷ []

abbrev actions_world : World ℕ
actions_world =
    with_buffer (connected_world [])
      (codes "vCont;s:p1.2;c:p1.3;c:p1.11" ++ (0 ∷ drop 28 (packet_buffer (connected_world []))))

actions_packet : c_str (packet_buffer actions_world) ≡ codes "vCont" ++ actions_text three_actions
unfolding c_str format_hex
actions_packet = refl

handle_vcont-actions_text_example : handle_vcont counter actions_world ≡ (
  run_optional counter.resume (with_ctx actions_world (running three_actions actions_world.ctx)),
  true,
)
handle_vcont-actions_text_example =
    handle_vcont-actions_text counter actions_world (ThreadAction.step 2)
      (ThreadAction.continue 3 ∷ ThreadAction.continue 17 ∷ [])
      (omega arith, omega arith, (omega arith, omega arith, (omega arith, omega arith, tt)))
      actions_packet

abbrev memory : ℕ → ℕ
memory a = a % 256

reads : ReadsMemory counter memory
reads addr ctx sim = refl

abbrev searching : World ℕ
searching = connected_world []

search_memory-FirstMatch_example :
    (r : Option ℕ) × (search_memory rv32 counter 100 0x200 64 (5 ∷ 6 ∷ []) searching
      ≡ some (reply searching (answer rv32 r)))
    × FirstMatch (λ a. occurs_at rv32 memory (5 ∷ 6 ∷ []) a 0) 0x200 (0x200 + 64 - 2) r
search_memory-FirstMatch_example =
    search_memory-FirstMatch rv32 counter memory reads (5 ∷ 6 ∷ []) 100 0x200 64 searching
      (omega arith) (omega arith) (omega arith) (omega arith)

nowhere : (a : ℕ) → occurs_at rv32 memory (5 ∷ 9 ∷ []) a 0 ≡ false
unfolding occurs_at
nowhere a = ground arith

search_loop-endless_example :
    search_loop rv32 counter 1000 (5 ∷ 9 ∷ []) 0xffff0000 (word_mod rv32 - 1) searching ≡ none
search_loop-endless_example =
    search_loop-endless rv32 counter memory reads (5 ∷ 9 ∷ []) 1000 0xffff0000 searching
      (omega arith) nowhere

continuing-WellFormed : WellFormed continuing
unfolding initial_context Slots.IsDistinct
continuing-WellFormed = (
  record {
    breakpoint_array = refl;
    breakpoint_count_le = omega arith;
    breakpoints_distinct = tt;
    watchpoint_array = refl;
    watchpoint_count_le = omega arith;
    watchpoints_distinct = tt;
  },
  refl,
)

gdb_stub_process-Returns_example : Returns (gdb_stub_process rv32 counter 0 continuing)
gdb_stub_process-Returns_example =
    gdb_stub_process-Returns rv32 counter 0 continuing continuing-WellFormed

abbrev reset_ctx : Context
reset_ctx = (handle_reset counter searching).ctx

handle_reset_lem_example :
    ((pc : ℕ) → stops_at reset_ctx pc ≡ false)
    × ((k : WatchpointKey) → watches reset_ctx k ≡ false)
    × ((thread : ℤ) → gdb_stub_should_run_thread reset_ctx thread ≡ true)
    × (reset_ctx.should_stop ≡ true)
    × (reset_ctx.single_step ≡ false)
    × (reset_ctx.breakpoint_hit ≡ false)
handle_reset_lem_example = handle_reset_lem counter searching

abbrev selecting : World ℕ
selecting = with_buffer (connected_world []) (codes "Hg3")

selecting-HasThread : HasThread counter selecting selecting.ctx.current_thread
unfolding initial_context
selecting-HasThread = (refl, refl)

handle_set_thread-HasThread_example :
    HasThread counter selecting (handle_set_thread counter selecting).ctx.current_thread
handle_set_thread-HasThread_example =
    handle_set_thread-HasThread counter selecting selecting-HasThread
