-- ===== src/Tests/Emulator.antt =====
-- The emulator of emu/ on its test program and on small machines.
use gdb_stub.Prelude.{
  ◌+◌, ◌≤◌, ◌<◌, ◌≡◌, ◌≢◌, refl, inl, Bool, true, false, some, [], ◌∷◌, ◌==◌, if◌then◌else◌, arith,
}
use gdb_stub.Prelude.Text.{codes}
use gdb_stub.Prelude.Int.{minus_one}
use gdb_stub.Slots
use gdb_stub.Context.{Context, watchpoint_write, initial_context}
use gdb_stub.Breakpoints.{gdb_stub_add_breakpoint}
use gdb_stub.Watchpoints.{gdb_stub_add_watchpoint}
use gdb_stub.Thread.{gdb_stub_should_run_thread}
use gdb_stub.World.{World}
use gdb_stub.Emu.Ram.{IsBytes, ram_size, ram_base, store32}
use gdb_stub.Emu.Cpu.{Machine, empty_cpu, in_ram, run_check, rv32_cpu_read_mem, rv32_cpu_write_mem}
use gdb_stub.Emu.Disassemble.{rv32_cpu_disassemble, format_decimal}
use gdb_stub.Emu.Decode.{sign_extend}
use gdb_stub.Emu.Step.{rv32_cpu_step}
use gdb_stub.Emu.Instr.{Instr, ImmOp, encode}
use gdb_stub.Emu.Instr.Meaning.{advance, meaning}
use gdb_stub.Emu.Instr.Effects.{HasWords}
use gdb_stub.Emu.Instr.Laws.{rv32_cpu_step-encode}
use gdb_stub.Emu.Memory.{
  rv32_cpu_read_mem-rv32_cpu_write_mem, rv32_cpu_write_mem_bounds, WatchedWrite,
  rv32_cpu_write_mem-WatchedWrite,
}
use gdb_stub.Emu.System.{System, on_hart}
use gdb_stub.Emu.Sync.{
  smp_sync_on_counter_store, clear_ipis, smp_sync_reset, smp_sync_init_worker_hart,
}
use gdb_stub.Emu.Board.{valid_hart_count}
use gdb_stub.Emu.Program.{init_system, init_hart}
use gdb_stub.Emu.Workers.{Surroundings, after_jobs, JobDone, smp_sync_on_counter_store-JobDone}
use gdb_stub.Emu.Run.{Poll, continue_all_harts, continue_hart, should_step_hart}
use gdb_stub.Emu.Stops.{continue_all_harts_ends}
use gdb_stub.Emu.Stops.Interrupt.{interrupted_at, continue_all_harts-interrupt}
use gdb_stub.Emu.Break.{broken_at, continue_hart-broken_at}
use gdb_stub.Tests.Fixtures.{fresh, wire_with}

-- `addi x5, x1, -3`
abbrev addi_instr : Instr
addi_instr = Instr.op_imm ImmOp.addi 5 1 0xffd

-- a machine about to execute it
abbrev small : Machine Unit
small = record {
  cpu = record empty_cpu { pc = ram_base; running = true };
  ram = store32 0 (encode addi_instr) (λ i. 0);
  output = [];
  env = tt;
}

small-IsBytes : IsBytes small.ram
unfolding encode
small-IsBytes i = ground arith

small-HasWords : HasWords small.cpu
small-HasWords i = ground arith

rv32_cpu_step-encode_example : rv32_cpu_step small ≡ meaning addi_instr ram_base (advance small)
unfolding encode rv32_cpu_read_mem run_check
rv32_cpu_step-encode_example =
    rv32_cpu_step-encode addi_instr small refl refl (omega arith, omega arith, omega arith)
      small-HasWords small-IsBytes

disassembles_addi : rv32_cpu_disassemble (encode addi_instr) ram_base 128 ≡ codes "addi x5, x1, -3"
unfolding rv32_cpu_disassemble encode format_decimal sign_extend
disassembles_addi = refl

rv32_cpu_read_mem-rv32_cpu_write_mem_example :
    (rv32_cpu_read_mem 0x8000ffff 1 (rv32_cpu_write_mem 0x8000ffff 0x1234 1 small)).0 ≡ 0x34
unfolding in_ram
rv32_cpu_read_mem-rv32_cpu_write_mem_example =
    rv32_cpu_read_mem-rv32_cpu_write_mem 0x8000ffff 1 0x1234 small (inl refl) refl (omega arith)

changed : (rv32_cpu_write_mem 0x8000fffe 0x1234 2 small).ram 0xffff ≢ small.ram 0xffff
unfolding rv32_cpu_write_mem encode
changed e = absurd (omega (arith, e))

rv32_cpu_write_mem_bounds_example :
    (0x8000fffe ≤ ram_base + 0xffff) × (ram_base + 0xffff < 0x8000fffe + 2) × (0xffff < ram_size)
rv32_cpu_write_mem_bounds_example =
    rv32_cpu_write_mem_bounds 0x8000fffe 2 0x1234 0xffff small changed

-- an attached client with a write watchpoint on the demo's counter
abbrev attached : Context
attached =
    let ctx = (gdb_stub_add_watchpoint fresh 0x80001000 4 watchpoint_write).0 in
    record ctx { stub = record ctx.stub { connected = true } }

abbrev watched_system : System
watched_system = record (init_system 2) { gdb_ctx = some attached }

rv32_cpu_write_mem-WatchedWrite_example :
    WatchedWrite 1 0x80001000 7 4 attached watched_system
      (on_hart 1 (rv32_cpu_write_mem 0x80001000 7 4) watched_system)
unfolding init_system initial_context gdb_stub_add_watchpoint clear_ipis smp_sync_reset
    smp_sync_init_worker_hart init_hart
rv32_cpu_write_mem-WatchedWrite_example =
    rv32_cpu_write_mem-WatchedWrite 1 0x80001000 7 4 attached watched_system refl refl refl

-- a client attached to two harts, with a breakpoint at the start of the program
abbrev running_world : World System
running_world =
    let ctx = (gdb_stub_add_breakpoint fresh 0x80000000).0 in
    record {
      ctx = record ctx { stub = record ctx.stub { connected = true } };
      sim = init_system 2;
      wire = wire_with [];
    }

abbrev interrupted : Poll
interrupted = record { interrupt = true; readable = false }

continue_all_harts_ends_example :
    (r : Bool × World System) × (continue_all_harts (interrupted ∷ []) false running_world ≡ some r)
    × (r.1.ctx.should_stop ≡ true)
continue_all_harts_ends_example =
    continue_all_harts_ends (interrupted ∷ []) false running_world 0 interrupted refl refl

continue_all_harts-interrupt_example :
    continue_all_harts (interrupted ∷ []) false running_world
    ≡ some (true, interrupted_at running_world.sim.focus_hart running_world)
unfolding initial_context gdb_stub_add_breakpoint
continue_all_harts-interrupt_example =
    continue_all_harts-interrupt interrupted [] false running_world refl refl refl refl

continue_hart-broken_at_example : continue_hart 0 running_world ≡ (true, broken_at 0 running_world)
unfolding init_system initial_context gdb_stub_add_breakpoint should_step_hart
    gdb_stub_should_run_thread clear_ipis smp_sync_reset init_hart Slots.is_armed
continue_hart-broken_at_example = continue_hart-broken_at 0 running_world refl refl refl

-- hart 0 is stopped with its counter at 77
abbrev counting : Surroundings
counting = record {
  regs = λ h i. h + i;
  counts = λ h. 0;
  main_hart = record empty_cpu { pc = 0x80000018; running = true };
  ctx = fresh;
  focus_hart = 0;
  stop_hart = minus_one;
  output = [];
  old_item = 76;
  rest_of_ram = λ i. if i == 0x1000 then 77 else 0;
}

smp_sync_on_counter_store-JobDone_example :
    JobDone 3 77 5 (smp_sync_on_counter_store 0 77 (after_jobs counting 4 5))
unfolding valid_hart_count
smp_sync_on_counter_store-JobDone_example =
    smp_sync_on_counter_store-JobDone counting 4 77 5 refl (omega arith) (omega arith) (omega arith)
