-- ===== src/Emu/Program.antt =====
-- The programs in RAM and the start: `create_test_program` and `init_system` of emu/main.c, and
-- emu/smp_program.h.
use gdb_stub.Prelude.{ℕ, ◌-◌, ◌/◌, ◌%◌, ◌^◌, none, List, [], ◌∷◌, set, ltb, ◌==◌, if◌then◌else◌}
use gdb_stub.Prelude.Int.{pos, minus_one}
use gdb_stub.Emu.Ram.{ram_base, copy_bytes}
use gdb_stub.Emu.Cpu.{Cpu, rv32_reg_tp, empty_cpu, rv32_cpu_init, rv32_cpu_load_program}
use gdb_stub.Emu.System.{System, Hooks, update, array_of, map_harts, setup_hart_watchpoints}
use gdb_stub.Emu.Sync.{smp_sync_reset, smp_sync_ram_init, smp_sync_init_worker_hart}
use gdb_stub.Emu.Board.{valid_hart_count}

abbrev pub smp_worker_wait : ℕ
smp_worker_wait = 0x80000030

-- the memory of an array of `uint32_t`, on a little-endian machine
abbrev pub word_bytes : List ℕ → List ℕ
word_bytes [] = []
word_bytes (w ∷ ws) =
    w % 2 ^ 8 ∷ w / 2 ^ 8 % 2 ^ 8 ∷ w / 2 ^ 16 % 2 ^ 8 ∷ w / 2 ^ 24 % 2 ^ 8 ∷ word_bytes ws

abbrev pub smp_worker_code : List ℕ
smp_worker_code =
    0x80002437 ∷ 0x01040293 ∷ 0x00221e13 ∷ 0x01c282b3 ∷ 0x0002a303 ∷ 0x00030663 ∷ 0x0002a023
    ∷ 0x008000ef ∷ 0xfe5ff06f ∷ 0x00042283 ∷ 0xfe029ee3 ∷ 0x00120293 ∷ 0x00542023 ∷ 0x00842383
    ∷ 0x02038063 ∷ 0x00442303 ∷ 0x00042423 ∷ 0x00030493 ∷ 0x00c42383 ∷ 0x00138393 ∷ 0x00742623
    ∷ 0x00038913 ∷ 0x00042023 ∷ 0xfa9ff06f ∷ []

abbrev pub test_program : List ℕ
test_program =
    0x800002b7 ∷ 0x00000313 ∷ 0x00500393 ∷ 0x80001437 ∷ 0x00040413 ∷ 0x00642023 ∷ 0x00042e03
    ∷ 0x00130313 ∷ 0x00731463 ∷ 0xff1ff06f ∷ 0x00642223 ∷ 0x0000006f ∷ []

-- `if (h > 0) smp_sync_init_worker_hart(sys, &sys->harts[h])`
abbrev pub start_worker : ℕ → Cpu Hooks → Cpu Hooks
start_worker h cpu = if h == 0 then cpu else smp_sync_init_worker_hart cpu

-- The test program goes to the array that hart 0 uses, the workers' code to its own.
unfoldable pub create_test_program : System → System
unfolding smp_sync_ram_init
create_test_program sys =
    let array = array_of sys 0 in
    let loaded = (rv32_cpu_load_program (word_bytes test_program) ram_base (sys.memory array)).1 in
    let memory = update array loaded sys.memory in
    let workers = copy_bytes (smp_worker_wait - ram_base) (word_bytes smp_worker_code) (memory 0) in
    map_harts start_worker (
      smp_sync_ram_init
        (smp_sync_reset sys.num_harts (record sys { memory = update 0 workers memory })))

-- the body of the loop of `init_system`
unfoldable pub init_hart : ℕ → Cpu Hooks
unfolding setup_hart_watchpoints
init_hart h =
    let cpu = rv32_cpu_init {Env = Hooks} in
    setup_hart_watchpoints
      (record cpu { hart_id = h; regs = set cpu.regs rv32_reg_tp h; shared_ram = ltb 0 h })

-- `memset(sys, 0, sizeof(*sys))`
abbrev pub zero_system : System
zero_system = record {
  harts = λ h. empty_cpu;
  memory = λ h i. 0;
  sync_num_harts = 0;
  num_harts = 0;
  focus_hart = 0;
  stop_hart = pos 0;
  gdb_ctx = none;
  output = [];
}

unfoldable pub init_system : ℕ → System
unfolding create_test_program valid_hart_count
init_system requested =
    let num_harts = if valid_hart_count requested then requested else 1 in
    create_test_program (
      map_harts (λ h cpu. init_hart h)
        (record zero_system { num_harts = num_harts; focus_hart = 0; stop_hart = minus_one }))
