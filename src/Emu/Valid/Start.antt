-- ===== src/Emu/Valid/Start.antt =====
-- The start of emu/main.c, and `smp_sync_ram_init`, with well-formed systems.
use gdb_stub.Prelude.{
  ℕ, zero, suc, ◌+◌, ◌-◌, ◌^◌, ◌<◌, ◌≡◌, refl, Bool, true, false, List, [], ◌∷◌, get_or, length,
  leb, ltb, ◌&&◌, if◌then◌else◌, arith,
}
use gdb_stub.Prelude.Int.{minus_one}
use gdb_stub.Emu.Ram.{IsBytes, Ram, ram_base, copy_bytes}
use gdb_stub.Emu.Cpu.{empty_cpu, rv32_cpu_load_program}
use gdb_stub.Emu.System.{System, array_of, update}
use gdb_stub.Emu.Sync.{
  smp_sync_ram_init, smp_sync_reset, clear_ipis, smp_ipi_pending, smp_lock, smp_work_item,
  smp_work_ready, smp_shared_done, smp_num_harts,
}
use gdb_stub.Emu.Board.{valid_hart_count}
use gdb_stub.Emu.Program.{
  init_system, create_test_program, start_worker, word_bytes, test_program, smp_worker_code,
  smp_worker_wait, zero_system, init_hart,
}
use gdb_stub.Emu.Valid.System.{CpuIsValid, SystemIsValid, ram_write32-SystemIsValid, update_all}
use gdb_stub.Emu.Valid.Harts.{
  map_harts-SystemIsValid, get_or-replicate, start_worker-CpuIsValid, init_hart-CpuIsValid,
}

clear_ipis-SystemIsValid :
    (n : ℕ) (sys : System) → SystemIsValid sys → SystemIsValid (clear_ipis n sys)
unfolding clear_ipis
clear_ipis-SystemIsValid zero sys v = v
clear_ipis-SystemIsValid (suc n) sys v =
    ram_write32-SystemIsValid (smp_ipi_pending n) 0 _ (clear_ipis-SystemIsValid n sys v)

pub smp_sync_ram_init-SystemIsValid :
    (sys : System) → SystemIsValid sys → SystemIsValid (smp_sync_ram_init sys)
unfolding smp_sync_ram_init
smp_sync_ram_init-SystemIsValid sys v = clear_ipis-SystemIsValid 8 _ (
    ram_write32-SystemIsValid smp_num_harts sys.num_harts _ (
      ram_write32-SystemIsValid smp_shared_done 0 _ (
        ram_write32-SystemIsValid smp_work_ready 0 _ (
          ram_write32-SystemIsValid smp_work_item 0 _
            (ram_write32-SystemIsValid smp_lock 0 sys v)))))

-- a hart number is an `int`
pub hart_lt : (n h : ℕ) → valid_hart_count n ≡ true → h < n → h < 2 ^ 32
unfolding valid_hart_count
hart_lt n h valid l = ground arith

pub with_reset-SystemIsValid :
    (n : ℕ) (sys : System) → SystemIsValid sys → SystemIsValid (smp_sync_reset n sys)
unfolding smp_sync_reset
with_reset-SystemIsValid n sys v = record {
  cpus = v.cpus;
  arrays = v.arrays;
  hart_count = v.hart_count;
  focused = v.focused;
}

pub positive_count : (n : ℕ) → valid_hart_count n ≡ true → 0 < n
unfolding valid_hart_count
positive_count n h = ground arith

count_of_request : (n : ℕ) → valid_hart_count (if valid_hart_count n then n else 1) ≡ true
unfolding valid_hart_count
count_of_request n = ground arith

word_bytes_bound : (ws : List ℕ) (i : ℕ) → get_or (word_bytes ws) i 0 < 2 ^ 8
word_bytes_bound [] i = omega arith
word_bytes_bound (w ∷ ws) zero = omega arith
word_bytes_bound (w ∷ ws) (suc zero) = omega arith
word_bytes_bound (w ∷ ws) (suc (suc zero)) = omega arith
word_bytes_bound (w ∷ ws) (suc (suc (suc zero))) = omega arith
word_bytes_bound (w ∷ ws) (suc (suc (suc (suc i)))) = word_bytes_bound ws i

copy_bytes-IsBytes :
    (offset : ℕ) (ws : List ℕ) (ram : Ram)
    → IsBytes ram
    → IsBytes (copy_bytes offset (word_bytes ws) ram)
unfolding copy_bytes
copy_bytes-IsBytes offset ws ram p i =
    byte_if (leb offset i && ltb i (offset + length (word_bytes ws))) _ _
      (word_bytes_bound ws (i - offset)) (p i)
  where
    byte_if : (b : Bool) (x y : ℕ) → x < 2 ^ 8 → y < 2 ^ 8 → (if b then x else y) < 2 ^ 8
    byte_if b x y h g = ground arith

load_program-IsBytes :
    (ws : List ℕ) (base : ℕ) (ram : Ram)
    → IsBytes ram
    → IsBytes (rv32_cpu_load_program (word_bytes ws) base ram).1
unfolding rv32_cpu_load_program
load_program-IsBytes ws base ram p =
    loaded_if _ (copy_bytes (base - ram_base) (word_bytes ws) ram) ram p
      (copy_bytes-IsBytes (base - ram_base) ws ram p)
  where
    loaded_if :
        (b : Bool) (r s : Ram)
        → IsBytes s
        → IsBytes r
        → IsBytes (if◌then◌else◌ {A = Bool × Ram} b (false, s) (true, r)).1
    loaded_if true r s p q = p
    loaded_if false r s p q = q

with_memory-SystemIsValid :
    (memory : ℕ → Ram) (sys : System)
    → ((a : ℕ) → IsBytes (memory a))
    → SystemIsValid sys
    → SystemIsValid (record sys { memory = memory })
with_memory-SystemIsValid memory sys p v = record {
  cpus = v.cpus;
  arrays = p;
  hart_count = v.hart_count;
  focused = v.focused;
}

create_test_program-SystemIsValid :
    (sys : System) → SystemIsValid sys → SystemIsValid (create_test_program sys)
unfolding create_test_program
create_test_program-SystemIsValid sys v =
    let array = array_of sys 0 in
    let loaded = (rv32_cpu_load_program (word_bytes test_program) ram_base (sys.memory array)).1 in
    let memory = update array loaded sys.memory in
    let valid =
      update_all IsBytes array loaded sys.memory
        (load_program-IsBytes test_program ram_base (sys.memory array) (v.arrays array)) v.arrays in
    let offset = smp_worker_wait - ram_base in
    let workers = copy_bytes offset (word_bytes smp_worker_code) (memory 0) in
    let valid' =
      update_all IsBytes 0 workers memory
        (copy_bytes-IsBytes offset smp_worker_code (memory 0) (valid 0)) valid in
    map_harts-SystemIsValid start_worker _ (λ h l c. start_worker-CpuIsValid h _ c)
      (smp_sync_ram_init-SystemIsValid _ (
        with_reset-SystemIsValid sys.num_harts _
          (with_memory-SystemIsValid (update 0 workers memory) sys valid' v)))

zero_cpu-CpuIsValid : CpuIsValid empty_cpu
zero_cpu-CpuIsValid = record {
  count = refl;
  x0 = refl;
  words = get_or-replicate 32;
  pc_word = omega arith;
}

pub started-SystemIsValid : (n : ℕ) → SystemIsValid (init_system n)
unfolding init_system
started-SystemIsValid requested =
    let n = if valid_hart_count requested then requested else 1 in
    let counted = count_of_request requested in
    let zeroed = record zero_system { num_harts = n; focus_hart = 0; stop_hart = minus_one } in
    let start : SystemIsValid zeroed = record {
      cpus = λ h. zero_cpu-CpuIsValid;
      arrays = λ a i. omega arith;
      hart_count = counted;
      focused = positive_count n counted;
    } in
    create_test_program-SystemIsValid _ (
      map_harts-SystemIsValid (λ h cpu. init_hart h) zeroed
        (λ h l c. init_hart-CpuIsValid h (hart_lt n h counted l)) start)
