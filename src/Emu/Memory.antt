-- ===== src/Emu/Memory.antt =====
-- The memory accesses of emu/rv32_cpu.c: `rv32_cpu_read_mem` and `rv32_cpu_write_mem`, and the
-- hooks of emu/main.c behind them.
use gdb_stub.Prelude.{
  ℕ, ◌+◌, ◌-◌, ◌*◌, ◌%◌, ◌^◌, ◌≤◌, ◌<◌, ◌≡◌, ◌≢◌, ◌⊎◌, inl, inr, refl, Bool-cases, ap, ◌∙◌, ◌&&◌,
  Bool, true, false, ◌||◌, ◌==◌, Option, none, some, if◌then◌else◌, arith,
}
use gdb_stub.Prelude.Int.{pos}
use gdb_stub.Context.{Context}
use gdb_stub.Watchpoints.{gdb_stub_check_watchpoint_write}
use gdb_stub.Emu.Ram.{Ram, ram_size, ram_base, uart_base, load16, load32, store16, store32}
use gdb_stub.Emu.Cpu.{
  Cpu, Machine, in_ram, load_sized, store_sized, run_check, Check, rv32_cpu_read_mem,
  rv32_cpu_write_mem,
}
use gdb_stub.Emu.System.{
  System, Hooks, on_hart, hook, gdb_watchpoint_write, array_of, machine_of, update,
}

-- the sizes of the accesses of the instructions
abbrev pub IsAccessSize : ℕ → Type 0
IsAccessSize size = (size ≡ 1) ⊎ (size ≡ 2) ⊎ (size ≡ 4)

load16-store16 : (ram : Ram) (i v : ℕ) → v < 2 ^ 16 → load16 (store16 i v ram) i ≡ v
load16-store16 ram i v h = ground arith

load32-store32 : (ram : Ram) (i v : ℕ) → v < 2 ^ 32 → load32 (store32 i v ram) i ≡ v
load32-store32 ram i v h = ground arith

load_sized-store_sized :
    (ram : Ram) (size i v : ℕ)
    → IsAccessSize size
    → v < 2 ^ 32
    → load_sized size (store_sized size i v ram) i ≡ v % 2 ^ (8 * size)
unfolding load_sized store_sized
load_sized-store_sized ram size i v (inl e) h = rw e (ground arith)
load_sized-store_sized ram size i v (inr (inl e)) h =
    rw e (load16-store16 ram i (v % 2 ^ 16) (omega arith))
load_sized-store_sized ram size i v (inr (inr e)) h = rw e (omega (arith, load32-store32 ram i v h))

store_sized_other :
    (ram : Ram) (size i v j : ℕ) → store_sized size i v ram j ≢ ram j → (i ≤ j) × (j < i + size)
unfolding store_sized
store_sized_other ram size i v j h = ground arith

bounds_of :
    (addr size i : ℕ)
    → in_ram addr size ≡ true
    → addr - ram_base ≤ i
    → i < addr - ram_base + size
    → (addr ≤ ram_base + i) × (ram_base + i < addr + size) × (i < ram_size)
unfolding in_ram
bounds_of addr size i inside low high = ground arith

module _ {Env : Type 0} where
  pub run_check-ram :
      (c : Option (Check Env)) (addr size : ℕ) (m : Machine Env)
      → (run_check c addr size m).ram ≡ m.ram
  unfolding run_check
  run_check-ram none addr size m = refl
  run_check-ram (some c) addr size m = refl

  rv32_cpu_write_mem_inside :
      (addr value size : ℕ) (m : Machine Env)
      → in_ram addr size ≡ true
      → (rv32_cpu_write_mem addr value size m).ram ≡ store_sized size (addr - ram_base) value m.ram
  unfolding rv32_cpu_write_mem
  rv32_cpu_write_mem_inside addr value size m inside =
      rw (rv32_cpu_write_mem, inside, run_check-ram m.cpu.check_watchpoint_write addr size m) refl

  rv32_cpu_write_mem_outside :
      (addr value size : ℕ) (m : Machine Env)
      → in_ram addr size ≡ false
      → (rv32_cpu_write_mem addr value size m).ram ≡ m.ram
  unfolding rv32_cpu_write_mem
  rv32_cpu_write_mem_outside addr value size m outside =
      let same = run_check-ram m.cpu.check_watchpoint_write addr size m in
      elim (Bool-cases (addr == uart_base && size == 1)) [
        | inl u ↦ rw (rv32_cpu_write_mem, outside, u) same
        | inr u ↦ rw (rv32_cpu_write_mem, outside, u) same
      ]

  pub rv32_cpu_read_mem_inside :
      (addr size : ℕ) (m : Machine Env)
      → in_ram addr size ≡ true
      → (rv32_cpu_read_mem addr size m).0 ≡ load_sized size m.ram (addr - ram_base)
  unfolding rv32_cpu_read_mem
  rv32_cpu_read_mem_inside addr size m inside =
      rw (rv32_cpu_read_mem, inside)
        (ap (λ (r : Ram). load_sized size r (addr - ram_base))
          (run_check-ram m.cpu.check_watchpoint_read addr size m))

  -- Reading the bytes that an access of 1, 2 or 4 bytes inside the RAM has just written gives the 32-bit value written, reduced to the size of the access, whatever the watchpoint checks do.
  pub rv32_cpu_read_mem-rv32_cpu_write_mem :
      (addr size value : ℕ) (m : Machine Env)
      → IsAccessSize size
      → in_ram addr size ≡ true
      → value < 2 ^ 32
      → (rv32_cpu_read_mem addr size (rv32_cpu_write_mem addr value size m)).0
        ≡ value % 2 ^ (8 * size)
  unfolding rv32_cpu_read_mem rv32_cpu_write_mem
  rv32_cpu_read_mem-rv32_cpu_write_mem addr size value m s inside h =
      let written = rv32_cpu_write_mem addr value size m in
      rv32_cpu_read_mem_inside addr size written inside
      ∙ (ap (λ (r : Ram). load_sized size r (addr - ram_base))
            (rv32_cpu_write_mem_inside addr value size m inside)
          ∙ load_sized-store_sized m.ram size (addr - ram_base) value s h)

  -- A byte of the RAM that a write changes, of whatever size and at whatever address, is one of the
  -- bytes of the access, and it is inside the array.
  pub rv32_cpu_write_mem_bounds :
      (addr size value i : ℕ) (m : Machine Env)
      → (rv32_cpu_write_mem addr value size m).ram i ≢ m.ram i
      → (addr ≤ ram_base + i) × (ram_base + i < addr + size) × (i < ram_size)
  unfolding rv32_cpu_write_mem
  rv32_cpu_write_mem_bounds addr size value i m h = elim (Bool-cases (in_ram addr size)) [
    | inl inside ↦
        let changed : store_sized size (addr - ram_base) value m.ram i ≢ m.ram i =
          λ e. h (ap (λ (r : Ram). r i) (rv32_cpu_write_mem_inside addr value size m inside) ∙ e) in
        let (low, high) = store_sized_other m.ram size (addr - ram_base) value i changed in
        bounds_of addr size i inside low high
    | inr outside ↦
        absurd (h (ap (λ (r : Ram). r i) (rv32_cpu_write_mem_outside addr value size m outside)))
  ]

module _ {Env : Type 0} where
  rv32_cpu_write_mem-check :
      (addr value size : ℕ) (m : Machine Env)
      → ((rv32_cpu_write_mem addr value size m).cpu
          ≡ (run_check m.cpu.check_watchpoint_write addr size m).cpu)
        × ((rv32_cpu_write_mem addr value size m).env
            ≡ (run_check m.cpu.check_watchpoint_write addr size m).env)
  unfolding rv32_cpu_write_mem
  rv32_cpu_write_mem-check addr value size m = ground arith

update_self {ℓ} : {A : Type ℓ} (i : ℕ) (a : A) (f : ℕ → A) → update i a f i ≡ a
update_self i a f = ground arith

hook_connected :
    (check : Context → ℕ → ℕ → Context × Bool) (hart_id addr len : ℕ) (env : Hooks) (ctx : Context)
    → env.gdb_ctx ≡ some ctx
    → ctx.stub.connected ≡ true
    → hook check hart_id addr len env ≡ (
      (check ctx addr len).1,
      record {
        gdb_ctx = some (check ctx addr len).0;
        stop_hart = if (check ctx addr len).1 then pos hart_id else env.stop_hart;
      },
    )
unfolding hook
hook_connected check hart_id addr len env ctx attached connected = rw (attached, connected) refl

run_check-hook :
    (h addr size : ℕ) (ctx : Context) (sys : System)
    → (sys.harts h).check_watchpoint_write ≡ some (gdb_watchpoint_write (sys.harts h).hart_id)
    → sys.gdb_ctx ≡ some ctx
    → ctx.stub.connected ≡ true
    → ((run_check (sys.harts h).check_watchpoint_write addr size (machine_of h sys)).cpu
        ≡ record (sys.harts h) {
          halted = (gdb_stub_check_watchpoint_write ctx addr size).1 || (sys.harts h).halted;
        })
      × ((run_check (sys.harts h).check_watchpoint_write addr size (machine_of h sys)).env
          ≡ record {
            gdb_ctx = some (gdb_stub_check_watchpoint_write ctx addr size).0;
            stop_hart =
                if (gdb_stub_check_watchpoint_write ctx addr size).1
                then pos (sys.harts h).hart_id
                else sys.stop_hart;
          })
unfolding run_check gdb_watchpoint_write
run_check-hook h addr size ctx sys hooked attached connected =
    let answer =
      hook_connected gdb_stub_check_watchpoint_write (sys.harts h).hart_id addr size
        (machine_of h sys).env ctx attached connected in
    rw (hooked, answer) (refl, refl)

-- what a hart's write does to the rest of the system
pub record WatchedWrite (h addr value size : ℕ) (ctx : Context) (sys after : System) : Type 0 where
  pub recorded : after.gdb_ctx ≡ some (gdb_stub_check_watchpoint_write ctx addr size).0
  pub hit :
      (gdb_stub_check_watchpoint_write ctx addr size).1 ≡ true
      → ((after.harts h).halted ≡ true) × (after.stop_hart ≡ pos (sys.harts h).hart_id)
  pub miss :
      (gdb_stub_check_watchpoint_write ctx addr size).1 ≡ false
      → ((after.harts h).halted ≡ (sys.harts h).halted) × (after.stop_hart ≡ sys.stop_hart)
  pub stored :
      in_ram addr size ≡ true
      → after.memory (array_of sys h)
        ≡ store_sized size (addr - ram_base) value (sys.memory (array_of sys h))

-- A write by a hart whose hooks are set up, while a client is attached, stores its value in the
-- array that the hart uses if it is inside the RAM; the stub's check sees the access and changes the
-- context; if it hits, the hart is halted and named as the one that stopped, and if it does
-- not, neither changes.
pub rv32_cpu_write_mem-WatchedWrite :
    (h addr value size : ℕ) (ctx : Context) (sys : System)
    → (sys.harts h).check_watchpoint_write ≡ some (gdb_watchpoint_write (sys.harts h).hart_id)
    → sys.gdb_ctx ≡ some ctx
    → ctx.stub.connected ≡ true
    → WatchedWrite h addr value size ctx sys (on_hart h (rv32_cpu_write_mem addr value size) sys)
rv32_cpu_write_mem-WatchedWrite h addr value size ctx sys hooked attached connected =
    let m = machine_of h sys in
    let (same_cpu, same_env) = rv32_cpu_write_mem-check addr value size m in
    let own = update_self h (rv32_cpu_write_mem addr value size m).cpu sys.harts in
    let checked = run_check-hook h addr size ctx sys hooked attached connected in
    record {
      recorded = ap (λ (e : Hooks). e.gdb_ctx) (same_env ∙ checked.1);
      hit = λ e. (
        ap (λ (c : Cpu Hooks). c.halted) (own ∙ (same_cpu ∙ checked.0)) ∙ ground (arith, e),
        ap (λ (e : Hooks). e.stop_hart) (same_env ∙ checked.1) ∙ ground (arith, e),
      );
      miss = λ e. (
        ap (λ (c : Cpu Hooks). c.halted) (own ∙ (same_cpu ∙ checked.0)) ∙ ground (arith, e),
        ap (λ (e : Hooks). e.stop_hart) (same_env ∙ checked.1) ∙ ground (arith, e),
      );
      stored = λ inside.
          update_self (array_of sys h) (rv32_cpu_write_mem addr value size m).ram sys.memory
          ∙ rv32_cpu_write_mem_inside addr value size m inside;
    }
