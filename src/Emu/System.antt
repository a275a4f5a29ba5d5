-- ===== src/Emu/System.antt =====
-- The harts together: `struct rv32_system` of emu/rv32_system.h with the global variables of
-- emu/main.c, and the functions that run the code of one hart.
use gdb_stub.Prelude.{ℕ, Bool, false, not, ◌&&◌, Option, none, some, List, ltb, ◌==◌, if◌then◌else◌}
use gdb_stub.Prelude.Int.{ℤ, pos}
use gdb_stub.Context.{Context}
use gdb_stub.Watchpoints.{gdb_stub_check_watchpoint_read, gdb_stub_check_watchpoint_write}
use gdb_stub.Emu.Ram.{Ram}
use gdb_stub.Emu.Cpu.{Cpu, Machine, Check}

-- What the watchpoint hooks reach: the context at `g_gdb_ctx` and `g_sys.stop_hart`.
pub record Hooks : Type 0 where
  pub gdb_ctx : Option Context
  pub stop_hart : ℤ

-- `memory h` is the array of hart `h`; `sync` has one field, `sync_num_harts`. `gdb_ctx` is the
-- context at `g_gdb_ctx`, which is null until the stub is set up.
pub record System : Type 0 where
  pub harts : ℕ → Cpu Hooks
  pub memory : ℕ → Ram
  pub sync_num_harts : ℕ
  pub num_harts : ℕ
  pub focus_hart : ℕ
  pub stop_hart : ℤ
  pub gdb_ctx : Option Context
  pub output : List ℕ

abbrev pub update {ℓ} : {A : Type ℓ} → ℕ → A → (ℕ → A) → ℕ → A
update i a f j = if i == j then a else f j

-- `rv32_cpu_ram`: the index of the array that a hart uses; a shared one is that of hart 0.
abbrev pub array_of : System → ℕ → ℕ
array_of sys h = if (sys.harts h).shared_ram then 0 else h

abbrev pub machine_of : ℕ → System → Machine Hooks
machine_of h sys = record {
  cpu = sys.harts h;
  ram = sys.memory (array_of sys h);
  output = sys.output;
  env = record { gdb_ctx = sys.gdb_ctx; stop_hart = sys.stop_hart };
}

abbrev pub put_back : ℕ → Machine Hooks → System → System
put_back h m sys = record sys {
  harts = update h m.cpu sys.harts;
  memory = update (array_of sys h) m.ram sys.memory;
  output = m.output;
  gdb_ctx = m.env.gdb_ctx;
  stop_hart = m.env.stop_hart;
}

-- a function of `rv32_cpu_t *` called on hart `h`
abbrev pub on_hart : ℕ → (Machine Hooks → Machine Hooks) → System → System
on_hart h f sys = put_back h (f (machine_of h sys)) sys

abbrev pub with_hart : ℕ → Cpu Hooks → System → System
with_hart h cpu sys = record sys { harts = update h cpu sys.harts }

unfoldable pub hook : (Context → ℕ → ℕ → Context × Bool) → ℕ → ℕ → ℕ → Hooks → Bool × Hooks
hook check hart_id addr len env = elim env.gdb_ctx [
  | none ↦ (false, env)
  | some ctx ↦
      if ctx.stub.connected
      then (let (after, hit) = check ctx addr len in
          (
            hit,
            record { gdb_ctx = some after; stop_hart = if hit then pos hart_id else env.stop_hart },
          ))
      else (false, env)
]

-- The hooks get a pointer to the hart and look at its `hart_id`.
unfoldable pub gdb_watchpoint_read : ℕ → Check Hooks
unfolding hook
gdb_watchpoint_read = hook gdb_stub_check_watchpoint_read

unfoldable pub gdb_watchpoint_write : ℕ → Check Hooks
unfolding hook
gdb_watchpoint_write = hook gdb_stub_check_watchpoint_write

unfoldable pub setup_hart_watchpoints : Cpu Hooks → Cpu Hooks
setup_hart_watchpoints cpu = record cpu {
  check_watchpoint_read = some (gdb_watchpoint_read cpu.hart_id);
  check_watchpoint_write = some (gdb_watchpoint_write cpu.hart_id);
}

-- a loop over the harts below `num_harts` whose body changes that hart only
abbrev pub map_harts : (ℕ → Cpu Hooks → Cpu Hooks) → System → System
map_harts f sys = record sys {
  harts = λ h. if ltb h sys.num_harts then f h (sys.harts h) else sys.harts h;
}

-- `cpu->running && !cpu->halted`
abbrev pub can_step : Cpu Hooks → Bool
can_step cpu = cpu.running && not cpu.halted
