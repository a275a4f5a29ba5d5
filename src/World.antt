-- ===== src/World.antt =====
-- `gdb_callbacks_t` of src/gdb_stub.h, and the state that the command handlers change: the context,
-- the simulator behind the `void *`, and the connection.
use gdb_stub.Prelude.{ℕ, Option, none, some, List}
use gdb_stub.Prelude.Int.{ℤ}
use gdb_stub.Context.{Context}
use gdb_stub.Wire.{Wire}
use gdb_stub.Packet.{send_packet}

-- A callback that acts. It may look at the context (which a simulator keeps a pointer to), it
-- gives the simulator's next state, and the context's `last_watchpoint_addr` afterwards: a
-- simulator that checks its watchpoints on each access calls the stub's check from the callback.
abbrev pub Effect : Type 0 → Type 0
Effect Sim = Context → Sim → Sim × ℕ

-- The callbacks that only look are functions of the simulator. A null pointer is `none`.
pub record Callbacks (Sim : Type 0) : Type 0 where
  pub read_reg : Sim → ℕ → ℕ
  pub write_reg : ℕ → ℕ → Effect Sim
  pub read_mem : ℕ → ℕ → Context → Sim → ℕ × Sim × ℕ
  pub write_mem : ℕ → ℕ → ℕ → Effect Sim
  pub get_pc : Sim → ℕ
  pub set_pc : ℕ → Effect Sim
  pub reset : Option (Effect Sim)
  pub resume : Option (Effect Sim)
  pub get_num_harts : Option (Sim → ℤ)
  pub set_focus_hart : Option (ℤ → Effect Sim)
  pub get_focus_hart : Option (Sim → ℤ)
  pub get_stop_hart : Option (Sim → ℤ)
  pub halt_cpus : Option (Effect Sim)

pub record World (Sim : Type 0) : Type 0 where
  pub ctx : Context
  pub sim : Sim
  pub wire : Wire

module _ {Sim : Type 0} where
  -- `send_packet(&ctx->stub, text)` with its result dropped
  unfoldable pub reply : World Sim → List ℕ → World Sim
  reply w text = record w { wire = (send_packet w.wire text).1 }

  abbrev pub with_ctx : World Sim → Context → World Sim
  with_ctx w ctx = record w { ctx = ctx }

  abbrev pub after_callback : World Sim → Sim × ℕ → World Sim
  after_callback w (sim, addr) = record w {
    ctx = record w.ctx { last_watchpoint_addr = addr };
    sim = sim;
  }

  unfoldable pub run_effect : Effect Sim → World Sim → World Sim
  run_effect e w = after_callback w (e w.ctx w.sim)

  -- a callback that may be null
  unfoldable pub run_optional : Option (Effect Sim) → World Sim → World Sim
  unfolding run_effect
  run_optional none w = w
  run_optional (some e) w = run_effect e w

  -- `callbacks->read_mem(simulator, addr, size)`: the value and the world afterwards
  unfoldable pub run_read_mem : Callbacks Sim → ℕ → ℕ → World Sim → ℕ × World Sim
  run_read_mem cb addr size w =
      let (value, sim, hit) = cb.read_mem addr size w.ctx w.sim in
      (value, after_callback w (sim, hit))

  -- `callbacks->get_num_harts ? callbacks->get_num_harts(simulator) : 1`, and the same for others
  abbrev pub ask : Option (Sim → ℤ) → ℤ → World Sim → ℤ
  ask none default w = default
  ask (some f) default w = f w.sim

  abbrev pub with_buffer : World Sim → List ℕ → World Sim
  with_buffer w buffer =
      with_ctx w (record w.ctx { stub = record w.ctx.stub { packet_buffer = buffer } })

  -- the bytes from `packet_buffer[i]` on
  abbrev pub packet_buffer : World Sim → List ℕ
  packet_buffer w = w.ctx.stub.packet_buffer
