-- ===== src/Stop.antt =====
-- The stop replies of src/gdb_stub.c.
pub mod Format
pub mod Reason
use gdb_stub.Prelude.{ℕ, ◌+◌, ◌%◌, Bool, true, false, not, List, [], ◌∷◌, ◌++◌, ◌==◌, if◌then◌else◌}
use gdb_stub.Prelude.Int.{ℤ, pos, eqb_ℤ}
use gdb_stub.Prelude.Text.{codes, snprintf, to_unsigned}
use gdb_stub.Hex.{Xlen, reg_hex_chars, format_hex_width, format_hex}
use gdb_stub.Context.{Context}
use gdb_stub.Packet.{send_packet}
use gdb_stub.World.{World, with_ctx}

-- `printf("%x")` of an `int`
unfoldable pub format_int : ℤ → List ℕ
unfolding format_hex
format_int z = format_hex (to_unsigned z)

-- `GDB_ADDR_HEX_FMT`
unfoldable pub format_addr : Xlen → ℕ → List ℕ
unfolding format_hex_width
format_addr x addr = format_hex_width (reg_hex_chars x) addr

-- the part of a stop reply behind the thread
unfoldable pub stop_detail : Xlen → Bool → ℕ → ℕ → List ℕ
stop_detail x swbreak watch_addr pc_addr =
    if swbreak
    then codes "swbreak:;"
    else if not (watch_addr == 0)
    then codes "watch:" ++ (format_addr x watch_addr ++ codes ";")
    else if not (pc_addr == 0)
    then codes "20:" ++ (format_addr x pc_addr ++ codes ";")
    else []

-- the text of a stop reply, before it is cut to the buffer; `signal` is taken `& 0xFF`
unfoldable pub stop_text : Xlen → Bool → ℕ → ℤ → Bool → ℕ → ℕ → List ℕ
stop_text x multiprocess signal tid swbreak watch_addr pc_addr =
    codes "T"
    ++ (format_hex_width 2 (signal % 256)
        ++ ((if multiprocess then codes "thread:p1." else codes "thread:")
            ++ (format_int tid ++ (codes ";" ++ stop_detail x swbreak watch_addr pc_addr))))

-- `format_stop_reply` into a buffer of `len` bytes
unfoldable pub format_stop_reply : Xlen → Context → ℕ → ℕ → ℤ → Bool → ℕ → ℕ → List ℕ
format_stop_reply x ctx len signal tid swbreak watch_addr pc_addr =
    snprintf len (stop_text x ctx.multiprocess_active signal tid swbreak watch_addr pc_addr)

-- `ctx->stop_thread ? ctx->stop_thread : ctx->current_thread`
abbrev pub reported_thread : Context → ℤ
reported_thread ctx = if eqb_ℤ ctx.stop_thread (pos 0) then ctx.current_thread else ctx.stop_thread

-- the reply that `gdb_stub_send_stop_reason` sends and the context that it leaves
unfoldable pub stop_reason : Xlen → Context → ℕ → ℕ → List ℕ × Context
stop_reason x ctx signal addr =
    let tid = reported_thread ctx in
    if ctx.breakpoint_hit
    then (format_stop_reply x ctx 128 signal tid true 0 0, record ctx { breakpoint_hit = false })
    else if not (ctx.last_watchpoint_addr == 0)
    then (
      format_stop_reply x ctx 128 signal tid false ctx.last_watchpoint_addr 0,
      record ctx { last_watchpoint_addr = 0 },
    )
    else if not (addr == 0)
    then (format_stop_reply x ctx 128 signal tid false 0 addr, ctx)
    else (format_stop_reply x ctx 128 signal tid false 0 0, ctx)

module _ {Sim : Type 0} where
  unfoldable pub gdb_stub_send_stop_reason : Xlen → World Sim → ℕ → ℕ → ℤ × World Sim
  gdb_stub_send_stop_reason x w signal addr =
      let (text, ctx) = stop_reason x w.ctx signal addr in
      let (result, wire) = send_packet w.wire text in (result, record w { ctx = ctx; wire = wire })

  unfoldable pub gdb_stub_send_stop_signal : Xlen → World Sim → ℕ → ℤ × World Sim
  gdb_stub_send_stop_signal x w signal = gdb_stub_send_stop_reason x w signal 0
