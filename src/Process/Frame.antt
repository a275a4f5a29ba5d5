-- ===== src/Process/Frame.antt =====
-- `gdb_stub_process` of src/gdb_stub.c on a whole packet: the receiver and the `switch` together.
use gdb_stub.Prelude.{
  ℕ, ◌+◌, ◌*◌, ◌<◌, ◌≡◌, ◌≢◌, ◌∙◌, refl, true, false, some, List, [], ◌∷◌, ◌++◌, length, get_or,
  leb, if◌then◌else◌, arith,
}
use gdb_stub.Prelude.Int.{ℤ, pos, minus_one}
use gdb_stub.Hex.{Xlen, hex_to_int, calculate_checksum}
use gdb_stub.Context.{Stub, gdb_buffer_size}
use gdb_stub.Wire.{Wire}
use gdb_stub.Thread.{is_negative}
use gdb_stub.Packet.{frame, receive_packet, acknowledge, send_ack, count_failure}
use gdb_stub.Packet.Receive.{Lacks}
use gdb_stub.Packet.RoundTrip.{load_packet, receive_packet-framed, receive_packet-corrupt}
use gdb_stub.World.{World, Callbacks}
use gdb_stub.Process.{dispatch, gdb_stub_process}

-- the stub is connected and has not seen too many failures, its buffer has its size, and the next
-- bytes of the connection are the frame of a text that fits the buffer
pub record Delivers {Sim : Type 0} (w : World Sim) (text rest : List ℕ) : Type 0 where
  pub connected : w.ctx.stub.connected ≡ true
  pub failures : w.ctx.stub.consecutive_failures < 50
  pub buffer : length w.ctx.stub.packet_buffer ≡ gdb_buffer_size
  pub inbox : w.wire.inbox ≡ frame text ++ rest
  pub data_only : Lacks b'#' text
  pub fits : length text < gdb_buffer_size
  pub writable :
      (send_ack b'+' (load_packet w.ctx.stub text) (record w.wire { inbox = rest })).0 ≡ false

-- the world with that text in the buffer, the acknowledgement sent and the failures forgotten
abbrev pub delivered : {Sim : Type 0} → World Sim → List ℕ → List ℕ → World Sim
delivered w text rest = record w {
  ctx = record w.ctx { stub = record (load_packet w.ctx.stub text) { consecutive_failures = 0 } };
  wire = (send_ack b'+' (load_packet w.ctx.stub text) (record w.wire { inbox = rest })).1;
}

acknowledge-true :
    (stub : Stub) (w : Wire)
    → (send_ack b'+' stub w).0 ≡ false
    → acknowledge true stub w
      ≡ (pos 0, record stub { consecutive_failures = 0 }, (send_ack b'+' stub w).1)
unfolding acknowledge
acknowledge-true stub w h = rw h

module _ {Sim : Type 0} (x : Xlen) (cb : Callbacks Sim) where
  process_received :
      (fuel : ℕ) (w : World Sim) (result : ℤ) (stub : Stub) (wire : Wire)
      → w.ctx.stub.connected ≡ true
      → w.ctx.stub.consecutive_failures < 50
      → receive_packet w.ctx.stub w.wire ≡ (result, stub, wire)
      → gdb_stub_process x cb fuel w ≡ (
          if is_negative result
          then some (minus_one, record w { ctx = record w.ctx { stub = stub }; wire = wire })
          else dispatch x cb fuel
              (get_or stub.packet_buffer 0 0)
              (record w { ctx = record w.ctx { stub = stub }; wire = wire }))
  unfolding gdb_stub_process
  process_received fuel w result stub wire c f e =
      rw (e, c, few w.ctx.stub.consecutive_failures f) refl
    where
      few : (n : ℕ) → n < 50 → leb 50 n ≡ false
      few n h = ground arith

  -- A frame that fits the buffer, on a connection that takes the acknowledgement: the command of its
  -- first byte is run, with the text in the buffer.
  pub gdb_stub_process-frame :
      (fuel : ℕ) (w : World Sim) (text rest : List ℕ)
      → Delivers w text rest
      → gdb_stub_process x cb fuel w
        ≡ dispatch x cb fuel
            (get_or (delivered w text rest).ctx.stub.packet_buffer 0 0)
            (delivered w text rest)
  gdb_stub_process-frame fuel w text rest d =
      process_received fuel w (pos 0) (delivered w text rest).ctx.stub (delivered w text rest).wire
        d.connected d.failures
        (receive_packet-framed [] text rest w.ctx.stub w.wire d.inbox tt tt d.data_only d.buffer
            d.fits
          ∙ acknowledge-true (load_packet w.ctx.stub text) (record w.wire { inbox = rest })
              d.writable)

  -- On a connected stub that has seen fewer than 50 failures in a row, a packet that fits the buffer and
  -- whose two digits are not its checksum runs no command: the call returns -1, one more
  -- failure is counted, and the simulator and the rest of the context are left as they are.
  pub gdb_stub_process-corrupt :
      (fuel : ℕ) (w : World Sim) (text rest : List ℕ) (c d : ℕ)
      → w.ctx.stub.connected ≡ true
      → w.ctx.stub.consecutive_failures < 50
      → w.wire.inbox ≡ b'$' ∷ (text ++ (b'#' ∷ c ∷ d ∷ rest))
      → Lacks b'#' text
      → length w.ctx.stub.packet_buffer ≡ gdb_buffer_size
      → length text < gdb_buffer_size
      → hex_to_int c * 16 + hex_to_int d ≢ calculate_checksum text
      → gdb_stub_process x cb fuel w
        ≡ some (
          minus_one,
          record w {
            ctx = record w.ctx { stub = count_failure (load_packet w.ctx.stub text) };
            wire = (send_ack b'-' (load_packet w.ctx.stub text) (record w.wire { inbox = rest })).1;
          },
        )
  gdb_stub_process-corrupt fuel w text rest c d on few i lacks size room wrong =
      process_received fuel w minus_one (count_failure (load_packet w.ctx.stub text))
        (send_ack b'-' (load_packet w.ctx.stub text) (record w.wire { inbox = rest })).1 on few
        (receive_packet-corrupt [] text rest c d w.ctx.stub w.wire i tt tt lacks size room wrong)
