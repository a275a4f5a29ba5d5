-- ===== src/Packet/Send.antt =====
-- `send_packet` of src/gdb_stub.c: what it puts on the connection, and when it sends nothing.
use gdb_stub.Prelude.{ℕ, ◌+◌, ◌≤◌, ◌<◌, ◌≡◌, List, ◌∷◌, length, length-append, arith}
use gdb_stub.Prelude.Int.{minus_one}
use gdb_stub.Hex.{calculate_checksum, format_hex_width}
use gdb_stub.Hex.Bounds.{length-format_hex_width}
use gdb_stub.Wire.{Wire}
use gdb_stub.Wire.Laws.{Wrote, write_all-Wrote}
use gdb_stub.Packet.{frame, send_packet}

-- A frame has four bytes more than its text.
pub length-frame : (text : List ℕ) → length (frame text) ≡ length text + 4
unfolding frame
length-frame text = omega (
  arith,
  length-append {0} text (b'#' ∷ format_hex_width 2 (calculate_checksum text)),
  length-format_hex_width 2 (calculate_checksum text),
)

-- A text of more than 4091 bytes is not sent: the call fails and leaves the connection as it is.
pub send_packet_too_long :
    (w : Wire) (text : List ℕ) → 4091 < length text → send_packet w text ≡ (minus_one, w)
unfolding send_packet
send_packet_too_long w text h = ground (arith, length-frame text)

-- A text of at most 4091 bytes: the whole frame has been sent when the call returns 0, a proper
-- prefix of it when it returns -1.
pub send_packet-Wrote :
    (w : Wire) (text : List ℕ)
    → length text ≤ 4091
    → Wrote w.outbox (frame text) (send_packet w text).0 (send_packet w text).1.outbox
unfolding send_packet
send_packet-Wrote w text h = ground (arith, length-frame text, write_all-Wrote w (frame text))
