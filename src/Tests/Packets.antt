-- ===== src/Tests/Packets.antt =====
-- The packets, numbers and thread ids of src/gdb_stub.c at concrete inputs.
use gdb_stub.Prelude.{
  ℕ, ◌≡◌, refl, none, some, List, [], ◌∷◌, ◌++◌, length, Option, replicate, arith,
}
use gdb_stub.Prelude.Int.{pos}
use gdb_stub.Prelude.Text.{codes}
use gdb_stub.Hex.{
  rv32, rv64, reg_hex_bytes, reg_hex_chars, parse_hex, parse_hex_le, encode_hex, format_hex_width,
  format_hex,
}
use gdb_stub.Hex.RoundTrip.{parse_hex_le-encode_hex, parse_hex-format_hex_width}
use gdb_stub.Context.{initial_context}
use gdb_stub.Wire.{Wire, write_all}
use gdb_stub.Wire.Laws.{Wrote, write_all_complete}
use gdb_stub.Packet.{frame, receive_packet, send_packet}
use gdb_stub.Packet.Send.{send_packet-Wrote}
use gdb_stub.Packet.RoundTrip.{
  received, confirmed, receive_packet-frame, receive_packet-send_packet,
}
use gdb_stub.Thread.{parse_thread_spec}
use gdb_stub.Thread.RoundTrip.{parse_thread_spec-format}
use gdb_stub.Handlers.Binary.{decode_rsp_binary}
use gdb_stub.Handlers.Binary.Laws.{escape, decode_rsp_binary-escape, decode_rsp_binary-nul}
use gdb_stub.Tests.Fixtures.{fresh, wire_with}

abbrev noise : List ℕ
noise = codes "++"

abbrev framed : Wire
framed = wire_with (noise ++ (frame (codes "g") ++ codes "$"))

abbrev later : List (Option ℕ)
later = replicate 999 (some 7)

receive_packet-frame_example : receive_packet fresh.stub framed ≡ (
  pos 0,
  received fresh.stub (codes "g"),
  confirmed framed fresh.stub.no_ack_mode (codes "$") later,
)
receive_packet-frame_example =
    receive_packet-frame noise (codes "g") (codes "$") fresh.stub framed 6 later refl
      ((λ e. absurd (omega arith)), ((λ e. absurd (omega arith)), tt))
      ((λ e. absurd (omega arith)), ((λ e. absurd (omega arith)), tt))
      ((λ e. absurd (omega arith)), tt) (unfold initial_context in refl) (omega arith) refl

abbrev sender : Wire
sender = wire_with []

abbrev peer : Wire
peer = wire_with (send_packet sender (codes "OK")).1.outbox

send_ok : (send_packet sender (codes "OK")).0 ≡ pos 0
unfolding send_packet
send_ok = refl

receive_packet-send_packet_example :
    receive_packet fresh.stub peer
    ≡ (pos 0, received fresh.stub (codes "OK"), confirmed peer fresh.stub.no_ack_mode [] later)
receive_packet-send_packet_example =
    receive_packet-send_packet (codes "OK") fresh.stub sender peer 6 later refl send_ok refl
      ((λ e. absurd (omega arith)), ((λ e. absurd (omega arith)), tt))
      (unfold initial_context in refl) (omega arith) refl

send_packet-Wrote_example :
    Wrote []
      (frame (codes "OK"))
      (send_packet sender (codes "OK")).0
      (send_packet sender (codes "OK")).1.outbox
send_packet-Wrote_example = send_packet-Wrote sender (codes "OK") (omega arith)

abbrev slow : Wire
slow = record { inbox = []; outbox = codes "+"; write_results = some 1 ∷ some 2 ∷ some 1 ∷ [] }

write_all_complete_example :
    ((write_all slow (codes "abc")).0 ≡ pos 0)
    × ((write_all slow (codes "abc")).1.outbox ≡ codes "+" ++ codes "abc")
write_all_complete_example =
    write_all_complete slow (codes "abc") (omega arith, (omega arith, (omega arith, tt)))
      (omega arith)

parse_hex_le-encode_hex_example :
    parse_hex_le rv64 (encode_hex 0xdeadbeef (reg_hex_bytes rv64) ++ codes "#") (reg_hex_chars rv64)
    ≡ some 0xdeadbeef
parse_hex_le-encode_hex_example = parse_hex_le-encode_hex rv64 0xdeadbeef (codes "#") (omega arith)

parse_hex-format_hex_width_example :
    parse_hex rv32 (format_hex_width 8 0x80001000 ++ codes ",4") 8 ≡ 0x80001000
parse_hex-format_hex_width_example =
    parse_hex-format_hex_width rv32 8 0x80001000 (codes ",4") (omega arith) (omega arith)

parse_thread_spec-format_example :
    (parse_thread_spec (codes "p1." ++ format_hex 18) ≡ (pos 1, pos 18))
    × (parse_thread_spec (format_hex 18) ≡ (pos 0, pos 18))
parse_thread_spec-format_example = parse_thread_spec-format 18 (omega arith) (omega arith)

abbrev bytes : List ℕ
bytes = 0 ∷ 7 ∷ b'}' ∷ 255 ∷ []

decode_rsp_binary-escape_example :
    decode_rsp_binary (escape bytes ++ (0 ∷ codes "old")) (length bytes) ≡ some bytes
decode_rsp_binary-escape_example = decode_rsp_binary-escape bytes (codes "old")

decode_rsp_binary-nul_example : decode_rsp_binary (codes "ab" ++ (0 ∷ codes "cd")) 5 ≡ none
decode_rsp_binary-nul_example =
    decode_rsp_binary-nul (codes "ab") (codes "cd") 5 (refl, (refl, tt)) (omega arith)
