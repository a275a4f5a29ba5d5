-- ===== src/Packet/Size.antt =====
-- The size of the packet buffer in `receive_packet` of src/gdb_stub.c.
use gdb_stub.Prelude.{
  ℕ, ◌≡◌, refl, ◌∙◌, Bool, true, false, List, [], ◌∷◌, length, length-set, arith,
}
use gdb_stub.Prelude.Int.{ℤ, pos}
use gdb_stub.Context.{Stub}
use gdb_stub.Wire.{Wire}
use gdb_stub.Packet.{
  Receiver, Progress, more, interrupt, checked, ReceiveState, wait_dollar, read_data, read_checksum,
  receive_byte, receive_byte_in, receiver_start, receive_loop, receive_packet, acknowledge,
}

abbrev stub_of : Progress → Stub
stub_of (more r stub) = stub
stub_of (interrupt stub) = stub
stub_of (checked ok stub) = stub

length-receive_byte_in :
    (s : ReceiveState) (r : Receiver) (stub : Stub) (c : ℕ)
    → length (stub_of (receive_byte_in s r stub c)).packet_buffer ≡ length stub.packet_buffer
unfolding receive_byte_in
length-receive_byte_in wait_dollar r stub c = ground (arith, length-set stub.packet_buffer 0 0x03)
length-receive_byte_in read_data r stub c =
    ground (arith, length-set stub.packet_buffer r.index 0, length-set stub.packet_buffer r.index c)
length-receive_byte_in read_checksum r stub c = ground arith

length-acknowledge :
    (ok : Bool) (stub : Stub) (w : Wire)
    → length (acknowledge ok stub w).1.packet_buffer ≡ length stub.packet_buffer
unfolding acknowledge
length-acknowledge true stub w = ground arith
length-acknowledge false stub w = refl

length-receive_loop :
    (cs : List ℕ) (r : Receiver) (stub : Stub) (w : Wire)
    → length (receive_loop cs r stub w).1.packet_buffer ≡ length stub.packet_buffer
unfolding receive_loop
length-receive_loop [] r stub w = refl
length-receive_loop (c ∷ cs) r stub w =
    go (receive_byte r stub c) (unfold receive_byte in length-receive_byte_in r.state r stub c)
      (λ r' stub'. length-receive_loop cs r' stub' w)
  where
    go :
        (p : Progress)
        → length (stub_of p).packet_buffer ≡ length stub.packet_buffer
        → ((r' : Receiver) (stub' : Stub)
            → length (receive_loop cs r' stub' w).1.packet_buffer ≡ length stub'.packet_buffer)
        → length
            (elim p as (λ q. ℤ × Stub × Wire) [
              | more r' stub' ↦ receive_loop cs r' stub' w
              | interrupt stub' ↦ (pos 0, stub', record w { inbox = cs })
              | checked ok stub' ↦ acknowledge ok stub' (record w { inbox = cs })
            ]).1.packet_buffer
          ≡ length stub.packet_buffer
    go (more r' stub') h later = later r' stub' ∙ h
    go (interrupt stub') h later = h
    go (checked ok stub') h later = length-acknowledge ok stub' (record w { inbox = cs }) ∙ h

-- Whatever is received, the packet buffer keeps its size.
pub length-receive_packet :
    (stub : Stub) (w : Wire)
    → length (receive_packet stub w).1.packet_buffer ≡ length stub.packet_buffer
unfolding receive_packet
length-receive_packet stub w = length-receive_loop w.inbox receiver_start stub w
