-- ===== src/Packet.antt =====
-- `send_packet` and `receive_packet` of src/gdb_stub.c.
pub mod Send
pub mod Receive
pub mod RoundTrip
pub mod Size
use gdb_stub.Prelude.{
  ℕ, ◌+◌, ◌-◌, ◌*◌, ◌%◌, ◌^◌, bit_or, Bool, true, false, not, Option, none, some, List, [], ◌∷◌,
  ◌++◌, set, take, length, ltb, leb, ◌==◌, if◌then◌else◌,
}
use gdb_stub.Prelude.Int.{ℤ, pos, minus_one}
use gdb_stub.Hex.{hex_to_int, calculate_checksum, format_hex_width}
use gdb_stub.Context.{Stub, gdb_buffer_size}
use gdb_stub.Wire.{Wire, write_once, write_all}

-- `snprintf("$%s#%02x")`, before it is cut to the buffer
unfoldable pub frame : List ℕ → List ℕ
unfolding calculate_checksum format_hex_width
frame text = b'$' ∷ text ++ (b'#' ∷ format_hex_width 2 (calculate_checksum text))

-- A text without NUL; one that does not fit the buffer is not sent.
unfoldable pub send_packet : Wire → List ℕ → ℤ × Wire
unfolding frame write_all
send_packet w text =
    if leb gdb_buffer_size (length (frame text)) then (minus_one, w) else write_all w (frame text)

-- `state` of `receive_packet`
pub data ReceiveState : Type 0 where
  wait_dollar read_data read_checksum : ReceiveState

-- the other local variables of `receive_packet`
pub record Receiver : Type 0 where
  pub state : ReceiveState
  pub index : ℕ
  pub checksum_expected : ℕ
  pub checksum_received : ℕ

abbrev pub receiver_start : Receiver
receiver_start = record {
  state = wait_dollar;
  index = 0;
  checksum_expected = 0;
  checksum_received = 0;
}

-- one round of the loop: it goes on, an interrupt returns at once, or both digits are compared
pub data Progress : Type 0 where
  more : Receiver → Stub → Progress
  interrupt : Stub → Progress
  checked : Bool → Stub → Progress

receive_byte_in : ReceiveState → Receiver → Stub → ℕ → Progress
receive_byte_in wait_dollar r stub c =
    if c == b'$'
    then more (record r { state = read_data; index = 0 }) stub
    else if c == 0x03
    then interrupt (record stub { packet_buffer = set stub.packet_buffer 0 0x03; packet_size = 1 })
    else more r stub
receive_byte_in read_data r stub c =
    if c == b'#'
    then more
        (record r {
          state = read_checksum;
          index = 0;
          checksum_expected = calculate_checksum (take r.index (set stub.packet_buffer r.index 0));
        })
        (record stub { packet_buffer = set stub.packet_buffer r.index 0; packet_size = r.index })
    else if ltb r.index (gdb_buffer_size - 1)
    then more (record r { index = r.index + 1 })
        (record stub { packet_buffer = set stub.packet_buffer r.index c })
    else more r stub
receive_byte_in read_checksum r stub c =
    let received = bit_or (r.checksum_received * 2 ^ 4) (hex_to_int c) % 256 in
    if r.index + 1 == 2
    then checked (received == r.checksum_expected) stub
    else more (record r { index = r.index + 1; checksum_received = received }) stub

unfoldable pub receive_byte : Receiver → Stub → ℕ → Progress
unfolding receive_byte_in
receive_byte r stub c = receive_byte_in r.state r stub c

abbrev pub count_failure : Stub → Stub
count_failure stub = record stub { consecutive_failures = stub.consecutive_failures + 1 }

-- `if (!stub->no_ack_mode) { c = …; result = write(…, &c, 1); … }`: whether the write failed
unfoldable pub send_ack : ℕ → Stub → Wire → Bool × Wire
unfolding write_once
send_ack c stub w =
    if stub.no_ack_mode
    then (false, w)
    else let (result, w') = write_once w (c ∷ []) in
      (elim result [ none ↦ true | some n ↦ false ], w')

-- the end of case 2, once both digits are in
unfoldable pub acknowledge : Bool → Stub → Wire → ℤ × Stub × Wire
unfolding send_ack
acknowledge false stub w = (minus_one, count_failure stub, (send_ack b'-' stub w).1)
acknowledge true stub w =
    let (failed, w') = send_ack b'+' stub w in
    if failed
    then (minus_one, count_failure stub, w')
    else (pos 0, record stub { consecutive_failures = 0 }, w')

-- the loop, on the bytes that `read` will deliver
unfoldable pub receive_loop : List ℕ → Receiver → Stub → Wire → ℤ × Stub × Wire
unfolding receive_byte acknowledge
receive_loop [] r stub w = (minus_one, count_failure stub, record w { inbox = [] })
receive_loop (c ∷ cs) r stub w = elim (receive_byte r stub c) [
  | more r' stub' ↦ receive_loop cs r' stub' w
  | interrupt stub' ↦ (pos 0, stub', record w { inbox = cs })
  | checked ok stub' ↦ acknowledge ok stub' (record w { inbox = cs })
]

unfoldable pub receive_packet : Stub → Wire → ℤ × Stub × Wire
unfolding receive_loop
receive_packet stub w = receive_loop w.inbox receiver_start stub w
