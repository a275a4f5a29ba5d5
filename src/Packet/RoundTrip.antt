-- ===== src/Packet/RoundTrip.antt =====
-- Frames on the connection and `receive_packet` of src/gdb_stub.c.
use gdb_stub.Prelude.{
  ℕ, suc, zero, ◌+◌, ◌*◌, ◌/◌, ◌%◌, ◌≤◌, ◌<◌, ◌≡◌, ◌≢◌, ◌∙◌, refl, sym, ap, Bool, true, false, List,
  [], ◌∷◌, ◌++◌, drop, length, append-nil, append_assoc, ◌==◌, ==_iff, inl, inr, Option, some,
  if◌then◌else◌, arith,
}
use gdb_stub.Prelude.Int.{pos, minus_one}
use gdb_stub.Hex.{hex_to_int, int_to_hex, calculate_checksum}
use gdb_stub.Hex.Bounds.{calculate_checksum-lt}
use gdb_stub.Hex.RoundTrip.{hex_to_int-int_to_hex}
use gdb_stub.Context.{Stub, gdb_buffer_size}
use gdb_stub.Wire.{Wire, write_once}
use gdb_stub.Wire.Laws.{Wrote}
use gdb_stub.Packet.{
  receiver_start, receive_loop, receive_packet, acknowledge, send_ack, frame, send_packet,
  count_failure,
}
use gdb_stub.Packet.Send.{send_packet-Wrote}
use gdb_stub.Packet.Receive.{
  Lacks, reading, checking, receive_loop-skip, receive_loop-data, receive_loop-hash,
  receive_loop-digits,
}

-- the buffer with the text, its NUL, and what stood behind them
abbrev pub load_packet : Stub → List ℕ → Stub
load_packet stub text = record stub {
  packet_buffer = text ++ (0 ∷ drop (length text + 1) stub.packet_buffer);
  packet_size = length text;
}

drop-cons : (n : ℕ) (xs : List ℕ) → n < length xs → (x : ℕ) × (drop n xs ≡ x ∷ drop (n + 1) xs)
drop-cons n [] h = absurd (omega arith)
drop-cons zero (x ∷ xs) h = (x, refl)
drop-cons (suc n) (x ∷ xs) h =
    let (y, e) = drop-cons n xs (omega arith) in (y, e ∙ ap (λ (t : ℕ). y ∷ drop t (x ∷ xs)) shift)
  where
    shift : suc (n + 1) ≡ suc n + 1
    shift = omega arith

receive_loop-dollar :
    (rest : List ℕ) (stub : Stub) (w : Wire)
    → receive_loop (b'$' ∷ rest) receiver_start stub w ≡ receive_loop rest (reading 0) stub w
unfolding receive_loop
receive_loop-dollar rest stub w = refl

-- Any packet that fits the buffer, after any bytes that are neither `$` nor Ctrl-C: its text gets
-- to the buffer, and it is acknowledged or refused by its two digits.
receive_packet_lem :
    (junk text rest : List ℕ) (c d : ℕ) (stub : Stub) (w : Wire)
    → w.inbox ≡ junk ++ (b'$' ∷ (text ++ (b'#' ∷ c ∷ d ∷ rest)))
    → Lacks b'$' junk
    → Lacks 0x03 junk
    → Lacks b'#' text
    → length stub.packet_buffer ≡ gdb_buffer_size
    → length text < gdb_buffer_size
    → receive_packet stub w
      ≡ acknowledge
          (hex_to_int c * 16 + hex_to_int d == calculate_checksum text)
          (load_packet stub text)
          (record w { inbox = rest })
unfolding receive_packet
receive_packet_lem junk text rest c d stub w i j k h size room =
    let buf = stub.packet_buffer in
    let (x, e) = drop-cons (length text) buf (omega arith) in
    ap (λ (t : List ℕ). receive_loop t receiver_start stub w) i
    ∙ receive_loop-skip junk (b'$' ∷ (text ++ (b'#' ∷ c ∷ d ∷ rest))) stub w j k
    ∙ receive_loop-dollar (text ++ (b'#' ∷ c ∷ d ∷ rest)) stub w
    ∙ receive_loop-data text [] buf (b'#' ∷ c ∷ d ∷ rest) 0 stub w refl refl (omega arith)
        (omega arith) h
    ∙ receive_loop-hash text (drop (length text + 1) buf) (c ∷ d ∷ rest) x (0 + length text)
        (record stub { packet_buffer = text ++ drop (length text) buf }) w
        (ap (λ (t : List ℕ). text ++ t) e) (omega arith)
    ∙ ap
        (λ (n : ℕ).
          receive_loop (c ∷ d ∷ rest) (checking (calculate_checksum text))
            (record stub {
              packet_buffer = text ++ (0 ∷ drop (length text + 1) buf);
              packet_size = n;
            })
            w)
        (omega arith)
    ∙ receive_loop-digits c d (calculate_checksum text) rest (load_packet stub text) w

frame_digits :
    (text : List ℕ)
    → (c : ℕ) × (d : ℕ) × (frame text ≡ b'$' ∷ (text ++ (b'#' ∷ c ∷ d ∷ [])))
      × (hex_to_int c * 16 + hex_to_int d ≡ calculate_checksum text)
unfolding frame
frame_digits text = (
  int_to_hex (sum / 16 % 16),
  int_to_hex (sum % 16),
  refl,
  omega (
    arith,
    calculate_checksum-lt text,
    hex_to_int-int_to_hex (sum / 16 % 16) (omega arith),
    hex_to_int-int_to_hex (sum % 16) (omega arith),
  ),
)
  where
    sum : ℕ
    sum = calculate_checksum text

-- A frame is received and acknowledged.
pub receive_packet-framed :
    (junk text rest : List ℕ) (stub : Stub) (w : Wire)
    → w.inbox ≡ junk ++ (frame text ++ rest)
    → Lacks b'$' junk
    → Lacks 0x03 junk
    → Lacks b'#' text
    → length stub.packet_buffer ≡ gdb_buffer_size
    → length text < gdb_buffer_size
    → receive_packet stub w ≡ acknowledge true (load_packet stub text) (record w { inbox = rest })
receive_packet-framed junk text rest stub w i j k h size room =
    let (c, d, framed, digits) = frame_digits text in
    receive_packet_lem junk text rest c d stub w
      (i
        ∙ ap (λ (t : List ℕ). junk ++ (t ++ rest)) framed
        ∙ ap (λ (t : List ℕ). junk ++ (b'$' ∷ t)) (append_assoc text (b'#' ∷ c ∷ d ∷ []) rest))
      j k h size room
    ∙ ap (λ (b : Bool). acknowledge b (load_packet stub text) (record w { inbox = rest }))
        ((==_iff (hex_to_int c * 16 + hex_to_int d) (calculate_checksum text)).1 digits)

-- The context keeps the text, and has forgotten the failures.
abbrev pub received : Stub → List ℕ → Stub
received stub text = record (load_packet stub text) { consecutive_failures = 0 }

-- `rest` is left to read, and `+` is sent unless acknowledgements are off.
abbrev pub confirmed : Wire → Bool → List ℕ → List (Option ℕ) → Wire
confirmed w no_ack rest results = record w {
  inbox = rest;
  outbox = if no_ack then w.outbox else w.outbox ++ (b'+' ∷ []);
  write_results = if no_ack then w.write_results else results;
}

acknowledge-true :
    (stub : Stub) (w : Wire) (n : ℕ) (results : List (Option ℕ))
    → w.write_results ≡ some (suc n) ∷ results
    → acknowledge true stub w ≡ (
      pos 0,
      record stub { consecutive_failures = 0 },
      confirmed w stub.no_ack_mode w.inbox results,
    )
unfolding acknowledge send_ack write_once
acknowledge-true stub w zero results e = ground (arith, e)
acknowledge-true stub w (suc n) results e = ground (arith, e)

-- The frame of a text without `#` that fits the buffer (of its full size), after any bytes that are neither `$` nor Ctrl-C, and whatever
-- follows it, where the next call of `write` takes a byte: the call returns 0, the text and a NUL are put in the
-- buffer, the count of failures is cleared, `+` is sent unless acknowledgements are off, and the rest is left unread.
pub receive_packet-frame :
    (junk text rest : List ℕ) (stub : Stub) (w : Wire) (n : ℕ) (results : List (Option ℕ))
    → w.inbox ≡ junk ++ (frame text ++ rest)
    → Lacks b'$' junk
    → Lacks 0x03 junk
    → Lacks b'#' text
    → length stub.packet_buffer ≡ gdb_buffer_size
    → length text < gdb_buffer_size
    → w.write_results ≡ some (suc n) ∷ results
    → receive_packet stub w ≡ (pos 0, received stub text, confirmed w stub.no_ack_mode rest results)
receive_packet-frame junk text rest stub w n results i j k h size room e =
    receive_packet-framed junk text rest stub w i j k h size room
    ∙ acknowledge-true (load_packet stub text) (record w { inbox = rest }) n results e

==_false : (a b : ℕ) → a ≢ b → (a == b) ≡ false
==_false a b h = ground arith

acknowledge-false :
    (stub : Stub) (w : Wire)
    → acknowledge false stub w ≡ (minus_one, count_failure stub, (send_ack b'-' stub w).1)
unfolding acknowledge
acknowledge-false stub w = refl

-- Two digits that are not the checksum: the call fails, one more failure is counted, and the peer
-- is sent a `-` unless acknowledgements are off.
pub receive_packet-corrupt :
    (junk text rest : List ℕ) (c d : ℕ) (stub : Stub) (w : Wire)
    → w.inbox ≡ junk ++ (b'$' ∷ (text ++ (b'#' ∷ c ∷ d ∷ rest)))
    → Lacks b'$' junk
    → Lacks 0x03 junk
    → Lacks b'#' text
    → length stub.packet_buffer ≡ gdb_buffer_size
    → length text < gdb_buffer_size
    → hex_to_int c * 16 + hex_to_int d ≢ calculate_checksum text
    → receive_packet stub w ≡ (
      minus_one,
      count_failure (load_packet stub text),
      (send_ack b'-' (load_packet stub text) (record w { inbox = rest })).1,
    )
receive_packet-corrupt junk text rest c d stub w i j k h size room wrong =
    receive_packet_lem junk text rest c d stub w i j k h size room
    ∙ ap (λ (b : Bool). acknowledge b (load_packet stub text) (record w { inbox = rest }))
        (==_false (hex_to_int c * 16 + hex_to_int d) (calculate_checksum text) wrong)
    ∙ acknowledge-false (load_packet stub text) (record w { inbox = rest })

-- Where `send_packet` has returned 0 for a text without `#` of at most 4091 bytes, on a connection on
-- which nothing was sent before, a peer that reads what it has sent, with a buffer of its full size and a `write` that takes
-- a byte, returns 0 with the same text in its buffer, has cleared its count of failures and sends `+`
-- unless acknowledgements are off.
pub receive_packet-send_packet :
    (text : List ℕ) (stub : Stub) (w v : Wire) (n : ℕ) (results : List (Option ℕ))
    → w.outbox ≡ []
    → (send_packet w text).0 ≡ pos 0
    → v.inbox ≡ (send_packet w text).1.outbox
    → Lacks b'#' text
    → length stub.packet_buffer ≡ gdb_buffer_size
    → length text ≤ 4091
    → v.write_results ≡ some (suc n) ∷ results
    → receive_packet stub v ≡ (pos 0, received stub text, confirmed v stub.no_ack_mode [] results)
receive_packet-send_packet text stub w v n results empty sent i h size room e =
    receive_packet-frame [] text [] stub v n results
      (i ∙ all (send_packet-Wrote w text room) ∙ sym (append-nil (frame text))) tt tt h size
      (omega arith) e
  where
    all :
        Wrote w.outbox (frame text) (send_packet w text).0 (send_packet w text).1.outbox
        → (send_packet w text).1.outbox ≡ frame text
    all (inl (ok, whole)) = whole ∙ ap (λ (t : List ℕ). t ++ frame text) empty
    all (inr (failed, part)) = absurd (cc (sent, failed))
