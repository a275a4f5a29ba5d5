-- ===== src/Packet/Receive.antt =====
-- The parts of a packet, as `receive_packet` of src/gdb_stub.c reads them one after the other.
use gdb_stub.Prelude.{
  ℕ, suc, zero, ◌+◌, ◌*◌, ◌%◌, ◌^◌, ◌<◌, ◌≡◌, ◌≢◌, ◌∙◌, refl, sym, ap, ap₂, bit_or, List, [], ◌∷◌,
  ◌++◌, set, take, drop, length, length-append, append_assoc, ◌==◌, arith,
}
use gdb_stub.Prelude.Bits.{shifted-bit_or}
use gdb_stub.Hex.{hex_to_int, calculate_checksum}
use gdb_stub.Hex.Bounds.{hex_to_int-lt}
use gdb_stub.Context.{Stub, gdb_buffer_size}
use gdb_stub.Wire.{Wire}
use gdb_stub.Packet.{Receiver, read_data, read_checksum, receiver_start, receive_loop, acknowledge}

-- `x` does not occur in the text.
abbrev pub Lacks : ℕ → List ℕ → Type 0
Lacks x [] = Unit
Lacks x (c ∷ cs) = (c ≢ x) × Lacks x cs

pub set-append :
    (pre : List ℕ) (n x v : ℕ) (post : List ℕ)
    → length pre ≡ n
    → set (pre ++ (x ∷ post)) n v ≡ pre ++ (v ∷ post)
set-append [] n x v post h = rw (← h)
set-append (p ∷ pre) zero x v post h = absurd (omega arith)
set-append (p ∷ pre) (suc n) x v post h =
    ap (λ (t : List ℕ). p ∷ t) (set-append pre n x v post (omega arith))

pub take-append :
    (pre : List ℕ) (n : ℕ) (post : List ℕ) → length pre ≡ n → take n (pre ++ post) ≡ pre
take-append [] n post h = rw (← h)
take-append (p ∷ pre) zero post h = absurd (omega arith)
take-append (p ∷ pre) (suc n) post h =
    ap (λ (t : List ℕ). p ∷ t) (take-append pre n post (omega arith))

-- Bytes before the `$` are passed over.
pub receive_loop-skip :
    (junk rest : List ℕ) (stub : Stub) (w : Wire)
    → Lacks b'$' junk
    → Lacks 0x03 junk
    → receive_loop (junk ++ rest) receiver_start stub w ≡ receive_loop rest receiver_start stub w
unfolding receive_loop
receive_loop-skip [] rest stub w h k = refl
receive_loop-skip (c ∷ junk) rest stub w h k =
    ground (arith, receive_loop-skip junk rest stub w h.1 k.1)

abbrev pub reading : ℕ → Receiver
reading n = record { state = read_data; index = n; checksum_expected = 0; checksum_received = 0 }

receive_loop-byte :
    (c n : ℕ) (cs : List ℕ) (stub : Stub) (w : Wire)
    → c ≢ b'#'
    → n < 4095
    → receive_loop (c ∷ cs) (reading n) stub w
      ≡ receive_loop cs
          (reading (n + 1))
          (record stub { packet_buffer = set stub.packet_buffer n c })
          w
unfolding receive_loop
receive_loop-byte c n cs stub w h k = ground arith

-- The data go to the buffer from the place where the reader stands.
pub receive_loop-data :
    (text pre post rest : List ℕ) (n : ℕ) (stub : Stub) (w : Wire)
    → stub.packet_buffer ≡ pre ++ post
    → length pre ≡ n
    → length pre + length post ≡ gdb_buffer_size
    → length text < length post
    → Lacks b'#' text
    → receive_loop (text ++ rest) (reading n) stub w
      ≡ receive_loop rest
          (reading (n + length text))
          (record stub { packet_buffer = pre ++ (text ++ drop (length text) post) })
          w
receive_loop-data [] pre post rest n stub w b e size room h =
    ap₂
      (λ (k : ℕ) (t : List ℕ). receive_loop rest (reading k) (record stub { packet_buffer = t }) w)
      (omega arith) b
receive_loop-data (c ∷ text) pre [] rest n stub w b e size room h = absurd (omega arith)
receive_loop-data (c ∷ text) pre (x ∷ post) rest n stub w b e size room h =
    receive_loop-byte c n (text ++ rest) stub w h.0 (omega arith)
    ∙ receive_loop-data text (pre ++ (c ∷ [])) post rest (n + 1)
        (record stub { packet_buffer = set stub.packet_buffer n c }) w
        (ap (λ (t : List ℕ). set t n c) b
          ∙ set-append pre n x c post e
          ∙ sym (append_assoc pre (c ∷ []) post))
        (omega (arith, length-append {0} pre (c ∷ [])))
        (omega (arith, length-append {0} pre (c ∷ []))) (omega arith) h.1
    ∙ ap₂
        (λ (k : ℕ) (t : List ℕ).
          receive_loop rest (reading k) (record stub { packet_buffer = t }) w)
        (omega arith) (append_assoc pre (c ∷ []) (text ++ drop (length text) post))

abbrev pub checking : ℕ → Receiver
checking sum = record {
  state = read_checksum;
  index = 0;
  checksum_expected = sum;
  checksum_received = 0;
}

-- The `#` ends the data: the text in the buffer gets its NUL, and its checksum is computed.
pub receive_loop-hash :
    (text post rest : List ℕ) (x n : ℕ) (stub : Stub) (w : Wire)
    → stub.packet_buffer ≡ text ++ (x ∷ post)
    → length text ≡ n
    → receive_loop (b'#' ∷ rest) (reading n) stub w
      ≡ receive_loop rest
          (checking (calculate_checksum text))
          (record stub { packet_buffer = text ++ (0 ∷ post); packet_size = n })
          w
receive_loop-hash text post rest x n stub w b e =
    unfold receive_loop in
    ap
      (λ (t : List ℕ).
        receive_loop rest (checking (calculate_checksum (take n t)))
          (record stub { packet_buffer = t; packet_size = n }) w)
      (ap (λ (t : List ℕ). set t n 0) b ∙ set-append text n x 0 post e)
    ∙ ap
        (λ (t : List ℕ).
          receive_loop rest (checking (calculate_checksum t))
            (record stub { packet_buffer = text ++ (0 ∷ post); packet_size = n }) w)
        (take-append text n (0 ∷ post) e)

-- The two digits end the packet.
pub receive_loop-digits :
    (c d sum : ℕ) (rest : List ℕ) (stub : Stub) (w : Wire)
    → receive_loop (c ∷ d ∷ rest) (checking sum) stub w
      ≡ acknowledge (hex_to_int c * 16 + hex_to_int d == sum) stub (record w { inbox = rest })
unfolding receive_loop
receive_loop-digits c d sum rest stub w =
    ap (λ (t : ℕ). acknowledge (t == sum) stub (record w { inbox = rest })) digits
  where
    first : bit_or (0 * 2 ^ 4) (hex_to_int c) % 256 ≡ hex_to_int c
    first = omega (arith, shifted-bit_or 4 0 (hex_to_int c) (hex_to_int-lt c), hex_to_int-lt c)

    digits :
        bit_or (bit_or (0 * 2 ^ 4) (hex_to_int c) % 256 * 2 ^ 4) (hex_to_int d) % 256
        ≡ hex_to_int c * 16 + hex_to_int d
    digits = rw first (
        omega (
          arith,
          shifted-bit_or 4 (hex_to_int c) (hex_to_int d) (hex_to_int-lt d),
          hex_to_int-lt c,
          hex_to_int-lt d,
        ))
