-- ===== src/Handlers/Binary/Laws.antt =====
-- `decode_rsp_binary` of src/gdb_stub.c: which texts it reads back, and which it refuses.
use gdb_stub.Prelude.{
  ℕ, ◌+◌, ◌<◌, ◌≡◌, ◌≢◌, ◌⊎◌, ◌∙◌, refl, sym, ap, bit_xor, Bool, true, false, not, ◌||◌, none, some,
  List, [], ◌∷◌, ◌++◌, length, length-append, append_assoc, append-nil, ◌==◌, if◌then◌else◌,
  Bool-cases, inl, inr, arith,
}
use gdb_stub.Prelude.Text.{c_str}
use gdb_stub.Handlers.Binary.{decode_loop, decode_rsp_binary}

-- a byte that the protocol, the decoder and C strings leave alone
abbrev pub is_plain : ℕ → Bool
is_plain b = not (b == 0 || b == b'#' || b == b'$' || b == b'*' || b == b'}')

-- The encoding of a careful peer: every other byte is sent as `}` and the byte with its bit 0x20
-- turned over.
unfoldable pub escape : List ℕ → List ℕ
escape [] = []
escape (b ∷ bytes) =
    let rest = escape bytes in if is_plain b then b ∷ rest else b'}' ∷ bit_xor b 0x20 ∷ rest

decode_loop-plain :
    (n b : ℕ) (str dst : List ℕ)
    → length dst < n
    → is_plain b ≡ true
    → decode_loop n (b ∷ str) dst ≡ decode_loop n str (dst ++ (b ∷ []))
unfolding decode_loop
decode_loop-plain n b [] dst h p = ground arith
decode_loop-plain n b (d ∷ str) dst h p = ground arith

decode_loop-escaped :
    (n d : ℕ) (str dst : List ℕ)
    → length dst < n
    → decode_loop n (b'}' ∷ d ∷ str) dst ≡ decode_loop n str (dst ++ (bit_xor d 0x20 ∷ []))
unfolding decode_loop
decode_loop-escaped n d str dst h = ground arith

abbrev Special : ℕ → Type 0
Special b = (b ≡ 0) ⊎ ((b ≡ b'#') ⊎ ((b ≡ b'$') ⊎ ((b ≡ b'*') ⊎ (b ≡ b'}'))))

special : (b : ℕ) → is_plain b ≡ false → Special b
special b h = ground arith

turned : (b : ℕ) → Special b → (bit_xor (bit_xor b 0x20) 0x20 ≡ b) × (bit_xor b 0x20 ≢ 0)
turned b (inl e) = rw e (refl, λ h. absurd (omega arith))
turned b (inr (inl e)) = rw e (refl, λ h. absurd (omega arith))
turned b (inr (inr (inl e))) = rw e (refl, λ h. absurd (omega arith))
turned b (inr (inr (inr (inl e)))) = rw e (refl, λ h. absurd (omega arith))
turned b (inr (inr (inr (inr e)))) = rw e (refl, λ h. absurd (omega arith))

decode_loop-end : (n : ℕ) (dst : List ℕ) → length dst ≡ n → decode_loop n [] dst ≡ some dst
unfolding decode_loop
decode_loop-end n dst h = ground arith

escape-plain : (b : ℕ) (bytes : List ℕ) → is_plain b ≡ true → escape (b ∷ bytes) ≡ b ∷ escape bytes
unfolding escape
escape-plain b bytes h = rw h

escape-special :
    (b : ℕ) (bytes : List ℕ)
    → is_plain b ≡ false
    → escape (b ∷ bytes) ≡ b'}' ∷ bit_xor b 0x20 ∷ escape bytes
unfolding escape
escape-special b bytes h = rw h

decode_loop-escape :
    (n : ℕ) (bytes dst : List ℕ)
    → length dst + length bytes ≡ n
    → decode_loop n (escape bytes) dst ≡ some (dst ++ bytes)
unfolding escape
decode_loop-escape n [] dst h =
    decode_loop-end n dst (omega arith) ∙ ap (λ (t : List ℕ). some t) (sym (append-nil dst))
decode_loop-escape n (b ∷ bytes) dst h =
    let later =
      decode_loop-escape n bytes (dst ++ (b ∷ []))
        (omega (arith, length-append {0} dst (b ∷ []))) in
    let joined = ap (λ (t : List ℕ). some t) (append_assoc dst (b ∷ []) bytes) in
    elim (Bool-cases (is_plain b)) [
      | inl plain ↦
          ap (λ (t : List ℕ). decode_loop n t dst) (escape-plain b bytes plain)
          ∙ decode_loop-plain n b (escape bytes) dst (omega arith) plain
          ∙ later
          ∙ joined
      | inr other ↦
          ap (λ (t : List ℕ). decode_loop n t dst) (escape-special b bytes other)
          ∙ decode_loop-escaped n (bit_xor b 0x20) (escape bytes) dst (omega arith)
          ∙ ap (λ (t : ℕ). decode_loop n (escape bytes) (dst ++ (t ∷ [])))
              (turned b (special b other)).0
          ∙ later
          ∙ joined
    ]

c_str-escape : (bytes rest : List ℕ) → c_str (escape bytes ++ (0 ∷ rest)) ≡ escape bytes
unfolding c_str escape
c_str-escape [] rest = refl
c_str-escape (b ∷ bytes) rest = elim (Bool-cases (is_plain b)) [
  | inl plain ↦ ground (arith, c_str-escape bytes rest)
  | inr other ↦ ground (arith, c_str-escape bytes rest, (turned b (special b other)).1)
]

-- Any bytes that a peer sends with NUL, `#`, `$`, `*` and `}` escaped, followed by the NUL of the
-- packet buffer, are decoded to the same bytes.
pub decode_rsp_binary-escape :
    (bytes rest : List ℕ)
    → decode_rsp_binary (escape bytes ++ (0 ∷ rest)) (length bytes) ≡ some bytes
unfolding decode_rsp_binary
decode_rsp_binary-escape bytes rest =
    ap (λ (t : List ℕ). decode_loop (length bytes) t []) (c_str-escape bytes rest)
    ∙ decode_loop-escape (length bytes) bytes [] (omega arith)

abbrev pub AllPlain : List ℕ → Type 0
AllPlain [] = Unit
AllPlain (b ∷ bytes) = (is_plain b ≡ true) × AllPlain bytes

decode_loop-short :
    (n : ℕ) (bytes dst : List ℕ)
    → AllPlain bytes
    → length dst + length bytes < n
    → decode_loop n bytes dst ≡ none
decode_loop-short n [] dst p h = unfold decode_loop in ground arith
decode_loop-short n (b ∷ bytes) dst p h =
    decode_loop-plain n b bytes dst (omega arith) p.0
    ∙ decode_loop-short n bytes (dst ++ (b ∷ [])) p.1
        (omega (arith, length-append {0} dst (b ∷ [])))

c_str-AllPlain : (bytes rest : List ℕ) → AllPlain bytes → c_str (bytes ++ (0 ∷ rest)) ≡ bytes
unfolding c_str
c_str-AllPlain [] rest p = refl
c_str-AllPlain (b ∷ bytes) rest p = ground (arith, c_str-AllPlain bytes rest p.1)

-- A NUL byte that is sent as it is ends the data: with plain bytes before it, fewer than the
-- announced number, the decoder fails, whatever follows the NUL.
pub decode_rsp_binary-nul :
    (bytes rest : List ℕ) (n : ℕ)
    → AllPlain bytes
    → length bytes < n
    → decode_rsp_binary (bytes ++ (0 ∷ rest)) n ≡ none
unfolding decode_rsp_binary
decode_rsp_binary-nul bytes rest n p h =
    ap (λ (t : List ℕ). decode_loop n t []) (c_str-AllPlain bytes rest p)
    ∙ decode_loop-short n bytes [] p (omega arith)
