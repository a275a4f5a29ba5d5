-- ===== src/Wire/Laws.antt =====
-- What `write_all` of src/gdb_stub.c leaves on the connection.
use gdb_stub.Prelude.{
  ℕ, suc, zero, ◌≤◌, ◌<◌, ◌≡◌, ◌⊎◌, ◌∙◌, refl, sym, ap, inl, inr, Option, none, some, List, [], ◌∷◌,
  ◌++◌, take, drop, length, length-drop, take-append-drop, append-nil, append_assoc, arith,
}
use gdb_stub.Prelude.Int.{ℤ, pos, minus_one}
use gdb_stub.Wire.{Wire, write_all_loop, write_all}

-- every call of `write` takes at least one byte
abbrev pub AllTake : List (Option ℕ) → Type 0
AllTake [] = Unit
AllTake (none ∷ rs) = ⊥
AllTake (some n ∷ rs) = (0 < n) × AllTake rs

-- Success leaves all the bytes, in order; failure leaves a prefix, with something missing.
abbrev pub Wrote : List ℕ → List ℕ → ℤ → List ℕ → Type 0
Wrote out bytes result out' =
    ((result ≡ pos 0) × (out' ≡ out ++ bytes))
    ⊎ ((result ≡ minus_one)
        × ((sent : List ℕ) × (missing : List ℕ) × (out' ≡ out ++ sent)
            × (bytes ≡ sent ++ missing)
            × (0 < length missing)))

write_all_loop-Wrote :
    (rs : List (Option ℕ)) (bytes out : List ℕ)
    → Wrote out bytes (write_all_loop rs bytes out).0 (write_all_loop rs bytes out).1
unfolding write_all_loop
write_all_loop-Wrote rs [] out = inl (refl, sym (append-nil out))
write_all_loop-Wrote [] (b ∷ bs) out =
    inr (refl, ([], b ∷ bs, sym (append-nil out), refl, omega arith))
write_all_loop-Wrote (none ∷ rs) (b ∷ bs) out =
    inr (refl, ([], b ∷ bs, sym (append-nil out), refl, omega arith))
write_all_loop-Wrote (some zero ∷ rs) (b ∷ bs) out =
    inr (refl, ([], b ∷ bs, sym (append-nil out), refl, omega arith))
write_all_loop-Wrote (some (suc n) ∷ rs) (b ∷ bs) out =
    elim (write_all_loop-Wrote rs (drop n bs) (out ++ b ∷ take n bs)) [
      | inl (ok, all) ↦ inl (
        ok,
        all
            ∙ append_assoc out (b ∷ take n bs) (drop n bs)
            ∙ ap (λ (t : List ℕ). out ++ b ∷ t) (take-append-drop n bs),
      )
      | inr (failed, (sent, missing, left, split, some_left)) ↦ inr (
        failed,
        (
          b ∷ take n bs ++ sent,
          missing,
          left ∙ append_assoc out (b ∷ take n bs) sent,
          ap (λ (t : List ℕ). b ∷ t)
              (sym (take-append-drop n bs)
                ∙ ap (λ (t : List ℕ). take n bs ++ t) split
                ∙ sym (append_assoc (take n bs) sent missing)),
          some_left,
        ),
      )
    ]

-- On every outcome `write_all` has appended to the output: all the bytes when it returns 0, and a
-- proper prefix of them when it returns -1. It returns nothing else.
pub write_all-Wrote :
    (w : Wire) (bytes : List ℕ)
    → Wrote w.outbox bytes (write_all w bytes).0 (write_all w bytes).1.outbox
unfolding write_all
write_all-Wrote w bytes = write_all_loop-Wrote w.write_results bytes w.outbox

write_all_loop-AllTake :
    (rs : List (Option ℕ)) (bytes out : List ℕ)
    → AllTake rs
    → length bytes ≤ length rs
    → (write_all_loop rs bytes out).0 ≡ pos 0
unfolding write_all_loop
write_all_loop-AllTake rs [] out t h = refl
write_all_loop-AllTake [] (b ∷ bs) out t h = absurd (omega arith)
write_all_loop-AllTake (none ∷ rs) (b ∷ bs) out t h = absurd t
write_all_loop-AllTake (some zero ∷ rs) (b ∷ bs) out t h = absurd (omega arith)
write_all_loop-AllTake (some (suc n) ∷ rs) (b ∷ bs) out t h =
    write_all_loop-AllTake rs (drop n bs) (out ++ b ∷ take n bs) t.1
      (omega (arith, length-drop {0} n bs))

-- Short writes are retried until nothing is left: if every call of `write` takes at least one
-- byte, as many calls as there are bytes are enough to send them all.
pub write_all_complete :
    (w : Wire) (bytes : List ℕ)
    → AllTake w.write_results
    → length bytes ≤ length w.write_results
    → ((write_all w bytes).0 ≡ pos 0) × ((write_all w bytes).1.outbox ≡ w.outbox ++ bytes)
unfolding write_all
write_all_complete w bytes t h =
    let ok = write_all_loop-AllTake w.write_results bytes w.outbox t h in
    ground (arith, write_all_loop-Wrote w.write_results bytes w.outbox, ok)
