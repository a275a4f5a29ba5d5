-- ===== src/Wire.antt =====
-- The client connection, and `write_all` of src/gdb_stub.c. The socket library is not modelled:
-- what `read` will deliver and what each call of `write` will report are data of the connection.
pub mod Laws
use gdb_stub.Prelude.{
  ℕ, suc, zero, Option, none, some, List, [], ◌∷◌, ◌++◌, take, drop, length, ◌==◌, if◌then◌else◌,
}
use gdb_stub.Prelude.Int.{ℤ, pos, minus_one}

-- `write_results` holds what the next calls of `write` report: a negative result (`none`), or a
-- number of bytes that it may take. When it is used up, `write` fails. After `inbox`, `read` fails.
pub record Wire : Type 0 where
  pub inbox : List ℕ
  pub outbox : List ℕ
  pub write_results : List (Option ℕ)

-- one call of `write` that reports the head of `rs`
write_result : Wire → List ℕ → List (Option ℕ) → Option ℕ × Wire
write_result w bytes [] = (none, w)
write_result w bytes (none ∷ rs) = (none, record w { write_results = rs })
write_result w bytes (some n ∷ rs) =
    (some n, record w { outbox = w.outbox ++ take n bytes; write_results = rs })

-- one call of `write`: `none` for a negative result
unfoldable pub write_once : Wire → List ℕ → Option ℕ × Wire
unfolding write_result
write_once w bytes = write_result w bytes w.write_results

-- the loop of `write_all`, on the bytes that are left
unfoldable pub write_all_loop : List (Option ℕ) → List ℕ → List ℕ → ℤ × List ℕ × List (Option ℕ)
write_all_loop rs [] out = (pos 0, out, rs)
write_all_loop [] (b ∷ bs) out = (minus_one, out, [])
write_all_loop (none ∷ rs) (b ∷ bs) out = (minus_one, out, rs)
write_all_loop (some zero ∷ rs) (b ∷ bs) out = (minus_one, out, rs)
write_all_loop (some (suc n) ∷ rs) (b ∷ bs) out =
    write_all_loop rs (drop (suc n) (b ∷ bs)) (out ++ take (suc n) (b ∷ bs))

unfoldable pub write_all : Wire → List ℕ → ℤ × Wire
unfolding write_all_loop
write_all w bytes =
    let (result, out, rs) = write_all_loop w.write_results bytes w.outbox in
    (result, record w { outbox = out; write_results = rs })
