-- ===== src/Slots.antt =====
-- The tables of src/gdb_stub.c: an array whose first `n` slots are in use, searched from the front.
-- Each loop `for (i = 0; i < count; i++) if (match) …` of the breakpoint and watchpoint functions
-- is one of the two searches here.
use gdb_stub.Prelude.{
  ℕ, zero, suc, ◌<◌, ◌≡◌, ◌↔◌, refl, Bool, true, false, ◌&&◌, ◌||◌, Option, none, some, List, [],
  ◌∷◌, set, length, if◌then◌else◌, Bool-cases, inl, inr, arith,
}

module _ {E : Type 0} where
  -- the first slot in use that matches
  unfoldable pub find_slot : (E → Bool) → ℕ → List E → Option E
  find_slot p zero xs = none
  find_slot p (suc n) [] = none
  find_slot p (suc n) (e ∷ xs) = if p e then some e else find_slot p n xs

  -- the table with the first slot in use that matches changed by `f`
  unfoldable pub update_slot : (E → Bool) → (E → E) → ℕ → List E → List E
  update_slot p f zero xs = xs
  update_slot p f (suc n) [] = []
  update_slot p f (suc n) (e ∷ xs) = if p e then f e ∷ xs else e ∷ update_slot p f n xs

  -- A slot is found only if it matches.
  pub find_slot-holds :
      (p : E → Bool) (n : ℕ) (xs : List E) {e : E} → find_slot p n xs ≡ some e → p e ≡ true
  unfolding find_slot
  find_slot-holds p zero xs h = cc
  find_slot-holds p (suc n) [] h = cc
  find_slot-holds p (suc n) (x ∷ xs) {e} h = ground (arith, find_slot-holds p n xs {e = e})

  pub length-update_slot :
      (p : E → Bool) (f : E → E) (n : ℕ) (xs : List E) → length (update_slot p f n xs) ≡ length xs
  unfolding update_slot
  length-update_slot p f zero xs = refl
  length-update_slot p f (suc n) [] = refl
  length-update_slot p f (suc n) (x ∷ xs) = ground (arith, length-update_slot p f n xs)

module _ {E K : Type 0} (key : E → K) (eqb : K → K → Bool)
    (eqb_iff : (a b : K) → (eqb a b ≡ true) ↔ (a ≡ b)) (enabled : E → Bool) (enable : Bool → E → E)
    (key-enable : (b : Bool) (e : E) → key (enable b e) ≡ key e)
    (enabled-enable : (b : Bool) (e : E) → enabled (enable b e) ≡ b) where
  -- the first `n` slots hold an enabled one of key `k`
  unfoldable pub is_armed : ℕ → List E → K → Bool
  is_armed zero xs k = false
  is_armed (suc n) [] k = false
  is_armed (suc n) (e ∷ xs) k = enabled e && eqb (key e) k || is_armed n xs k

  -- No two of the first `n` slots have one key.
  unfoldable pub IsDistinct : ℕ → List E → Type 0
  IsDistinct zero xs = Unit
  IsDistinct (suc n) [] = Unit
  IsDistinct (suc n) (e ∷ xs) = (find_slot (λ x. eqb (key x) (key e)) n xs ≡ none) × IsDistinct n xs

  pub is_armed-absent :
      (n : ℕ) (xs : List E) (k : K)
      → find_slot (λ x. eqb (key x) k) n xs ≡ none
      → is_armed n xs k ≡ false
  unfolding find_slot is_armed
  is_armed-absent zero xs k h = refl
  is_armed-absent (suc n) [] k h = refl
  is_armed-absent (suc n) (e ∷ xs) k h = ground (arith, is_armed-absent n xs k)

  find_slot-update_slot-none :
      (q : E → Bool) (b : Bool) (k : K) (n : ℕ) (xs : List E)
      → find_slot (λ x. eqb (key x) k) n xs ≡ none
      → find_slot (λ x. eqb (key x) k) n (update_slot q (enable b) n xs) ≡ none
  unfolding find_slot update_slot
  find_slot-update_slot-none q b k zero xs h = refl
  find_slot-update_slot-none q b k (suc n) [] h = refl
  find_slot-update_slot-none q b k (suc n) (e ∷ xs) h =
      ground (arith, key-enable b e, find_slot-update_slot-none q b k n xs)

  find_slot-set-none :
      (k : K) (v : E) (n : ℕ) (xs : List E)
      → find_slot (λ x. eqb (key x) k) n xs ≡ none
      → eqb (key v) k ≡ false
      → find_slot (λ x. eqb (key x) k) (suc n) (set xs n v) ≡ none
  unfolding find_slot
  find_slot-set-none k v zero [] h e = refl
  find_slot-set-none k v zero (x ∷ xs) h e = ground arith
  find_slot-set-none k v (suc n) [] h e = refl
  find_slot-set-none k v (suc n) (x ∷ xs) h e = ground (arith, find_slot-set-none k v n xs)

  eqb_false_sym : (a b : K) → eqb a b ≡ false → eqb b a ≡ false
  eqb_false_sym a b h = ground (arith, eqb_iff a b, eqb_iff b a)

  -- Changing only the flag of a slot keeps the keys distinct.
  pub update_slot-IsDistinct :
      (q : E → Bool) (b : Bool) (n : ℕ) (xs : List E)
      → IsDistinct n xs
      → IsDistinct n (update_slot q (enable b) n xs)
  unfolding IsDistinct update_slot
  update_slot-IsDistinct q b zero xs d = tt
  update_slot-IsDistinct q b (suc n) [] d = tt
  update_slot-IsDistinct q b (suc n) (e ∷ xs) d = elim (Bool-cases (q e)) [
    | inl hit ↦ rw hit (rw key-enable d.0, d.1)
    | inr miss ↦
        rw miss
          (find_slot-update_slot-none q b (key e) n xs d.0, update_slot-IsDistinct q b n xs d.1)
  ]

  -- So does a new slot whose key is not in use.
  pub set-IsDistinct :
      (v : E) (n : ℕ) (xs : List E)
      → find_slot (λ x. eqb (key x) (key v)) n xs ≡ none
      → IsDistinct n xs
      → IsDistinct (suc n) (set xs n v)
  unfolding IsDistinct find_slot
  set-IsDistinct v zero [] h d = tt
  set-IsDistinct v zero (x ∷ xs) h d = (refl, tt)
  set-IsDistinct v (suc n) [] h d = tt
  set-IsDistinct v (suc n) (e ∷ xs) h d = elim (Bool-cases (eqb (key e) (key v))) [
    | inl hit ↦ absurd (cc (rw hit at h))
    | inr miss ↦ (
      find_slot-set-none (key e) v n xs d.0 (eqb_false_sym (key e) (key v) miss),
      set-IsDistinct v n xs (rw miss at h) d.1,
    )
  ]

  -- Enabling the slot of `a` arms `a` and nothing else.
  pub is_armed-enable :
      (a k : K) (n : ℕ) (xs : List E) {e : E}
      → find_slot (λ x. eqb (key x) a) n xs ≡ some e
      → is_armed n (update_slot (λ x. eqb (key x) a) (enable true) n xs) k
        ≡ (if eqb a k then true else is_armed n xs k)
  unfolding find_slot update_slot is_armed
  is_armed-enable a k zero xs h = cc
  is_armed-enable a k (suc n) [] h = cc
  is_armed-enable a k (suc n) (x ∷ xs) {e} h = ground (
    arith,
    key-enable true x,
    enabled-enable true x,
    eqb_iff (key x) a,
    is_armed-enable a k n xs {e = e},
  )

  -- Disabling the slot of `a` disarms `a` and nothing else, as no other slot has that key.
  pub is_armed-disable :
      (a k : K) (n : ℕ) (xs : List E)
      → IsDistinct n xs
      → is_armed n (update_slot (λ x. eqb (key x) a) (enable false) n xs) k
        ≡ (if eqb a k then false else is_armed n xs k)
  unfolding update_slot is_armed IsDistinct
  is_armed-disable a k zero xs d = ground arith
  is_armed-disable a k (suc n) [] d = ground arith
  is_armed-disable a k (suc n) (x ∷ xs) d = ground (
    arith,
    key-enable false x,
    enabled-enable false x,
    eqb_iff (key x) a,
    eqb_iff (key x) k,
    eqb_iff a k,
    is_armed-absent n xs (key x) d.0,
    is_armed-disable a k n xs d.1,
  )

  -- A new enabled slot arms its key and nothing else.
  pub is_armed-set :
      (v : E) (k : K) (n : ℕ) (xs : List E)
      → n < length xs
      → enabled v ≡ true
      → is_armed (suc n) (set xs n v) k ≡ (if eqb (key v) k then true else is_armed n xs k)
  unfolding is_armed
  is_armed-set v k n [] h e = absurd (omega arith)
  is_armed-set v k zero (x ∷ xs) h e = ground arith
  is_armed-set v k (suc n) (x ∷ xs) h e = ground (arith, is_armed-set v k n xs (omega arith) e)
