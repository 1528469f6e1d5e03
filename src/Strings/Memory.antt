-- ===== src/Strings/Memory.antt =====
-- hlibc/string.c: the memory helpers. `malloc` and `calloc` are parameters: the bytes of the new block, or
-- the null pointer.
use hlibc.Base.{
  ℕ, zero, suc, ◌+◌, ◌%◌, ◌^◌, ◌≤◌, ◌<◌, true, int_step, ◌≡◌, refl, List, [], ◌∷◌, ◌++◌, Option,
  none, some, Outcome, done, fault, ◌>>=◌, length, set, take, drop, ltb, if◌then◌else◌, arith,
}

module _ (malloc : ℕ → Option (List ℕ)) where
  -- `n + 1` may wrap around, and then the terminator is written outside the block.
  unfoldable pub stralloc : ℕ → Outcome (Option (List ℕ))
  stralloc n = elim (malloc ((n + 1) % 2 ^ 64)) [
    | none ↦ done none
    | some buf ↦ if ltb n (length buf) then done (some (set buf n 0)) else fault
  ]

  -- Where the source has `n` bytes.
  unfoldable pub memdup : List ℕ → ℕ → Option (List ℕ)
  memdup src n = elim (malloc n) [ none ↦ none | some ret ↦ some (take n src ++ drop n ret) ]

unfoldable pub zalloc : (ℕ → ℕ → Option (List ℕ)) → ℕ → Option (List ℕ)
zalloc calloc n = calloc 1 n

-- The loop of `memswap`, from byte `i` on, with `n` bytes left. The counter is an int.
unfoldable pub swap_loop : ℕ → List ℕ → List ℕ → ℕ → Outcome (List ℕ × List ℕ)
swap_loop i a b zero = done (a, b)
swap_loop i [] b (suc n) = fault
swap_loop i (x ∷ a) [] (suc n) = fault
swap_loop i (x ∷ a) (y ∷ b) (suc n) =
    let next = swap_loop (i + 1) a b n in
    int_step (i + 1) next >>= λ (a1, b1). done (y ∷ a1, x ∷ b1)

-- Two buffers that do not overlap; a byte outside one of them is a fault.
unfoldable pub memswap : List ℕ → List ℕ → ℕ → Outcome (List ℕ × List ℕ)
memswap a b n = swap_loop 0 a b n

swap_loop_lem :
    (i : ℕ) (a b : List ℕ) (n : ℕ)
    → n ≤ length a
    → n ≤ length b
    → i + n < 2 ^ 31
    → swap_loop i a b n ≡ done (take n b ++ drop n a, take n a ++ drop n b)
unfolding swap_loop
swap_loop_lem i a b zero h k l = refl
swap_loop_lem i [] b (suc n) h k l = absurd (omega arith)
swap_loop_lem i (x ∷ a) [] (suc n) h k l = absurd (omega arith)
swap_loop_lem i (x ∷ a) (y ∷ b) (suc n) h k l =
    let fits : ltb (i + 1) (2 ^ 31) ≡ true = ground (arith, l) in
    rw (fits, swap_loop_lem (i + 1) a b n (omega arith) (omega arith) (omega arith)) refl

-- `memswap` exchanges the first bytes of both buffers, and stays inside them.
pub memswap_lem :
    (a b : List ℕ) (n : ℕ)
    → n ≤ length a
    → n ≤ length b
    → n < 2 ^ 31
    → memswap a b n ≡ done (take n b ++ drop n a, take n a ++ drop n b)
unfolding memswap
memswap_lem a b n h k l = swap_loop_lem 0 a b n h k (omega arith)
