-- ===== src/Heap/Test.antt =====
-- hlibc/heap.c: `is_minheap`.
use hlibc.Base.{
  ℕ, zero, suc, ◌+◌, ◌≤◌, ◌<◌, ◌≡◌, refl, sym, ap, ap₂, ◌∙◌, Bool, true, false, not, ◌&&◌, ◌||◌,
  ◌^◌, ltb, if◌then◌else◌, done, arith,
}
use native.Mathlib.Decide.{ℕ_discrete}
use hlibc.Heap.{parent, left, right, minheap_loop, is_minheap}

if-done : (b x y : Bool) → (if b then done x else done y) ≡ done (if b then x else y)
if-done true x y = refl
if-done false x y = refl

module _ {ℓ} {A : Type ℓ} (less : A → A → Bool) where
  -- The tests of the loop, whatever the width of `i`.
  abbrev tested : ℕ → ℕ → ℕ → (ℕ → A) → Bool
  tested zero n i base = true
  tested (suc rounds) n i base =
      let next = tested rounds n (i + 1) base in
      if (ltb (left i) n && not (less (base i) (base (left i))))
        || (ltb (right i) n && not (less (base i) (base (right i))))
      then false
      else next

  minheap_loop-tested :
      (rounds n i : ℕ) (base : ℕ → A)
      → i + rounds < 2 ^ 30
      → minheap_loop less rounds n i base ≡ done (tested rounds n i base)
  unfolding minheap_loop
  minheap_loop-tested zero n i base h = refl
  minheap_loop-tested (suc rounds) n i base h =
      let fits : ltb (right i) (2 ^ 31) ≡ true = ground (arith, h) in
      rw fits rw (minheap_loop-tested rounds n (i + 1) base (omega arith)) (
        if-done
          ((ltb (left i) n && not (less (base i) (base (left i))))
            || (ltb (right i) n && not (less (base i) (base (right i)))))
          false (tested rounds n (i + 1) base))

  round_left :
      (rounds n i : ℕ) (base : ℕ → A)
      → tested (suc rounds) n i base ≡ true
      → left i < n
      → less (base i) (base (left i)) ≡ true
  round_left rounds n i base h b = ground arith

  round_right :
      (rounds n i : ℕ) (base : ℕ → A)
      → tested (suc rounds) n i base ≡ true
      → right i < n
      → less (base i) (base (right i)) ≡ true
  round_right rounds n i base h b = ground arith

  tested-true :
      (rounds n i k : ℕ) (base : ℕ → A)
      → tested rounds n i base ≡ true
      → 0 < k
      → k < n
      → i ≤ parent k
      → parent k < i + rounds
      → less (base (parent k)) (base k) ≡ true
  tested-true zero n i k base h a b c d = absurd (omega arith)
  tested-true (suc rounds) n i k base h a b c d = elim (ℕ_discrete (parent k) i) [
    | yes e ↦ elim (ℕ_discrete k (left i)) [
      | yes l ↦
          ap₂ (λ s t. less (base s) (base t)) e l
          ∙ round_left rounds n i base h (omega (arith, l, b))
      | no nl ↦
          let r : k ≡ right i = omega (arith, a, e, nl) in
          ap₂ (λ s t. less (base s) (base t)) e r
          ∙ round_right rounds n i base h (omega (arith, r, b))
    ]
    | no ne ↦
        tested-true rounds n (i + 1) k base (ground (arith, h)) a b (omega arith) (omega arith)
  ]

  tested_intro :
      (rounds n i : ℕ) (base : ℕ → A)
      → ((k : ℕ) → 0 < k → k < n → less (base (parent k)) (base k) ≡ true)
      → tested rounds n i base ≡ true
  tested_intro zero n i base h = refl
  tested_intro (suc rounds) n i base h =
      let half : parent (left i) ≡ i = omega arith in
      let half' : parent (right i) ≡ i = omega arith in
      let l : left i < n → less (base i) (base (left i)) ≡ true =
        λ b. ap (λ t. less (base t) (base (left i))) (sym half) ∙ h (left i) (omega arith) b in
      let r : right i < n → less (base i) (base (right i)) ≡ true =
        λ b. ap (λ t. less (base t) (base (right i))) (sym half') ∙ h (right i) (omega arith) b in
      ground (arith, l, r, tested_intro rounds n (i + 1) base h)

  -- On fewer than 2^30 cells `is_minheap` returns, and accepts exactly the arrays in which every parent is
  -- less than its children: a child that is equal to its parent is refused.
  pub is_minheap_iff :
      (n : ℕ) (base : ℕ → A)
      → n < 2 ^ 30
      → (answer : Bool) × (is_minheap less n base ≡ done answer)
        × (answer ≡ true → (k : ℕ) → 0 < k → k < n → less (base (parent k)) (base k) ≡ true)
        × (((k : ℕ) → 0 < k → k < n → less (base (parent k)) (base k) ≡ true) → answer ≡ true)
  unfolding is_minheap
  is_minheap_iff n base l = (
    tested n n 0 base,
    minheap_loop-tested n n 0 base (omega arith),
    λ h k a b. tested-true n n 0 k base h a b (omega arith) (omega arith),
    tested_intro n n 0 base,
  )
