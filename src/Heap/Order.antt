-- ===== src/Heap/Order.antt =====
-- The heap order.
use hlibc.Base.{
  ℕ, zero, suc, ◌≤◌, ◌<◌, ◌≡◌, ◌≢◌, refl, sym, ap, ap₂, ◌∙◌, Bool, true, false, Bool-cases, inl,
  inr, arith,
}
use mathlib.Core.Path.{subst}
use native.Mathlib.Decide.{ℕ_discrete}
use hlibc.Heap.{parent, memswap, up_loop, heap_up}

module _ {ℓ} {A : Type ℓ} (base : ℕ → A) (i j k : ℕ) where
  pub memswap_first : k ≡ i → memswap base i j k ≡ base j
  memswap_first e = ground arith

  pub memswap_second : k ≡ j → k ≢ i → memswap base i j k ≡ base i
  memswap_second e ne = ground arith

  pub memswap_other : k ≢ i → k ≢ j → memswap base i j k ≡ base k
  memswap_other ni nj = ground arith

module _ {ℓ} {A : Type ℓ} (less : A → A → Bool) where
  -- No child is less than its parent, over the first `n` cells.
  abbrev pub IsHeap : ℕ → (ℕ → A) → Type 0
  IsHeap n base = (k : ℕ) → 0 < k → k < n → less (base k) (base (parent k)) ≡ false

  -- As a heap, but for cell `i` and its parent; the children of `i` are in order with its parent.
  abbrev pub IsUp : ℕ → ℕ → (ℕ → A) → Type 0
  IsUp n i base =
      ((k : ℕ) → 0 < k → k < n → k ≢ i → less (base k) (base (parent k)) ≡ false)
      × ((k : ℕ) → 0 < i → 0 < k → k < n → parent k ≡ i → less (base k) (base (parent i)) ≡ false)

  pub up_loop-true :
      (fuel i : ℕ) (base : ℕ → A)
      → less (base (suc i)) (base (parent (suc i))) ≡ true
      → up_loop less (suc fuel) (suc i) base
        ≡ up_loop less fuel (parent (suc i)) (memswap base (suc i) (parent (suc i)))
  unfolding up_loop
  up_loop-true fuel i base h = rw (up_loop, h) refl

  pub up_loop-false :
      (fuel i : ℕ) (base : ℕ → A)
      → less (base (suc i)) (base (parent (suc i))) ≡ false
      → up_loop less (suc fuel) (suc i) base ≡ (base, suc i)
  unfolding up_loop
  up_loop-false fuel i base h = rw (up_loop, h) refl

module _ {ℓ} {A : Type ℓ} (less : A → A → Bool)
    (asym : (a b : A) → less a b ≡ true → less b a ≡ false)
    (trans : (a b c : A) → less b a ≡ false → less c b ≡ false → less c a ≡ false) where
  module _ (n i : ℕ) (base : ℕ → A) (p : 0 < i) (l : less (base i) (base (parent i)) ≡ true)
      (one : (k : ℕ) → 0 < k → k < n → k ≢ i → less (base k) (base (parent k)) ≡ false)
      (two : (k : ℕ)
        → 0 < i
        → 0 < k
        → k < n
        → parent k ≡ i
        → less (base k) (base (parent i)) ≡ false)
      (inside : i < n) where
    abbrev risen : ℕ → A
    risen = memswap base i (parent i)

    above : less (base (parent i)) (base i) ≡ false
    above = asym (base i) (base (parent i)) l

    -- The new cell `k` against the parent's cell, which now has the element that rose.
    risen_ok :
        (k : ℕ) → 0 < k → k < n → k ≢ i → parent k ≡ parent i → less (base k) (base i) ≡ false
    risen_ok k a b ne e =
        trans (base i) (base (parent i)) (base k) above
          (ap (λ t. less (base k) (base t)) (sym e) ∙ one k a b ne)

    risen_below : (k : ℕ) → 0 < k → k < n → k ≢ parent i → less (risen k) (risen (parent k)) ≡ false
    risen_below k a b c = elim (ℕ_discrete k i) [
      | yes e ↦
          ap₂ less (memswap_first base i (parent i) k e)
            (memswap_second base i (parent i) (parent k) (ap parent e) (omega arith))
          ∙ above
      | no ne ↦ elim (ℕ_discrete (parent k) i) [
        | yes e ↦
            ap₂ less (memswap_other base i (parent i) k ne c)
              (memswap_first base i (parent i) (parent k) e)
            ∙ two k p a b e
        | no ne' ↦ elim (ℕ_discrete (parent k) (parent i)) [
          | yes e ↦
              ap₂ less (memswap_other base i (parent i) k ne c)
                (memswap_second base i (parent i) (parent k) e ne')
              ∙ risen_ok k a b ne e
          | no ne'' ↦
              ap₂ less (memswap_other base i (parent i) k ne c)
                (memswap_other base i (parent i) (parent k) ne' ne'')
              ∙ one k a b ne
        ]
      ]
    ]

    risen_children :
        (k : ℕ)
        → 0 < parent i
        → 0 < k
        → k < n
        → parent k ≡ parent i
        → less (risen k) (risen (parent (parent i))) ≡ false
    risen_children k pos a b e =
        let top =
          memswap_other base i (parent i) (parent (parent i)) (λ z. absurd (omega arith))
            (λ z. absurd (omega arith)) in
        let mid : less (base (parent i)) (base (parent (parent i))) ≡ false =
          one (parent i) pos (omega arith) (λ z. absurd (omega arith)) in
        elim (ℕ_discrete k i) [
          | yes same ↦ ap₂ less (memswap_first base i (parent i) k same) top ∙ mid
          | no ne ↦
              ap₂ less (memswap_other base i (parent i) k ne (λ z. absurd (omega arith))) top
              ∙ trans (base (parent (parent i))) (base (parent i)) (base k) mid
                  (ap (λ t. less (base k) (base t)) (sym e) ∙ one k a b ne)
        ]

    pub swap-IsUp : IsUp less n (parent i) risen
    swap-IsUp = (risen_below, risen_children)

  -- The loop ends in a heap.
  pub up_loop-IsHeap :
      (fuel n i : ℕ) (base : ℕ → A)
      → i ≤ fuel
      → i < n
      → IsUp less n i base
      → IsHeap less n (up_loop less fuel i base).0
  unfolding up_loop
  up_loop-IsHeap zero n zero base f b (one, two) = λ k a c. one k a c (λ e. absurd (omega arith))
  up_loop-IsHeap zero n (suc i) base f b h = absurd (omega arith)
  up_loop-IsHeap (suc fuel) n zero base f b (one, two) =
      λ k a c. one k a c (λ e. absurd (omega arith))
  up_loop-IsHeap (suc fuel) n (suc i) base f b (one, two) =
      elim (Bool-cases (less (base (suc i)) (base (parent (suc i))))) [
        | inl l ↦
            subst (λ t. IsHeap less n t.0) (sym (up_loop-true less fuel i base l))
              (up_loop-IsHeap fuel n (parent (suc i)) (memswap base (suc i) (parent (suc i)))
                (omega arith) (omega arith) (swap-IsUp n (suc i) base (omega arith) l one two b))
        | inr l ↦
            subst (λ t. IsHeap less n t.0) (sym (up_loop-false less fuel i base l))
              (λ k a c. elim (ℕ_discrete k (suc i)) [
                | yes e ↦ ap₂ less (ap base e) (ap (λ t. base (parent t)) e) ∙ l
                | no ne ↦ one k a c ne
              ])
      ]

  -- The last of the cells rises to its place.
  pub heap_up-IsHeap :
      (n : ℕ) (base : ℕ → A) → IsHeap less n base → IsHeap less (suc n) (heap_up less n base).0
  unfolding heap_up
  heap_up-IsHeap n base h =
      up_loop-IsHeap n (suc n) n base (omega arith) (omega arith)
        (λ k a b ne. h k a (omega arith), λ k p a b e. absurd (omega arith))
