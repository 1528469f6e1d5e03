-- ===== src/Heap/Laws.antt =====
-- hlibc/heap.c: the heap's operations and the heap order.
use native.Mathlib.Decide.{ℕ_discrete}
use hlibc.Base.{
  ℕ, zero, suc, ◌+◌, ◌^◌, ◌<◌, ltb, done, ◌≡◌, refl, ap, ◌∙◌, Bool, true, false, some, Bool-cases,
  inl, inr, arith,
}
use hlibc.Heap.{parent, store, heap_up, heapify_loop, heapify, heap_add, heap_pop}
use hlibc.Heap.Order.{IsHeap, heap_up-IsHeap}
use hlibc.Heap.Down.{heap_down-IsHeap}

module _ {ℓ} {A : Type ℓ} (less : A → A → Bool)
    (asym : (a b : A) → less a b ≡ true → less b a ≡ false)
    (trans : (a b c : A) → less b a ≡ false → less c b ≡ false → less c a ≡ false) where
  heap_add-IsHeap :
      (elem : A) (n : ℕ) (base : ℕ → A)
      → IsHeap less n base
      → IsHeap less (suc n) (heap_add less elem n base).0
  unfolding heap_add
  heap_add-IsHeap elem n base h =
      heap_up-IsHeap less asym trans n (store base n elem) (λ k a b. ground (arith, h k a b))

  heapify_loop-IsHeap :
      (rounds i : ℕ) (base : ℕ → A)
      → IsHeap less i base
      → i + rounds < 2 ^ 31
      → (cells : ℕ → A) × (heapify_loop less rounds i base ≡ done cells)
        × IsHeap less (i + rounds) cells
  unfolding heapify_loop
  heapify_loop-IsHeap zero i base h l = (base, refl, λ k a b. h k a (omega arith))
  heapify_loop-IsHeap (suc rounds) i base h l =
      let fits : ltb (i + 1) (2 ^ 31) ≡ true = ground (arith, l) in
      let (cells, run, heap) =
        heapify_loop-IsHeap rounds (i + 1) (heap_up less i base).0
          (λ k' a' b'. heap_up-IsHeap less asym trans i base h k' a' (omega arith)) (omega arith) in
      (cells, rw fits run, λ k a b. heap k a (omega arith))

  heapify-IsHeap :
      (n : ℕ) (base : ℕ → A)
      → n < 2 ^ 31
      → (cells : ℕ → A) × (heapify less n base ≡ done cells) × IsHeap less n cells
  unfolding heapify
  heapify-IsHeap n base l =
      let (cells, run, heap) =
        heapify_loop-IsHeap n 0 base (λ k' a' b'. absurd (omega arith)) (omega arith) in
      (cells, run, λ k a b. heap k a (omega arith))

  -- `heap_add` to a heap of `n` cells makes one of `n + 1`, and `heapify` returns and makes a heap of any array
  -- of fewer than 2^31 cells, for an order `less` that is asymmetric and whose complement is transitive.
  pub heap_add-heapify-IsHeap :
      (elem : A) (n m : ℕ) (base array : ℕ → A)
      → IsHeap less n base
      → m < 2 ^ 31
      → IsHeap less (suc n) (heap_add less elem n base).0
        × ((cells : ℕ → A) × (heapify less m array ≡ done cells) × IsHeap less m cells)
  heap_add-heapify-IsHeap elem n m base array h l =
      (heap_add-IsHeap elem n base h, heapify-IsHeap m array l)

  irreflexive : (x : A) → less x x ≡ false
  irreflexive x = elim (Bool-cases (less x x)) [ inl t ↦ asym x x t | inr t ↦ t ]

  -- The first cell of a heap has a least element.
  first-least :
      (fuel n : ℕ) (base : ℕ → A)
      → IsHeap less n base
      → (k : ℕ) → k < fuel
      → k < n
      → less (base k) (base 0) ≡ false
  first-least zero n base h k f b = absurd (omega arith)
  first-least (suc fuel) n base h k f b = elim (ℕ_discrete k 0) [
    | yes e ↦ ap (λ t. less (base t) (base 0)) e ∙ irreflexive (base 0)
    | no ne ↦
        trans (base 0) (base (parent k)) (base k)
          (first-least fuel n base h (parent k) (omega arith) (omega arith)) (h k (omega arith) b)
  ]

  -- `heap_pop` of a heap of `n + 1` cells copies out an element that none of the cells is less
  -- than, and leaves a heap of `n` cells, for an order `less` that is asymmetric and whose
  -- complement is transitive.
  pub heap_pop-IsHeap :
      (n : ℕ) (base : ℕ → A)
      → IsHeap less (suc n) base
      → ((heap_pop less (suc n) base).1 ≡ some (base 0))
        × ((k : ℕ) → k < suc n → less (base k) (base 0) ≡ false)
        × IsHeap less n (heap_pop less (suc n) base).0
  unfolding heap_pop
  heap_pop-IsHeap zero base h =
      (refl, λ k b. first-least (suc k) 1 base h k (omega arith) b, λ k a b. absurd (omega arith))
  heap_pop-IsHeap (suc n) base h = (
    refl,
    λ k b. first-least (suc k) (suc (suc n)) base h k (omega arith) b,
    heap_down-IsHeap less asym trans n base (base (suc n)) h,
  )
