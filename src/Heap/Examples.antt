-- ===== src/Heap/Examples.antt =====
-- Heaps of numbers.
use hlibc.Base.{
  ℕ, ◌+◌, ◌<◌, ◌≡◌, refl, Bool, true, false, Outcome, done, fault, some, [], ◌∷◌, get_or, ltb,
  arith,
}
use hlibc.Heap.{
  parent, store, heapify, heap_add, heap_pop, is_minheap, heapify_loop, heap_up, up_loop,
  minheap_loop,
}
use hlibc.Heap.Order.{IsHeap}
use hlibc.Heap.Laws.{heap_add-heapify-IsHeap, heap_pop-IsHeap}
use hlibc.Heap.Elements.{Rearranges, heap_add-heap_pop-Rearranges}
use hlibc.Heap.Test.{is_minheap_iff}

ltb_asym : (a b : ℕ) → ltb a b ≡ true → ltb b a ≡ false
ltb_asym a b h = ground arith

ltb_trans : (a b c : ℕ) → ltb b a ≡ false → ltb c b ≡ false → ltb c a ≡ false
ltb_trans a b c h k = ground arith

abbrev cells : ℕ → ℕ
cells k = get_or (5 ∷ 3 ∷ 9 ∷ 1 ∷ []) k 0

abbrev first_cell : Outcome (ℕ → ℕ) → ℕ
first_cell (done array) = array 0
first_cell fault = 0

heapified : first_cell (heapify ltb 4 cells) ≡ 1
unfolding heapify heapify_loop heap_up up_loop
heapified = refl

abbrev numbers : ℕ → ℕ
numbers k = k + 2

numbers-IsHeap : (n : ℕ) → IsHeap ltb n numbers
numbers-IsHeap n = λ k a b. ground arith

heap_add-heapify-IsHeap_example :
    IsHeap ltb 6 (heap_add ltb 1 5 numbers).0
    × ((result : ℕ → ℕ) × (heapify ltb 4 cells ≡ done result) × IsHeap ltb 4 result)
heap_add-heapify-IsHeap_example =
    heap_add-heapify-IsHeap ltb ltb_asym ltb_trans 1 5 4 numbers cells (numbers-IsHeap 5)
      (omega arith)

heap_pop-IsHeap_example :
    ((heap_pop ltb 5 numbers).1 ≡ some (numbers 0))
    × ((k : ℕ) → k < 5 → ltb (numbers k) (numbers 0) ≡ false)
    × IsHeap ltb 4 (heap_pop ltb 5 numbers).0
heap_pop-IsHeap_example = heap_pop-IsHeap ltb ltb_asym ltb_trans 4 numbers (numbers-IsHeap 5)

heap_add-heap_pop-Rearranges_example :
    Rearranges (3 + 1) (store cells 3 8) (heap_add ltb 8 3 cells).0
    × ((heap_add ltb 8 3 cells).0 (heap_add ltb 8 3 cells).1 ≡ 8)
    × ((result : ℕ → ℕ) × (heapify ltb 4 cells ≡ done result) × Rearranges 4 cells result)
    × Rearranges 4 (store cells 0 (cells 4)) (heap_pop ltb 5 cells).0
    × ((heap_pop ltb 5 cells).1 ≡ some (cells 0))
heap_add-heap_pop-Rearranges_example =
    heap_add-heap_pop-Rearranges ltb 8 3 4 cells cells (omega arith)

is_minheap_iff_example :
    (answer : Bool) × (is_minheap ltb 5 numbers ≡ done answer)
    × (answer ≡ true → (k : ℕ) → 0 < k → k < 5 → ltb (numbers (parent k)) (numbers k) ≡ true)
    × (((k : ℕ) → 0 < k → k < 5 → ltb (numbers (parent k)) (numbers k) ≡ true) → answer ≡ true)
is_minheap_iff_example = is_minheap_iff ltb 5 numbers (omega arith)

-- A heap of equal elements is refused.
equal_elements : is_minheap ltb 2 (λ k. 7) ≡ done false
unfolding is_minheap minheap_loop
equal_elements = refl
