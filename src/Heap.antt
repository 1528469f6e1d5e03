-- ===== src/Heap.antt =====
-- hlibc/heap.c: a binary heap. The memory from `base` on is a function from the index of a cell to the
-- element in it; the elements and the order `less` are the caller's.
pub mod Order
pub mod Down
pub mod Laws
pub mod Elements
pub mod Test
mod Examples
use hlibc.Base.{
  ℕ, zero, suc, ◌+◌, ◌-◌, ◌*◌, ◌/◌, Bool, true, false, not, ◌&&◌, ◌||◌, Option, none, some, Outcome,
  done, fault, int_step, ltb, ◌==◌, if◌then◌else◌,
}

-- `PARENT`, `LEFT` and `RIGHT`. `PARENT` is used above 0.
abbrev pub parent : ℕ → ℕ
parent i = (i - 1) / 2

abbrev pub left : ℕ → ℕ
left i = 2 * i + 1

abbrev pub right : ℕ → ℕ
right i = 2 * i + 2

module _ {ℓ} {A : Type ℓ} where
  -- `memcpy` of one element.
  abbrev pub store : (ℕ → A) → ℕ → A → ℕ → A
  store base i v k = if k == i then v else base k

  -- `memswap` of two elements.
  abbrev pub memswap : (ℕ → A) → ℕ → ℕ → ℕ → A
  memswap base i j k = if k == i then base j else if k == j then base i else base k

  module _ (less : A → A → Bool) where
    -- The array afterwards, and the position of the element. Every round makes `i` smaller: fuel
    -- `target` is enough.
    unfoldable pub up_loop : ℕ → ℕ → (ℕ → A) → (ℕ → A) × ℕ
    up_loop zero i base = (base, i)
    up_loop (suc fuel) zero base = (base, zero)
    up_loop (suc fuel) (suc i) base = elim (less (base (suc i)) (base (parent (suc i)))) [
      | true ↦ up_loop fuel (parent (suc i)) (memswap base (suc i) (parent (suc i)))
      | false ↦ (base, suc i)
    ]

    unfoldable pub heap_up : ℕ → (ℕ → A) → (ℕ → A) × ℕ
    heap_up target base = up_loop target target base

    -- The child that a round swaps with cell `i`, and nothing where the loop breaks.
    unfoldable pub swap_child : ℕ → ℕ → (ℕ → A) → Option ℕ
    swap_child n i base =
        if ltb (right i) n
        then (if less (base (left i)) (base (right i))
            then (if less (base (left i)) (base i) then some (left i) else none)
            else if less (base (right i)) (base i)
            then some (right i)
            else none)
        else if ltb (left i) n
        then (if less (base (left i)) (base i) then some (left i) else none)
        else none

    -- Every round makes `i` larger: fuel `n` is enough.
    unfoldable pub down_loop : ℕ → ℕ → ℕ → (ℕ → A) → ℕ → A
    down_loop zero n i base = base
    down_loop (suc fuel) n i base =
        if ltb i n
        then elim (swap_child n i base) [
          | none ↦ base
          | some c ↦ down_loop fuel n c (memswap base c i)
        ]
        else base

    unfoldable pub heap_down : ℕ → ℕ → (ℕ → A) → ℕ → A
    heap_down target n base = down_loop n n target base

    -- The loop of `heapify` from `i` on, an `int`, with `rounds` rounds left.
    unfoldable pub heapify_loop : ℕ → ℕ → (ℕ → A) → Outcome (ℕ → A)
    heapify_loop zero i base = done base
    heapify_loop (suc rounds) i base =
        int_step (i + 1) (heapify_loop rounds (i + 1) (heap_up i base).0)

    unfoldable pub heapify : ℕ → (ℕ → A) → Outcome (ℕ → A)
    heapify n base = heapify_loop n 0 base

    unfoldable pub heap_add : A → ℕ → (ℕ → A) → (ℕ → A) × ℕ
    heap_add elem n base = heap_up n (store base n elem)

    -- The array afterwards, and what is copied out.
    unfoldable pub heap_pop : ℕ → (ℕ → A) → (ℕ → A) × Option A
    heap_pop zero base = (base, none)
    heap_pop (suc zero) base = (base, some (base 0))
    heap_pop (suc (suc n)) base = (heap_down 0 (suc n) (store base 0 (base (suc n))), some (base 0))

    -- `is_minheap`'s loop from `i` on, an `int`, with `rounds` rounds left. `LEFT(i)` and `RIGHT(i)` are
    -- ints too, of which the second is the larger one; `i + 1` is no larger.
    unfoldable pub minheap_loop : ℕ → ℕ → ℕ → (ℕ → A) → Outcome Bool
    minheap_loop zero n i base = done true
    minheap_loop (suc rounds) n i base =
        let next = minheap_loop rounds n (i + 1) base in
        int_step (right i) (
          if (ltb (left i) n && not (less (base i) (base (left i))))
            || (ltb (right i) n && not (less (base i) (base (right i))))
          then done false
          else next)

    unfoldable pub is_minheap : ℕ → (ℕ → A) → Outcome Bool
    is_minheap n base = minheap_loop n n 0 base
