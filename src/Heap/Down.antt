-- ===== src/Heap/Down.antt =====
-- The loop that takes an element down, and the heap order.
use mathlib.Core.Path.{subst}
use native.Mathlib.Decide.{ℕ_discrete}
use hlibc.Base.{
  ℕ, zero, suc, ◌+◌, ◌≤◌, ◌<◌, ◌≡◌, ◌≢◌, refl, sym, ap, ap₂, ◌∙◌, Bool, true, false, Option-cases,
  none, some, ltb, inl, inr, ◌⊎◌, arith,
}
use hlibc.Heap.{parent, left, right, memswap, store, swap_child, down_loop, heap_down}
use hlibc.Heap.Order.{memswap_first, memswap_second, memswap_other, IsHeap}

module _ {ℓ} {A : Type ℓ} (less : A → A → Bool) where
  -- As a heap, but for cell `i` and its children; these are in order with the parent of `i`.
  abbrev IsDown : ℕ → ℕ → (ℕ → A) → Type 0
  IsDown n i base =
      ((k : ℕ) → 0 < k → k < n → parent k ≢ i → less (base k) (base (parent k)) ≡ false)
      × ((k : ℕ) → 0 < i → 0 < k → k < n → parent k ≡ i → less (base k) (base (parent i)) ≡ false)

  pub down_loop-none :
      (fuel n i : ℕ) (base : ℕ → A)
      → i < n
      → swap_child less n i base ≡ none
      → down_loop less (suc fuel) n i base ≡ base
  unfolding down_loop
  down_loop-none fuel n i base b h =
      let t : ltb i n ≡ true = ground arith in rw (down_loop, t, h) refl

  pub down_loop-some :
      (fuel n i c : ℕ) (base : ℕ → A)
      → i < n
      → swap_child less n i base ≡ some c
      → down_loop less (suc fuel) n i base ≡ down_loop less fuel n c (memswap base c i)
  unfolding down_loop
  down_loop-some fuel n i c base b h =
      let t : ltb i n ≡ true = ground arith in rw (down_loop, t, h) refl

  pub swap_child-inside : (n i c : ℕ) (base : ℕ → A) → swap_child less n i base ≡ some c → c < n
  unfolding swap_child
  swap_child-inside n i c base h = ground arith

module _ {ℓ} {A : Type ℓ} (less : A → A → Bool)
    (asym : (a b : A) → less a b ≡ true → less b a ≡ false)
    (trans : (a b c : A) → less b a ≡ false → less c b ≡ false → less c a ≡ false) where
  none_left :
      (n i : ℕ) (base : ℕ → A)
      → swap_child less n i base ≡ none
      → left i < n
      → less (base (left i)) (base i) ≡ false
  unfolding swap_child
  none_left n i base h b = ground (arith, trans (base i) (base (right i)) (base (left i)))

  none_right :
      (n i : ℕ) (base : ℕ → A)
      → swap_child less n i base ≡ none
      → right i < n
      → less (base (right i)) (base i) ≡ false
  unfolding swap_child
  none_right n i base h b = ground (
    arith,
    asym (base (left i)) (base (right i)),
    trans (base i) (base (left i)) (base (right i)),
  )

  -- Where the loop breaks, the children are in order with cell `i`.
  swap_child-none :
      (n i k : ℕ) (base : ℕ → A)
      → swap_child less n i base ≡ none
      → 0 < k
      → k < n
      → parent k ≡ i
      → less (base k) (base i) ≡ false
  swap_child-none n i k base h a b e = elim (ℕ_discrete k (left i)) [
    | yes l ↦ ap (λ t. less (base t) (base i)) l ∙ none_left n i base h (omega (arith, l, b))
    | no ne ↦
        let r : k ≡ right i = omega (arith, a, e, ne) in
        ap (λ t. less (base t) (base i)) r ∙ none_right n i base h (omega (arith, r, b))
  ]

  some_cases :
      (n i c : ℕ) (base : ℕ → A)
      → swap_child less n i base ≡ some c
      → (c < n)
        × (less (base c) (base i) ≡ true)
        × ((c ≡ left i) ⊎ (c ≡ right i))
        × (left i < n → less (base (left i)) (base c) ≡ false)
        × (right i < n → less (base (right i)) (base c) ≡ false)
  unfolding swap_child
  some_cases n i c base h = ground (
    arith,
    asym (base (left i)) (base (right i)),
    asym (base (left i)) (base (left i)),
    asym (base (right i)) (base (right i)),
  )

  -- The child that rises is less than cell `i`, and no other child is less than it.
  swap_child-some :
      (n i c : ℕ) (base : ℕ → A)
      → swap_child less n i base ≡ some c
      → (0 < c)
        × (c < n)
        × (parent c ≡ i)
        × (less (base c) (base i) ≡ true)
        × ((k : ℕ) → 0 < k → k < n → parent k ≡ i → less (base k) (base c) ≡ false)
  swap_child-some n i c base h =
      let (inside, l, place, lo, ro) = some_cases n i c base h in
      let bounds : (0 < c) × (parent c ≡ i) = ground arith in
      (
        bounds.0,
        inside,
        bounds.1,
        l,
        λ k a b e. elim (ℕ_discrete k (left i)) [
          | yes at ↦ ap (λ t. less (base t) (base c)) at ∙ lo (omega (arith, at, b))
          | no ne ↦
              let r : k ≡ right i = omega (arith, a, e, ne) in
              ap (λ t. less (base t) (base c)) r ∙ ro (omega (arith, r, b))
        ],
      )

  module _ (n i c : ℕ) (base : ℕ → A) (pos : 0 < c) (inside : c < n) (child : parent c ≡ i)
      (l : less (base c) (base i) ≡ true)
      (least : (k : ℕ) → 0 < k → k < n → parent k ≡ i → less (base k) (base c) ≡ false)
      (one : (k : ℕ) → 0 < k → k < n → parent k ≢ i → less (base k) (base (parent k)) ≡ false)
      (two : (k : ℕ)
        → 0 < i
        → 0 < k
        → k < n
        → parent k ≡ i
        → less (base k) (base (parent i)) ≡ false) where
    abbrev sunk : ℕ → A
    sunk = memswap base c i

    sunk_below : (k : ℕ) → 0 < k → k < n → parent k ≢ c → less (sunk k) (sunk (parent k)) ≡ false
    sunk_below k a b ne = elim (ℕ_discrete k c) [
      | yes e ↦
          ap₂ less (memswap_first base c i k e)
            (memswap_second base c i (parent k) (ap parent e ∙ child) ne)
          ∙ asym (base c) (base i) l
      | no other ↦ elim (ℕ_discrete (parent k) i) [
        | yes e ↦
            ap₂ less (memswap_other base c i k other (λ z. absurd (omega arith)))
              (memswap_second base c i (parent k) e ne)
            ∙ least k a b e
        | no ne' ↦ elim (ℕ_discrete k i) [
          | yes e ↦
              ap₂ less (memswap_second base c i k e other)
                (memswap_other base c i (parent k) ne ne')
              ∙ ap (λ t. less (base c) (base t)) (ap parent e)
              ∙ two c (omega arith) pos inside child
          | no ne'' ↦
              ap₂ less (memswap_other base c i k other ne'')
                (memswap_other base c i (parent k) ne ne')
              ∙ one k a b ne'
        ]
      ]
    ]

    sunk_children :
        (k : ℕ) → 0 < c → 0 < k → k < n → parent k ≡ c → less (sunk k) (sunk (parent c)) ≡ false
    sunk_children k p a b e =
        ap₂ less (memswap_other base c i k (λ z. absurd (omega arith)) (λ z. absurd (omega arith)))
          (memswap_second base c i (parent c) child (λ z. absurd (omega arith)))
        ∙ ap (λ t. less (base k) (base t)) (sym e)
        ∙ one k a b (λ z. absurd (omega arith))

    swap-IsDown : IsDown less n c sunk
    swap-IsDown = (sunk_below, sunk_children)

  -- The loop ends in a heap.
  down_loop-IsHeap :
      (fuel n i : ℕ) (base : ℕ → A)
      → n ≤ i + fuel
      → i < n
      → IsDown less n i base
      → IsHeap less n (down_loop less fuel n i base)
  down_loop-IsHeap zero n i base f b h = absurd (omega arith)
  down_loop-IsHeap (suc fuel) n i base f b (one, two) =
      elim (Option-cases (swap_child less n i base)) [
        | inl stop ↦
            subst (IsHeap less n) (sym (down_loop-none less fuel n i base b stop)) (λ k a c.
              elim (ℕ_discrete (parent k) i) [
                | yes e ↦ ap (λ t. less (base k) (base t)) e ∙ swap_child-none n i k base stop a c e
                | no ne ↦ one k a c ne
              ])
        | inr (c, next) ↦
            let (pos, inside, child, l, least) = swap_child-some n i c base next in
            subst (IsHeap less n) (sym (down_loop-some less fuel n i c base b next)) (
              down_loop-IsHeap fuel n c (memswap base c i) (omega arith) inside
                (swap-IsDown n i c base pos inside child l least one two))
      ]

  -- A new first element sinks to its place.
  pub heap_down-IsHeap :
      (n : ℕ) (base : ℕ → A) (v : A)
      → IsHeap less (suc (suc n)) base
      → IsHeap less (suc n) (heap_down less 0 (suc n) (store base 0 v))
  unfolding heap_down
  heap_down-IsHeap n base v h =
      down_loop-IsHeap (suc n) (suc n) 0 (store base 0 v) (omega arith) (omega arith)
        (λ k a b ne. ground (arith, h k a (omega (arith, b))), λ k p a b e. absurd (omega arith))
