-- ===== src/Heap/Elements.antt =====
-- hlibc/heap.c: the heap's operations and the elements of the array.
use hlibc.Base.{
  ℕ, zero, suc, ◌+◌, ◌^◌, ◌≤◌, ◌<◌, ltb, true, done, ◌≡◌, refl, sym, ap, ◌∙◌, Bool, Option-cases,
  some, Bool-cases, inl, inr, arith,
}
use mathlib.Core.Path.{subst}
use native.Mathlib.Decide.{ℕ_discrete}
use hlibc.Heap.{
  parent, memswap, store, up_loop, heap_up, down_loop, heap_down, heapify_loop, heapify, heap_add,
  heap_pop, swap_child,
}
use hlibc.Heap.Order.{memswap_first, memswap_second, memswap_other, up_loop-true, up_loop-false}
use hlibc.Heap.Down.{down_loop-none, down_loop-some, swap_child-inside}

-- The cells of `after` are those of `before` in another order; only the first `n` change places.
abbrev pub Rearranges {ℓ} : {A : Type ℓ} → ℕ → (ℕ → A) → (ℕ → A) → Type ℓ
Rearranges n before after =
    (from : ℕ → ℕ) × (to : ℕ → ℕ) × ((k : ℕ) → from (to k) ≡ k)
    × ((k : ℕ) → to (from k) ≡ k)
    × ((k : ℕ) → n ≤ k → from k ≡ k)
    × ((k : ℕ) → after k ≡ before (from k))

exchange : ℕ → ℕ → ℕ → ℕ
exchange i j = memswap (λ x. x) i j

exchange_twice : (i j k : ℕ) → exchange i j (exchange i j k) ≡ k
unfolding exchange
exchange_twice i j k = ground arith

module _ {ℓ} {A : Type ℓ} where
  Rearranges-refl : (n : ℕ) (base : ℕ → A) → Rearranges n base base
  Rearranges-refl n base = (λ k. k, λ k. k, λ k. refl, λ k. refl, λ k h. refl, λ k. refl)

  Rearranges-trans :
      (n : ℕ) (f g h : ℕ → A) → Rearranges n f g → Rearranges n g h → Rearranges n f h
  Rearranges-trans n f g h (from, to, l, r, out, eq) (from', to', l', r', out', eq') = (
    λ k. from (from' k),
    λ k. to' (to k),
    λ k. ap from (l' (to k)) ∙ l k,
    λ k. ap to' (r (from' k)) ∙ r' k,
    λ k b. ap from (out' k b) ∙ out k b,
    λ k. eq' k ∙ eq (from' k),
  )

  memswap-exchange : (base : ℕ → A) (i j k : ℕ) → memswap base i j k ≡ base (exchange i j k)
  unfolding exchange
  memswap-exchange base i j k = elim (ℕ_discrete k i) [
    | yes e ↦ memswap_first base i j k e ∙ ap base (sym (memswap_first (λ x. x) i j k e))
    | no ni ↦ elim (ℕ_discrete k j) [
      | yes e ↦ memswap_second base i j k e ni ∙ ap base (sym (memswap_second (λ x. x) i j k e ni))
      | no nj ↦ memswap_other base i j k ni nj ∙ ap base (sym (memswap_other (λ x. x) i j k ni nj))
    ]
  ]

  memswap-Rearranges :
      (n i j : ℕ) (base : ℕ → A) → i < n → j < n → Rearranges n base (memswap base i j)
  unfolding exchange
  memswap-Rearranges n i j base a b = (
    exchange i j,
    exchange i j,
    exchange_twice i j,
    exchange_twice i j,
    λ k c. ground arith,
    memswap-exchange base i j,
  )

  module _ (less : A → A → Bool) where
    up_loop-Rearranges :
        (fuel n i : ℕ) (base : ℕ → A) → i < n → Rearranges n base (up_loop less fuel i base).0
    unfolding up_loop
    up_loop-Rearranges zero n i base b = Rearranges-refl n base
    up_loop-Rearranges (suc fuel) n zero base b = Rearranges-refl n base
    up_loop-Rearranges (suc fuel) n (suc i) base b =
        elim (Bool-cases (less (base (suc i)) (base (parent (suc i))))) [
          | inl l ↦
              let next = memswap base (suc i) (parent (suc i)) in
              subst (λ t. Rearranges n base t.0) (sym (up_loop-true less fuel i base l))
                (Rearranges-trans n base next _
                  (memswap-Rearranges n (suc i) (parent (suc i)) base b (omega arith))
                  (up_loop-Rearranges fuel n (parent (suc i)) next (omega arith)))
          | inr l ↦
              subst (λ t. Rearranges n base t.0) (sym (up_loop-false less fuel i base l))
                (Rearranges-refl n base)
        ]

    -- The element stands where the loop says.
    up_loop-position :
        (fuel i : ℕ) (base : ℕ → A)
        → (up_loop less fuel i base).0 (up_loop less fuel i base).1 ≡ base i
    unfolding up_loop
    up_loop-position zero i base = refl
    up_loop-position (suc fuel) zero base = refl
    up_loop-position (suc fuel) (suc i) base =
        elim (Bool-cases (less (base (suc i)) (base (parent (suc i))))) [
          | inl l ↦
              ap (λ t. t.0 t.1) (up_loop-true less fuel i base l)
              ∙ up_loop-position fuel (parent (suc i)) (memswap base (suc i) (parent (suc i)))
              ∙ memswap_second base (suc i) (parent (suc i)) (parent (suc i)) refl
                  (λ z. absurd (omega arith))
          | inr l ↦ ap (λ t. t.0 t.1) (up_loop-false less fuel i base l)
        ]

    down_loop-Rearranges :
        (fuel n i : ℕ) (base : ℕ → A) → i < n → Rearranges n base (down_loop less fuel n i base)
    unfolding down_loop
    down_loop-Rearranges zero n i base b = Rearranges-refl n base
    down_loop-Rearranges (suc fuel) n i base b = elim (Option-cases (swap_child less n i base)) [
      | inl stop ↦
          subst (Rearranges n base) (sym (down_loop-none less fuel n i base b stop))
            (Rearranges-refl n base)
      | inr (c, next) ↦
          let inside = swap_child-inside less n i c base next in
          subst (Rearranges n base) (sym (down_loop-some less fuel n i c base b next)) (
            Rearranges-trans n base (memswap base c i) _ (memswap-Rearranges n c i base inside b)
              (down_loop-Rearranges fuel n c (memswap base c i) inside))
    ]

    heap_add-Rearranges :
        (elem : A) (n : ℕ) (base : ℕ → A)
        → Rearranges (n + 1) (store base n elem) (heap_add less elem n base).0
          × ((heap_add less elem n base).0 (heap_add less elem n base).1 ≡ elem)
    unfolding heap_add heap_up
    heap_add-Rearranges elem n base =
        let stored : store base n elem n ≡ elem = ground arith in
        (
          up_loop-Rearranges n (n + 1) n (store base n elem) (omega arith),
          up_loop-position n n (store base n elem) ∙ stored,
        )

    heapify_loop-Rearranges :
        (rounds i n : ℕ) (base : ℕ → A)
        → i + rounds ≤ n
        → n < 2 ^ 31
        → (cells : ℕ → A) × (heapify_loop less rounds i base ≡ done cells) × Rearranges n base cells
    unfolding heapify_loop heap_up
    heapify_loop-Rearranges zero i n base h l = (base, refl, Rearranges-refl n base)
    heapify_loop-Rearranges (suc rounds) i n base h l =
        let fits : ltb (i + 1) (2 ^ 31) ≡ true = ground (arith, h, l) in
        let (cells, run, same) =
          heapify_loop-Rearranges rounds (i + 1) n (up_loop less i i base).0 (omega arith) l in
        (
          cells,
          rw fits run,
          Rearranges-trans n base (up_loop less i i base).0 cells
              (up_loop-Rearranges i n i base (omega arith)) same,
        )

    heapify-Rearranges :
        (n : ℕ) (base : ℕ → A)
        → n < 2 ^ 31
        → (cells : ℕ → A) × (heapify less n base ≡ done cells) × Rearranges n base cells
    unfolding heapify
    heapify-Rearranges n base l = heapify_loop-Rearranges n 0 n base (omega arith) l

    heap_pop-Rearranges :
        (n : ℕ) (base : ℕ → A)
        → Rearranges (suc n) (store base 0 (base (suc n))) (heap_pop less (suc (suc n)) base).0
          × ((heap_pop less (suc (suc n)) base).1 ≡ some (base 0))
    unfolding heap_pop heap_down
    heap_pop-Rearranges n base =
        (down_loop-Rearranges (suc n) (suc n) 0 (store base 0 (base (suc n))) (omega arith), refl)

    -- `heap_add` rearranges the cells with the new element in cell `n`, and returns the place of the
    -- element. `heapify` of fewer than 2^31 cells returns and rearranges the array. `heap_pop` of `n + 2`
    -- cells rearranges the first `n + 1`, with the last element in place of the first, which is copied out.
    pub heap_add-heap_pop-Rearranges :
        (elem : A) (n m : ℕ) (base array : ℕ → A)
        → m < 2 ^ 31
        → Rearranges (n + 1) (store base n elem) (heap_add less elem n base).0
          × ((heap_add less elem n base).0 (heap_add less elem n base).1 ≡ elem)
          × ((cells : ℕ → A) × (heapify less m array ≡ done cells) × Rearranges m array cells)
          × Rearranges (suc n) (store base 0 (base (suc n))) (heap_pop less (suc (suc n)) base).0
          × ((heap_pop less (suc (suc n)) base).1 ≡ some (base 0))
    heap_add-heap_pop-Rearranges elem n m base array l =
        let (added, place) = heap_add-Rearranges elem n base in
        let (popped, first) = heap_pop-Rearranges n base in
        (added, place, heapify-Rearranges m array l, popped, first)
