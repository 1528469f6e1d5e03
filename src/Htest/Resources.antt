-- ===== src/Htest/Resources.antt =====
-- htest/htest.c: `htest_destroy`, over the resources of a test.
use mathlib.Core.Path.{subst}
use mathlib.Core.List.{append_assoc, append-nil}
use hlibc.Base.{
  ℕ, zero, suc, ◌≤◌, ◌≡◌, refl, sym, ap, ◌∙◌, true, false, List, [], ◌∷◌, ◌++◌, map, length, ◌==◌,
  if◌then◌else◌, arith,
}
use hlibc.Linked.{Store, list_rm}
use hlibc.Linked.Ring.{IsRing}
use hlibc.Linked.Laws.{list_rm-IsRing}
use hlibc.Htest.{Memory, TestState}

-- `destroy(res->data)`, `list_rm` and `free`.
abbrev pub drop_resource : Memory → ℕ → Memory
drop_resource m node = record m {
  nodes = list_rm m.nodes node;
  destroyed = m.destroyed ++ m.owned node ∷ [];
  freed = m.freed ++ node ∷ [];
}

-- `list_for_each_entry_safe`, with `fuel` rounds at most: `tmp` is read before `pos` is taken off.
unfoldable pub destroy_loop : ℕ → Memory → ℕ → ℕ → ℕ → Memory
destroy_loop zero m pos tmp head = m
destroy_loop (suc fuel) m pos tmp head =
    if pos == head
    then m
    else (let next = drop_resource m pos in destroy_loop fuel next tmp (next.nodes.next tmp) head)

unfoldable pub htest_destroy : ℕ → TestState → TestState
htest_destroy fuel t =
    let m = t.memory in
    let pos = m.nodes.next t.test.resources in
    record t { memory = destroy_loop fuel m pos (m.nodes.next pos) t.test.resources }

-- The resources of `xs` are destroyed and freed once each, in that order, and the list is empty.
abbrev pub Destroyed : ℕ → List ℕ → Memory → Memory → Type 0
Destroyed head xs before done =
    (done.destroyed ≡ before.destroyed ++ map before.owned xs)
    × (done.freed ≡ before.freed ++ xs)
    × IsRing done.nodes (head ∷ [])

-- The node behind the second one is the one behind the head once that is taken off.
next_of_second :
    (s t : Store) (head x : ℕ) (xs : List ℕ)
    → IsRing s (head ∷ x ∷ xs)
    → IsRing t (head ∷ xs)
    → s.next x ≡ t.next head
next_of_second s t head x [] ((l, k), d) ((n, p), e) = k.0 ∙ sym n
next_of_second s t head x (y ∷ xs) ((l, (k, c)), d) ((n, c'), e) = k.0 ∙ sym n.0

module _ (head : ℕ) where
  destroy_loop-IsRing :
      (fuel : ℕ) (m : Memory) (xs : List ℕ) (pos tmp : ℕ)
      → IsRing m.nodes (head ∷ xs)
      → suc (length xs) ≤ fuel
      → pos ≡ m.nodes.next head
      → tmp ≡ m.nodes.next pos
      → Destroyed head xs m (destroy_loop fuel m pos tmp head)
  unfolding destroy_loop
  destroy_loop-IsRing zero m xs pos tmp r l a b = absurd (omega arith)
  destroy_loop-IsRing (suc fuel) m [] pos tmp (c, d) l a b =
      let here : (pos == head) ≡ true = ground (arith, a, c.0) in
      rw here (sym (append-nil m.destroyed), sym (append-nil m.freed), (c, d))
  destroy_loop-IsRing (suc fuel) m (x ∷ xs) pos tmp r l a b =
      let first : x ≡ pos = sym (a ∙ r.0.0.0) in
      let more : (pos == head) ≡ false = ground (arith, first, r.1.0) in
      let m' = drop_resource m pos in
      let r1 : IsRing m.nodes (head ∷ pos ∷ xs) =
        subst (λ z. IsRing m.nodes (head ∷ z ∷ xs)) first r in
      let r' = list_rm-IsRing m.nodes head pos [] xs r1 in
      let (p, q, ring) =
        destroy_loop-IsRing fuel m' xs tmp (m'.nodes.next tmp) r' (omega arith)
          (b ∙ next_of_second m.nodes m'.nodes head pos xs r1 r') refl in
      rw more (
        p
            ∙ append_assoc m.destroyed (m.owned pos ∷ []) (map m.owned xs)
            ∙ ap (λ z. m.destroyed ++ m.owned z ∷ map m.owned xs) (sym first),
        q ∙ append_assoc m.freed (pos ∷ []) xs ∙ ap (λ z. m.freed ++ z ∷ xs) (sym first),
        ring,
      )

-- `htest_destroy` destroys and frees every resource of the test once, from the newest to the oldest as
-- they stand in its list, and leaves the list empty.
pub htest_destroy-Destroyed :
    (fuel : ℕ) (t : TestState) (xs : List ℕ)
    → IsRing t.memory.nodes (t.test.resources ∷ xs)
    → suc (length xs) ≤ fuel
    → Destroyed t.test.resources xs t.memory (htest_destroy fuel t).memory
unfolding htest_destroy
htest_destroy-Destroyed fuel t xs r l =
    destroy_loop-IsRing t.test.resources fuel t.memory xs _ _ r l refl refl
