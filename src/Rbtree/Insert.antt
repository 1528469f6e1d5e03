-- ===== src/Rbtree/Insert.antt =====
-- hlibc/rbtree.c: `rb_insert` on a tree.
use hlibc.Base.{
  ℕ, zero, suc, ◌+◌, ◌<◌, ◌≡◌, refl, sym, ap, ◌∙◌, Bool, true, false, Outcome, done, ◌⊎◌, inl, inr,
  Bool-cases, ◌==◌, arith,
}
use hlibc.Linked.{put}
use hlibc.Rbtree.{
  RbStore, rb_red, rb_black, is_black, set_color, clear_node, rb_sibling, search_parent, rebalance,
  rb_insert, rb_first,
}
use hlibc.Rbtree.Shape.{Tree, leaf, fork, root_of, inorder, size, IsTree}
use hlibc.Rbtree.Walk.{visited, rb_next-rb_first}

-- All pointers are the same.
abbrev SameLinks : RbStore → RbStore → Type 0
SameLinks s s1 = (s1.left ≡ s.left) × (s1.right ≡ s.right) × (s1.parent ≡ s.parent)

-- The node hangs below its parent, or is the root.
abbrev Hangs : RbStore → ℕ → Type 0
Hangs s x =
    ((x == 0) ≡ false)
    × ((s.parent x ≡ 0)
        ⊎ (((s.parent x == 0) ≡ false)
            × ((x == s.parent x) ≡ false)
            × ((s.left (s.parent x) ≡ x) ⊎ (s.right (s.parent x) ≡ x))))

rb_sibling-Hangs :
    (s : RbStore) (x : ℕ)
    → (s.left (s.parent x) ≡ x) ⊎ (s.right (s.parent x) ≡ x)
    → rb_sibling s x ≡ x
unfolding rb_sibling
rb_sibling-Hangs s x (inl l) =
    let same : (s.left (s.parent x) == x) ≡ true = ground (arith, l) in rw same l
rb_sibling-Hangs s x (inr r) = elim (Bool-cases (s.left (s.parent x) == x)) [
  | inl h ↦ (let l : s.left (s.parent x) ≡ x = ground (arith, h) in rw h l)
  | inr h ↦ rw h r
]

-- What is left of the loop keeps the pointers and the root.
abbrev Keeps : RbStore → ℕ → Outcome (ℕ × RbStore) → Type 0
Keeps s root o = (s1 : RbStore) × (o ≡ done (root, s1)) × SameLinks s s1

rebalance-Keeps :
    (fuel : ℕ) (s : RbStore) (root node parent : ℕ)
    → Hangs s parent
    → Keeps s root (rebalance (suc (suc fuel)) s root node parent)
unfolding rebalance
rebalance-Keeps fuel s root node parent (n, hangs) = elim (Bool-cases (is_black (s.color parent))) [
  | inl c ↦ (s, rw n rw c refl, (refl, refl, refl))
  | inr c ↦ elim hangs [
    | inl q ↦ (set_color s parent rb_black, rw n rw c rw q refl, (refl, refl, refl))
    | inr (g, d, side) ↦
        (let same = rb_sibling-Hangs s parent side in
          let here : (parent == parent) ≡ true = ground arith in
          let s1 =
            set_color (set_color (set_color s parent rb_black) parent rb_black) (s.parent parent)
              rb_red in
          (s1, rw n rw c rw g rw same rw n rw c rw d rw here refl, (refl, refl, refl)))
  ]
]

-- The node is none of the tree.
abbrev pub Outside : ℕ → Tree → Type 0
Outside node leaf = Unit
Outside node (fork l x r) = ((x == node) ≡ false) × Outside node l × Outside node r

root_of-Outside :
    (f : ℕ → ℕ) (node v x : ℕ) (t : Tree)
    → (x == node) ≡ false
    → f x ≡ root_of t
    → put f node v x ≡ root_of t
root_of-Outside f node v x t o q = rw o q

clear_node-IsTree :
    (s : RbStore) (node p : ℕ) (t : Tree)
    → Outside node t
    → IsTree s p t
    → IsTree (clear_node s node) p t
clear_node-IsTree s node p leaf o k = tt
clear_node-IsTree s node p (fork l x r) (o, ol, or) (n, q, a, b, d, kl, kr) = (
  n,
  rw o q,
  rw o a,
  rw o b,
  d,
  clear_node-IsTree s node x l ol kl,
  clear_node-IsTree s node x r or kr,
)

links-IsTree : (s s1 : RbStore) (p : ℕ) (t : Tree) → SameLinks s s1 → IsTree s p t → IsTree s1 p t
links-IsTree s s1 p leaf same k = tt
links-IsTree s s1 p (fork l x r) (e, f, g) (n, q, a, b, d, kl, kr) = (
  n,
  ap (λ h. h x) g ∙ q,
  ap (λ h. h x) e ∙ a,
  ap (λ h. h x) f ∙ b,
  d,
  links-IsTree s s1 x l (e, f, g) kl,
  links-IsTree s s1 x r (e, f, g) kr,
)

-- A node of a tree is not its own child.
module _ (s : RbStore) (x : ℕ) (n : (x == 0) ≡ false) where
  left-other : (p : ℕ) (t : Tree) → IsTree s p t → s.left x ≡ x → (root_of t == x) ≡ false
  left-other p leaf k e = ground (arith, n)
  left-other p (fork l y r) (m, q, a, b, d, kl, kr) e =
      let below = left-other y l kl e in
      elim (Bool-cases (y == x)) [ inr h ↦ h | inl h ↦ absurd (ground (arith, h, a, e, below)) ]

  right-other : (p : ℕ) (t : Tree) → IsTree s p t → s.right x ≡ x → (root_of t == x) ≡ false
  right-other p leaf k e = ground (arith, n)
  right-other p (fork l y r) (m, q, a, b, d, kl, kr) e =
      let below = right-other y r kr e in
      elim (Bool-cases (y == x)) [ inr h ↦ h | inl h ↦ absurd (ground (arith, h, b, e, below)) ]

-- A subtree hangs below `p`.
abbrev Below : RbStore → ℕ → Tree → Type 0
Below s p t = (p ≡ 0) ⊎ (((p == 0) ≡ false) × ((s.left p ≡ root_of t) ⊎ (s.right p ≡ root_of t)))

eq_of_test : (x p : ℕ) → (x == p) ≡ true → p ≡ x
eq_of_test x p h = ground (arith, h)

differs_not : (x : ℕ) → (x == x) ≡ false → ⊥
differs_not x h = ground (arith, h)

other_parent :
    (s : RbStore) (p x : ℕ) (l r : Tree)
    → IsTree s p (fork l x r)
    → (s.left p ≡ x) ⊎ (s.right p ≡ x)
    → (x == p) ≡ false
other_parent s p x l r k side = elim (Bool-cases (x == p)) [
  | inr h ↦ h
  | inl h ↦
      (let same = eq_of_test x p h in
        elim side [
          | inl e ↦
              absurd
                (differs_not x (left-other s x k.0 p (fork l x r) k (ap s.left (sym same) ∙ e)))
          | inr e ↦
              absurd
                (differs_not x (right-other s x k.0 p (fork l x r) k (ap s.right (sym same) ∙ e)))
        ])
]

Below-Hangs :
    (s : RbStore) (p x : ℕ) (l r : Tree)
    → IsTree s p (fork l x r)
    → Below s p (fork l x r)
    → Hangs s x
Below-Hangs s p x l r k (inl z) = (k.0, inl (k.1 ∙ z))
Below-Hangs s p x l r k (inr (z, side)) =
    let other = other_parent s p x l r k side in (k.0, inr (rw k.1 z, rw k.1 other, rw k.1 side))

-- Where the search is, `p` is a node of the tree if nothing is left of it.
abbrev Reached : RbStore → ℕ → Tree → Type 0
Reached s p leaf = Hangs s p
Reached s p (fork l x r) = Unit

child-Reached : (s : RbStore) (x : ℕ) (t : Tree) → Hangs s x → Reached s x t
child-Reached s x leaf h = h
child-Reached s x (fork l y r) h = tt

-- The search ends at a node of the tree.
search_parent-Hangs :
    (fuel : ℕ) (s : RbStore) (less : ℕ → ℕ → Bool) (node p : ℕ) (t : Tree)
    → IsTree s p t
    → Below s p t
    → Reached s p t
    → size t < fuel
    → (x : ℕ) × (search_parent fuel s less node p (root_of t) ≡ done x) × Hangs s x
unfolding search_parent
search_parent-Hangs zero s less node p t k b h l = absurd (omega arith)
search_parent-Hangs (suc fuel) s less node p leaf k b h l = (p, refl, h)
search_parent-Hangs (suc fuel) s less node p (fork l x r) (n, q, a, b, d, kl, kr) below h small =
    let hangs = Below-Hangs s p x l r (n, q, a, b, d, kl, kr) below in
    elim (Bool-cases (less node x)) [
      | inl f ↦
          (let (y, e, z) =
              search_parent-Hangs fuel s less node x l kl (inr (n, inl a))
                (child-Reached s x l hangs) (omega arith) in
            (y, rw n rw f rw a e, z))
      | inr f ↦
          (let (y, e, z) =
              search_parent-Hangs fuel s less node x r kr (inr (n, inr b))
                (child-Reached s x r hangs) (omega arith) in
            (y, rw n rw f rw b e, z))
    ]

-- A node that is inserted into a tree with nodes in it is not in the tree: the root stays, the pointers of
-- all nodes are what they were, and a walk from the first node on comes past the old nodes alone.
pub rb_insert-IsTree :
    (fuel : ℕ) (s : RbStore) (less : ℕ → ℕ → Bool) (node x : ℕ) (l r : Tree)
    → IsTree s 0 (fork l x r)
    → Outside node (fork l x r)
    → size (fork l x r) < fuel
    → (s1 : RbStore) × (rb_insert fuel s x node less ≡ done (x, s1))
      × IsTree s1 0 (fork l x r)
      × (visited fuel (size (fork l x r) + 1) s1 (rb_first fuel s1 x) ≡ inorder (fork l x r))
unfolding rb_insert
rb_insert-IsTree zero s less node x l r k o h = absurd (omega arith)
rb_insert-IsTree (suc zero) s less node x l r k o h = absurd (omega arith)
rb_insert-IsTree (suc (suc fuel)) s less node x l r k o h =
    let t = fork l x r in
    let s0 = clear_node s node in
    let k0 = clear_node-IsTree s node 0 t o k in
    let (p, found, hangs) =
      search_parent-Hangs (suc (suc fuel)) s0 less node 0 t k0 (inl refl) tt h in
    let (s1, end, same) = rebalance-Keeps fuel s0 x node p hangs in
    let k1 = links-IsTree s0 s1 0 t same k0 in
    (s1, rw k.0 rw found end, k1, rb_next-rb_first s1 (suc (suc fuel)) t k1 (omega arith))
