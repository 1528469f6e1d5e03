-- ===== src/Rbtree/Mirror.antt =====
-- hlibc/rbtree.c: `rb_last` and `rb_prev`, and the nodes with their sides swapped.
use mathlib.Core.List.{reverse, reverse-append, reverse-cons, append_assoc}
use hlibc.Base.{
  ℕ, zero, suc, ◌+◌, ◌≤◌, ◌≡◌, refl, sym, ap, ap₂, ◌∙◌, List, [], ◌∷◌, ◌++◌, ◌==◌, if◌then◌else◌,
  arith,
}
use hlibc.Rbtree.{RbStore, rb_first, rb_last, rb_next, rb_prev}
use hlibc.Rbtree.Shape.{Tree, leaf, fork, root_of, inorder, size, Siblings, IsTree}
use hlibc.Rbtree.Walk.{visited, rb_next-rb_first}

abbrev mirror : RbStore → RbStore
mirror s = record s { left = s.right; right = s.left }

abbrev flip : Tree → Tree
flip leaf = leaf
flip (fork l x r) = fork (flip r) x (flip l)

-- The nodes from `node` on, at most `n` of them, by `rb_prev`.
abbrev pub visited_back : ℕ → ℕ → RbStore → ℕ → List ℕ
visited_back fuel zero s node = []
visited_back fuel (suc n) s node =
    let rest = visited_back fuel n s (rb_prev fuel s node) in if node == 0 then [] else node ∷ rest

visited-mirror :
    (fuel n : ℕ) (s : RbStore) (node : ℕ)
    → visited_back fuel n s node ≡ visited fuel n (mirror s) node
unfolding rb_prev rb_next
visited-mirror fuel zero s node = refl
visited-mirror fuel (suc n) s node =
    ap (λ rest. if node == 0 then [] else node ∷ rest)
      (visited-mirror fuel n s (rb_prev fuel s node))

root_of-flip : (t : Tree) → root_of (flip t) ≡ root_of t
root_of-flip leaf = refl
root_of-flip (fork l x r) = refl

size-flip : (t : Tree) → size (flip t) ≡ size t
size-flip leaf = refl
size-flip (fork l x r) = omega (arith, size-flip l, size-flip r)

inorder-flip : (t : Tree) → inorder (flip t) ≡ reverse (inorder t)
inorder-flip leaf = refl
inorder-flip (fork l x r) =
    ap₂ (λ a b. a ++ x ∷ b) (inorder-flip r) (inorder-flip l)
    ∙ sym (
        reverse-append (inorder l) (x ∷ inorder r)
        ∙ ap (◌++ reverse (inorder l)) (reverse-cons x (inorder r))
        ∙ append_assoc (reverse (inorder r)) (x ∷ []) (reverse (inorder l)))

Siblings-flip : (l r : Tree) → Siblings l r → Siblings (flip r) (flip l)
Siblings-flip leaf leaf d = tt
Siblings-flip leaf (fork l x r) d = tt
Siblings-flip (fork l x r) leaf d = tt
Siblings-flip (fork l x r) (fork l' y r') d = ground (arith, d)

IsTree-flip : (s : RbStore) (p : ℕ) (t : Tree) → IsTree s p t → IsTree (mirror s) p (flip t)
IsTree-flip s p leaf t = tt
IsTree-flip s p (fork l x r) (n, q, a, b, d, kl, kr) = (
  n,
  q,
  b ∙ sym (root_of-flip r),
  a ∙ sym (root_of-flip l),
  Siblings-flip l r d,
  IsTree-flip s x r kr,
  IsTree-flip s x l kl,
)

rb_first-mirror :
    (fuel : ℕ) (s : RbStore) (root : ℕ) → rb_last fuel s root ≡ rb_first fuel (mirror s) root
unfolding rb_last rb_first
rb_first-mirror fuel s root = refl

-- From `rb_first` on, `rb_next` visits the nodes of a tree once each and in order, and from `rb_last` on,
-- `rb_prev` visits them in the opposite order.
pub rb_next-rb_prev :
    (fuel : ℕ) (s : RbStore) (t : Tree)
    → IsTree s 0 t
    → size t ≤ fuel
    → (visited fuel (size t + 1) s (rb_first fuel s (root_of t)) ≡ inorder t)
      × (visited_back fuel (size t + 1) s (rb_last fuel s (root_of t)) ≡ reverse (inorder t))
rb_next-rb_prev fuel s t k h = (
  rb_next-rb_first s fuel t k h,
  visited-mirror fuel (size t + 1) s (rb_last fuel s (root_of t))
      ∙ ap (visited fuel (size t + 1) (mirror s)) (rb_first-mirror fuel s (root_of t))
      ∙ ap₂ (λ n x. visited fuel (n + 1) (mirror s) (rb_first fuel (mirror s) x))
          (sym (size-flip t)) (sym (root_of-flip t))
      ∙ rb_next-rb_first (mirror s) fuel (flip t) (IsTree-flip s 0 t k) (omega (arith, size-flip t))
      ∙ inorder-flip t,
)
