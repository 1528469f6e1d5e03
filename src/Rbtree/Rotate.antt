-- ===== src/Rbtree/Rotate.antt =====
-- hlibc/rbtree.c: `rb_rotate`.
use mathlib.Core.Path.{subst}
use mathlib.Core.List.{append_assoc}
use hlibc.Base.{ℕ, ◌≡◌, refl, sym, ap, ◌∙◌, true, false, ◌∷◌, ◌==◌, inl, inr, Bool-cases, arith}
use hlibc.Linked.{put}
use hlibc.Rbtree.{RbStore, rb_rotate}
use hlibc.Rbtree.Shape.{Tree, leaf, fork, root_of, inorder}
use hlibc.Rbtree.Insert.{Outside}

-- The nodes are those of the tree as the pointers to the children say.
abbrev pub Down : RbStore → Tree → Type 0
Down s leaf = Unit
Down s (fork l x r) = (s.left x ≡ root_of l) × (s.right x ≡ root_of r) × Down s l × Down s r

-- Assignments to two nodes outside a tree.
Down-put :
    (s : RbStore) (x y v w : ℕ) (parent : ℕ → ℕ) (t : Tree)
    → Outside x t
    → Outside y t
    → Down s t
    → Down (record s { parent = parent; left = put s.left x v; right = put s.right y w }) t
Down-put s x y v w parent leaf o p k = tt
Down-put s x y v w parent (fork l z r) (o, ol, or) (p, pl, pr) (a, b, kl, kr) =
    (rw o a, rw p b, Down-put s x y v w parent l ol pl kl, Down-put s x y v w parent r or pr kr)

-- `x` and `y` are not nodes of the tree.
abbrev pub Clear : ℕ → ℕ → Tree → Type 0
Clear x y t = Outside x t × Outside y t

root-other : (x y : ℕ) (t : Tree) → (y == 0) ≡ false → Clear x y t → (root_of t == y) ≡ false
root-other x y leaf n o = ground (arith, n)
root-other x y (fork l z r) n (o, p) = p.0

-- The rotation of a tree with the root `x` and its child `y`, to either side.
pub data Rotation : ℕ → ℕ → Tree → Tree → Type 0 where
  to_right :
      {x y : ℕ} {a b c : Tree}
      → Clear x y a
      → Clear x y b
      → Clear x y c
      → Rotation x y (fork (fork a y b) x c) (fork a y (fork b x c))
  to_left :
      {x y : ℕ} {a b c : Tree}
      → Clear x y a
      → Clear x y b
      → Clear x y c
      → Rotation x y (fork a x (fork b y c)) (fork (fork a x b) y c)

same_node : (x : ℕ) → (x == x) ≡ true
same_node x = ground arith

swapped : (x y : ℕ) → (x == y) ≡ false → (y == x) ≡ false
swapped x y d = ground (arith, d)

-- What either branch of `rb_rotate` leaves.
abbrev turned_right : RbStore → ℕ → ℕ → RbStore
turned_right s x y = record s {
  parent = put (put s.parent y (s.parent x)) x y;
  left = put s.left x (s.right y);
  right = put s.right y x;
}

abbrev turned_left : RbStore → ℕ → ℕ → RbStore
turned_left s x y = record s {
  parent = put (put s.parent y (s.parent x)) x y;
  left = put s.left y x;
  right = put s.right x (s.left y);
}

rb_rotate-turned_right :
    (s : RbStore) (x y : ℕ) → (s.left x == y) ≡ true → rb_rotate s x y ≡ turned_right s x y
unfolding rb_rotate
rb_rotate-turned_right s x y h = rw h refl

rb_rotate-turned_left :
    (s : RbStore) (x y : ℕ) → (s.left x == y) ≡ false → rb_rotate s x y ≡ turned_left s x y
unfolding rb_rotate
rb_rotate-turned_left s x y h = rw h refl

Down-to_right :
    (s : RbStore) (x y : ℕ) (a b c : Tree)
    → (x == y) ≡ false
    → Clear x y a
    → Clear x y b
    → Clear x y c
    → Down s (fork (fork a y b) x c)
    → Down (rb_rotate s x y) (fork a y (fork b x c))
Down-to_right s x y a b c d (xa, ya) (xb, yb) (xc, yc) (l, r, (la, rb, ka, kb), kc) =
    let parent = put (put s.parent y (s.parent x)) x y in
    subst (λ z. Down z (fork a y (fork b x c)))
      (sym (rb_rotate-turned_right s x y (ap (◌== y) l ∙ same_node y)))
      (
        rw (swapped x y d) la,
        rw (same_node y) refl,
        Down-put s x y (s.right y) x parent a xa ya ka,
        (
          rw (same_node x) rb,
          rw d r,
          Down-put s x y (s.right y) x parent b xb yb kb,
          Down-put s x y (s.right y) x parent c xc yc kc,
        ),
      )

Down-to_left :
    (s : RbStore) (x y : ℕ) (a b c : Tree)
    → (y == 0) ≡ false
    → (x == y) ≡ false
    → Clear x y a
    → Clear x y b
    → Clear x y c
    → Down s (fork a x (fork b y c))
    → Down (rb_rotate s x y) (fork (fork a x b) y c)
Down-to_left s x y a b c n d (xa, ya) (xb, yb) (xc, yc) (l, r, ka, (lb, rc, kb, kc)) =
    let parent = put (put s.parent y (s.parent x)) x y in
    subst (λ z. Down z (fork (fork a x b) y c))
      (sym (rb_rotate-turned_left s x y (ap (◌== y) l ∙ root-other x y a n (xa, ya))))
      (
        rw (same_node y) refl,
        rw (swapped x y d) rc,
        (
          rw d l,
          rw (same_node x) lb,
          Down-put s y x x (s.left y) parent a ya xa ka,
          Down-put s y x x (s.left y) parent b yb xb kb,
        ),
        Down-put s y x x (s.left y) parent c yc xc kc,
      )

rotate-parents :
    (s : RbStore) (x y z : ℕ)
    → (x == y) ≡ false
    → (z == x) ≡ false
    → (z == y) ≡ false
    → ((rb_rotate s x y).parent x ≡ y)
      × ((rb_rotate s x y).parent y ≡ s.parent x)
      × ((rb_rotate s x y).parent z ≡ s.parent z)
unfolding rb_rotate
rotate-parents s x y z d zx zy = elim (Bool-cases (s.left x == y)) [
  | inl h ↦ rw h (rw (same_node x) refl, rw (swapped x y d) rw (same_node y) refl, rw zx rw zy refl)
  | inr h ↦ rw h (rw (same_node x) refl, rw (swapped x y d) rw (same_node y) refl, rw zx rw zy refl)
]

-- `rb_rotate` of a node and its child, to either side, turns the tree that the pointers to the children
-- make, and keeps its order. The two nodes have their new parents, and every other node has its old one,
-- the root of the subtree that moves included.
pub rb_rotate-Rotation :
    (s : RbStore) (x y z : ℕ) (t u : Tree)
    → Rotation x y t u
    → (y == 0) ≡ false
    → (x == y) ≡ false
    → (z == x) ≡ false
    → (z == y) ≡ false
    → Down s t
    → Down (rb_rotate s x y) u
      × (inorder u ≡ inorder t)
      × ((rb_rotate s x y).parent x ≡ y)
      × ((rb_rotate s x y).parent y ≡ s.parent x)
      × ((rb_rotate s x y).parent z ≡ s.parent z)
rb_rotate-Rotation s x y z t u (to_right {a = a} {b = b} {c = c} p q r) n d zx zy k =
    let (px, py, pz) = rotate-parents s x y z d zx zy in
    (
      Down-to_right s x y a b c d p q r k,
      sym (append_assoc (inorder a) (y ∷ inorder b) (x ∷ inorder c)),
      px,
      py,
      pz,
    )
rb_rotate-Rotation s x y z t u (to_left {a = a} {b = b} {c = c} p q r) n d zx zy k =
    let (px, py, pz) = rotate-parents s x y z d zx zy in
    (
      Down-to_left s x y a b c n d p q r k,
      append_assoc (inorder a) (x ∷ inorder b) (y ∷ inorder c),
      px,
      py,
      pz,
    )
