-- ===== src/Rbtree/Shape.antt =====
-- Trees, as an abstract view of the nodes of hlibc/rbtree.c.
use hlibc.Base.{ℕ, ◌+◌, ◌≡◌, false, List, [], ◌∷◌, ◌++◌, ◌==◌}
use hlibc.Rbtree.{RbStore}

pub data Tree : Type 0 where
  leaf : Tree
  fork : Tree → ℕ → Tree → Tree

abbrev pub root_of : Tree → ℕ
root_of leaf = 0
root_of (fork l x r) = x

abbrev pub inorder : Tree → List ℕ
inorder leaf = []
inorder (fork l x r) = inorder l ++ x ∷ inorder r

abbrev pub size : Tree → ℕ
size leaf = 0
size (fork l x r) = size l + (size r + 1)

-- Two children of a node are two nodes.
abbrev pub Siblings : Tree → Tree → Type 0
Siblings leaf r = Unit
Siblings (fork l x r) leaf = Unit
Siblings (fork l x r) (fork l' y r') = (y == x) ≡ false

-- The nodes are those of the tree, below the parent `p`.
abbrev pub IsTree : RbStore → ℕ → Tree → Type 0
IsTree s p leaf = Unit
IsTree s p (fork l x r) =
    ((x == 0) ≡ false)
    × (s.parent x ≡ p)
    × (s.left x ≡ root_of l)
    × (s.right x ≡ root_of r)
    × Siblings l r
    × IsTree s x l
    × IsTree s x r

-- The way from a subtree up to the root: the parents, and at which side of each the subtree is.
pub data Step : Type 0 where
  left_of right_of : ℕ → Step

abbrev pub top : List Step → ℕ
top [] = 0
top (left_of y ∷ c) = y
top (right_of y ∷ c) = y

-- The parents of the node `x`, up to the root.
abbrev pub IsContext : RbStore → ℕ → List Step → Type 0
IsContext s x [] = Unit
IsContext s x (left_of y ∷ c) =
    ((y == 0) ≡ false)
    × (s.parent y ≡ top c)
    × (s.left y ≡ x)
    × ((s.right y == x) ≡ false)
    × IsContext s y c
IsContext s x (right_of y ∷ c) =
    ((y == 0) ≡ false) × (s.parent y ≡ top c) × (s.right y ≡ x) × IsContext s y c

abbrev pub InContext : RbStore → Tree → List Step → Type 0
InContext s leaf c = Unit
InContext s (fork l x r) c = IsContext s x c

-- The node that follows a subtree in the order of the tree, and the first one of a subtree.
abbrev pub follower : List Step → ℕ
follower [] = 0
follower (left_of y ∷ c) = y
follower (right_of y ∷ c) = follower c

abbrev pub start : Tree → List Step → ℕ
start leaf c = follower c
start (fork l x r) c = start l (left_of x ∷ c)
