-- ===== src/Rbtree/Examples.antt =====
-- The trees of hlibc/rbtree.c at concrete nodes.
use mathlib.Core.Path.{◌≡◌, refl}
use hlibc.Base.{ℕ, ltb, [], ◌∷◌, done, ◌==◌, if◌then◌else◌, get_or, arith}
use hlibc.Rbtree.{RbStore, RbColor, rb_red, rb_black, rb_first, rb_last, rb_insert, rb_rotate}
use hlibc.Rbtree.Shape.{Tree, leaf, fork, inorder, IsTree}
use hlibc.Rbtree.Walk.{visited}
use hlibc.Rbtree.Mirror.{visited_back, rb_next-rb_prev}
use hlibc.Rbtree.Insert.{rb_insert-IsTree}
use hlibc.Rbtree.Rotate.{Down, to_left, rb_rotate-Rotation}

-- The node 2 with 1 to its left and 3, 4 in a line to its right.
abbrev four : Tree
four = fork (fork leaf 1 leaf) 2 (fork leaf 3 (fork leaf 4 leaf))

abbrev four_left : ℕ → ℕ
four_left x = get_or (0 ∷ 0 ∷ 1 ∷ []) x 0

abbrev four_right : ℕ → ℕ
four_right x = get_or (0 ∷ 0 ∷ 3 ∷ 4 ∷ []) x 0

abbrev four_parent : ℕ → ℕ
four_parent x = get_or (0 ∷ 2 ∷ 0 ∷ 2 ∷ 3 ∷ []) x 0

abbrev four_color : ℕ → RbColor
four_color x = if x == 4 then rb_red else rb_black

abbrev nodes : RbStore
nodes = record { left = four_left; right = four_right; parent = four_parent; color = four_color }

nodes-IsTree : IsTree nodes 0 four
nodes-IsTree = (
  refl,
  refl,
  refl,
  refl,
  refl,
  (refl, refl, refl, refl, tt, tt, tt),
  (refl, refl, refl, refl, tt, tt, (refl, refl, refl, refl, tt, tt, tt)),
)

rb_next-rb_prev_example :
    (visited 4 5 nodes (rb_first 4 nodes 2) ≡ 1 ∷ 2 ∷ 3 ∷ 4 ∷ [])
    × (visited_back 4 5 nodes (rb_last 4 nodes 2) ≡ 4 ∷ 3 ∷ 2 ∷ 1 ∷ [])
rb_next-rb_prev_example = rb_next-rb_prev 4 nodes four nodes-IsTree (omega arith)

-- The node 5 would hang below 4, which is red.
rb_insert-IsTree_example :
    (s1 : RbStore) × (rb_insert 5 nodes 2 5 ltb ≡ done (2, s1))
    × IsTree s1 0 four
    × (visited 5 5 s1 (rb_first 5 s1 2) ≡ 1 ∷ 2 ∷ 3 ∷ 4 ∷ [])
rb_insert-IsTree_example =
    rb_insert-IsTree 5 nodes ltb 5 2 (fork leaf 1 leaf) (fork leaf 3 (fork leaf 4 leaf))
      nodes-IsTree (refl, (refl, tt, tt), (refl, tt, (refl, tt, tt))) (omega arith)

rb_rotate-Rotation_example :
    Down (rb_rotate nodes 2 3) (fork (fork (fork leaf 1 leaf) 2 leaf) 3 (fork leaf 4 leaf))
    × (inorder (fork (fork (fork leaf 1 leaf) 2 leaf) 3 (fork leaf 4 leaf)) ≡ inorder four)
    × ((rb_rotate nodes 2 3).parent 2 ≡ 3)
    × ((rb_rotate nodes 2 3).parent 3 ≡ 0)
    × ((rb_rotate nodes 2 3).parent 4 ≡ 3)
rb_rotate-Rotation_example =
    rb_rotate-Rotation nodes 2 3 4 four (fork (fork (fork leaf 1 leaf) 2 leaf) 3 (fork leaf 4 leaf))
      (to_left ((refl, tt, tt), (refl, tt, tt)) (tt, tt) ((refl, tt, tt), (refl, tt, tt))) refl refl
      refl refl (refl, refl, (refl, refl, tt, tt), (refl, refl, tt, (refl, refl, tt, tt)))
