-- ===== src/Rbtree.antt =====
-- hlibc/rbtree.c and include/hlibc/rbtree.h: nodes on an explicit store, where 0 is the null pointer. Each
-- loop runs for `fuel` rounds at most. Reading through the null pointer is `fault`.
pub mod Shape
pub mod Walk
pub mod Mirror
pub mod Insert
pub mod Rotate
mod Examples
use hlibc.Base.{
  ℕ, zero, suc, Bool, true, false, not, ◌&&◌, Outcome, done, fault, ◌>>=◌, ◌==◌, if◌then◌else◌,
}
use hlibc.Linked.{put}

-- `rb_color_t`, a `bool`.
pub data RbColor : Type 0 where
  rb_red rb_black : RbColor

abbrev pub is_black : RbColor → Bool
is_black rb_black = true
is_black rb_red = false

-- The fields of each node.
pub record RbStore : Type 0 where
  pub left : ℕ → ℕ
  pub right : ℕ → ℕ
  pub parent : ℕ → ℕ
  pub color : ℕ → RbColor

-- `while (node->side) node = node->side;`.
unfoldable pub descend : ℕ → (ℕ → ℕ) → ℕ → ℕ
descend zero side node = node
descend (suc fuel) side node =
    let rest = descend fuel side (side node) in if not (side node == 0) then rest else node

-- Up as long as the node is at that side of its parent; the parent of the last one.
unfoldable pub climb : ℕ → (ℕ → ℕ) → (ℕ → ℕ) → ℕ → ℕ
climb zero parent side node = parent node
climb (suc fuel) parent side node =
    let up = parent node in
    let rest = climb fuel parent side up in if not (up == 0) && side up == node then rest else up

unfoldable pub rb_first : ℕ → RbStore → ℕ → ℕ
rb_first fuel s root = if root == 0 then 0 else descend fuel s.left root

unfoldable pub rb_last : ℕ → RbStore → ℕ → ℕ
rb_last fuel s root = if root == 0 then 0 else descend fuel s.right root

unfoldable pub rb_next : ℕ → RbStore → ℕ → ℕ
rb_next fuel s node =
    if node == 0
    then 0
    else if not (s.right node == 0)
    then descend fuel s.left (s.right node)
    else climb fuel s.parent s.right node

unfoldable pub rb_prev : ℕ → RbStore → ℕ → ℕ
rb_prev fuel s node =
    if node == 0
    then 0
    else if not (s.left node == 0)
    then descend fuel s.right (s.left node)
    else climb fuel s.parent s.left node

unfoldable pub rb_sibling : RbStore → ℕ → ℕ
rb_sibling s node =
    if s.left (s.parent node) == node then s.left (s.parent node) else s.right (s.parent node)

unfoldable pub rb_rotate : RbStore → ℕ → ℕ → RbStore
rb_rotate s root pivot =
    let parent = put (put s.parent pivot (s.parent root)) root pivot in
    if s.left root == pivot
    then record s {
      parent = parent;
      left = put s.left root (s.right pivot);
      right = put s.right pivot root;
    }
    else record s {
      parent = parent;
      right = put s.right root (s.left pivot);
      left = put s.left pivot root;
    }

abbrev pub paint : (ℕ → RbColor) → ℕ → RbColor → ℕ → RbColor
paint color node c x = if x == node then c else color x

abbrev pub set_color : RbStore → ℕ → RbColor → RbStore
set_color s node c = record s { color = paint s.color node c }

-- The four assignments before the test of the root.
abbrev pub clear_node : RbStore → ℕ → RbStore
clear_node s node = record {
  left = put s.left node 0;
  right = put s.right node 0;
  parent = put s.parent node 0;
  color = paint s.color node rb_red;
}

-- The loop that looks for the parent: the last node before the null pointer.
unfoldable pub search_parent : ℕ → RbStore → (ℕ → ℕ → Bool) → ℕ → ℕ → ℕ → Outcome ℕ
search_parent zero s less node parent it = fault
search_parent (suc fuel) s less node parent it =
    let rest = search_parent fuel s less node it (if less node it then s.left it else s.right it) in
    if it == 0 then done parent else rest

-- The last branch of the loop below, with one rotation or two.
unfoldable pub rotate_up : RbStore → ℕ → ℕ → ℕ → RbStore
rotate_up s node parent grandparent =
    let inner =
      if s.left grandparent == parent then s.right parent == node else s.left parent == node in
    let s1 = if inner then rb_rotate s parent node else s in
    let up = if inner then s1.parent parent else parent in
    set_color (set_color (rb_rotate s1 grandparent up) grandparent rb_red) up rb_black

-- `while (true)`: the root and the nodes in the end.
unfoldable pub rebalance : ℕ → RbStore → ℕ → ℕ → ℕ → Outcome (ℕ × RbStore)
rebalance zero s root node parent = fault
rebalance (suc fuel) s root node parent =
    let grandparent = s.parent parent in
    let uncle = rb_sibling s parent in
    let again =
      rebalance fuel
        (set_color (set_color (set_color s uncle rb_black) parent rb_black) grandparent rb_red) root
        grandparent parent in
    if parent == 0
    then done (node, s)
    else if is_black (s.color parent)
    then done (root, s)
    else if grandparent == 0
    then done (root, set_color s parent rb_black)
    else if uncle == 0
    then fault
    else if not (is_black (s.color uncle))
    then again
    else done (root, rotate_up s node parent grandparent)

unfoldable pub rb_insert : ℕ → RbStore → ℕ → ℕ → (ℕ → ℕ → Bool) → Outcome (ℕ × RbStore)
rb_insert fuel s root node less =
    let s1 = clear_node s node in
    if root == 0
    then done (node, s1)
    else search_parent fuel s1 less node 0 root >>= λ parent. rebalance fuel s1 root node parent
