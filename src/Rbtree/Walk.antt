-- ===== src/Rbtree/Walk.antt =====
-- hlibc/rbtree.c: `rb_first` and `rb_next` over a whole tree.
use hlibc.Base.{
  ℕ, zero, suc, ◌+◌, ◌≤◌, ◌≡◌, refl, sym, ap, ◌∙◌, true, List, [], ◌∷◌, ◌++◌, length, ◌==◌,
  if◌then◌else◌, arith,
}
use mathlib.Core.List.{append_assoc, append-nil}
use hlibc.Rbtree.{RbStore, descend, climb, rb_first, rb_next}
use hlibc.Rbtree.Shape.{
  Tree, leaf, fork, root_of, inorder, size, IsTree, Step, left_of, right_of, top, IsContext,
  InContext, follower, start,
}

-- The nodes from `node` on, at most `n` of them, by `rb_next`.
abbrev pub visited : ℕ → ℕ → RbStore → ℕ → List ℕ
visited fuel zero s node = []
visited fuel (suc n) s node =
    let rest = visited fuel n s (rb_next fuel s node) in if node == 0 then [] else node ∷ rest

module _ (s : RbStore) where
  left-InContext :
      (l r : Tree) (x p : ℕ) (c : List Step)
      → IsTree s (top c) (fork l x r)
      → IsContext s x c
      → InContext s l (left_of x ∷ c)
  left-InContext leaf r x p c t k = tt
  left-InContext (fork l y r') leaf x p c (n, q, a, b, d, kl, kr) k =
      (n, q, a, ground (arith, b, kl.0), k)
  left-InContext (fork l y r') (fork l' z r'') x p c (n, q, a, b, d, kl, kr) k =
      (n, q, a, rw b d, k)

  right-InContext :
      (l r : Tree) (x : ℕ) (c : List Step)
      → IsTree s (top c) (fork l x r)
      → IsContext s x c
      → InContext s r (right_of x ∷ c)
  right-InContext l leaf x c t k = tt
  right-InContext l (fork l' y r') x c (n, q, a, b, d, kl, kr) k = (n, q, b, k)

  descend-start :
      (fuel : ℕ) (l r : Tree) (x p : ℕ) (c : List Step)
      → IsTree s p (fork l x r)
      → size l ≤ fuel
      → descend fuel s.left x ≡ start (fork l x r) c
  unfolding descend
  descend-start zero leaf r x p c t h = refl
  descend-start zero (fork l y r') r x p c t h = absurd (omega arith)
  descend-start (suc fuel) leaf r x p c (n, q, a, b, d, kl, kr) h = rw a refl
  descend-start (suc fuel) (fork l y r') r x p c (n, q, a, b, d, kl, kr) h =
      rw a rw kl.0 (descend-start fuel l r' y x (left_of x ∷ c) kl (omega arith))

  climb-follower :
      (fuel : ℕ) (x : ℕ) (c : List Step)
      → s.parent x ≡ top c
      → IsContext s x c
      → length c ≤ fuel
      → climb fuel s.parent s.right x ≡ follower c
  unfolding climb
  climb-follower zero x [] p k h = p
  climb-follower zero x (y ∷ c) p k h = absurd (omega arith)
  climb-follower (suc fuel) x [] p k h = rw p refl
  climb-follower (suc fuel) x (left_of y ∷ c) p (n, q, l, r, k) h = rw p rw n rw r refl
  climb-follower (suc fuel) x (right_of y ∷ c) p (n, q, r, k) h =
      let same : (s.right y == x) ≡ true = ground (arith, r) in
      rw p rw n rw same (climb-follower fuel y c q k (omega arith))

  -- The successor of a node.
  rb_next-start :
      (fuel : ℕ) (l r : Tree) (x : ℕ) (c : List Step)
      → IsTree s (top c) (fork l x r)
      → IsContext s x c
      → size r + length c ≤ fuel
      → rb_next fuel s x ≡ start r (right_of x ∷ c)
  unfolding rb_next
  rb_next-start fuel l leaf x c (n, q, a, b, d, kl, kr) k h =
      rw n rw b (climb-follower fuel x c q k (omega arith))
  rb_next-start fuel l (fork l' y r') x c (n, q, a, b, d, kl, kr) k h =
      rw n rw b rw kr.0 (descend-start fuel l' r' y x (right_of x ∷ c) kr (omega arith))

  visited-inorder :
      (fuel : ℕ) (t : Tree) (c : List Step) (n : ℕ)
      → IsTree s (top c) t
      → InContext s t c
      → size t + length c ≤ fuel
      → visited fuel (size t + n) s (start t c) ≡ inorder t ++ visited fuel n s (follower c)
  visited-inorder fuel leaf c n t k h = ap (λ z. visited fuel z s (follower c)) (omega arith)
  visited-inorder fuel (fork l x r) c n (o, q, a, b, d, kl, kr) k h =
      let here : IsTree s (top c) (fork l x r) = (o, q, a, b, d, kl, kr) in
      let first =
        visited-inorder fuel l (left_of x ∷ c) (suc (size r + n)) kl
          (left-InContext l r x 0 c here k) (omega arith) in
      let next = rb_next-start fuel l r x c here k (omega arith) in
      let rest =
        visited-inorder fuel r (right_of x ∷ c) n kr (right-InContext l r x c here k)
          (omega arith) in
      let total : size l + (size r + 1) + n ≡ size l + suc (size r + n) = omega arith in
      let second : visited fuel (suc (size r + n)) s x
          ≡ x ∷ inorder r ++ visited fuel n s (follower c) =
        rw o rw next (ap (x ∷◌) rest) in
      ap (λ z. visited fuel z s (start l (left_of x ∷ c))) total
      ∙ first
      ∙ ap (inorder l ++◌) second
      ∙ sym (append_assoc (inorder l) (x ∷ inorder r) (visited fuel n s (follower c)))

  rb_first-start :
      (fuel : ℕ) (t : Tree)
      → IsTree s 0 t
      → size t ≤ fuel
      → rb_first fuel s (root_of t) ≡ start t []
  unfolding rb_first
  rb_first-start fuel leaf t h = refl
  rb_first-start fuel (fork l x r) t h = rw t.0 (descend-start fuel l r x 0 [] t (omega arith))

  -- From `rb_first` on, `rb_next` visits the nodes of a tree once each and in order, and ends there with
  -- the null pointer.
  pub rb_next-rb_first :
      (fuel : ℕ) (t : Tree)
      → IsTree s 0 t
      → size t ≤ fuel
      → visited fuel (size t + 1) s (rb_first fuel s (root_of t)) ≡ inorder t
  unfolding rb_first
  rb_next-rb_first fuel leaf t h = refl
  rb_next-rb_first fuel (fork l x r) t h = rw (rb_first-start fuel (fork l x r) t h) (
      visited-inorder fuel (fork l x r) [] 1 t tt (omega arith) ∙ append-nil (inorder (fork l x r)))
