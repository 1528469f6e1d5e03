-- ===== src/Linked/Laws.antt =====
-- include/hlibc/list.h: what the operations do to a ring.
use mathlib.Core.Path.{subst}
use mathlib.Core.List.{append-nil}
use hlibc.Base.{
  ℕ, zero, suc, ◌≤◌, ◌≡◌, refl, sym, ap, ◌∙◌, true, false, List, [], ◌∷◌, ◌++◌, length, All,
  All-append, ◌==◌, arith,
}
use hlibc.Linked.{
  Store, put, add_between, rm_between, list_add, list_add_tail, list_rm, visit, list_for_each,
}
use hlibc.Linked.Ring.{Link, Chain, NotIn, IsRing, Chain-frame, rotate}

same_node : (x : ℕ) → (x == x) ≡ true
same_node x = ground arith

other : (x y : ℕ) → (x == y) ≡ false → (y == x) ≡ false
other x y h = ground (arith, h)

-- What two assignments leave alone, where no node is one of the two.
put-put :
    (f : ℕ → ℕ) (a b v w : ℕ) (xs : List ℕ)
    → NotIn a xs
    → NotIn b xs
    → All (λ x. put (put f a v) b w x ≡ f x) xs
put-put f a b v w [] n m = tt
put-put f a b v w (x ∷ xs) (n, ns) (m, ms) = (rw (m, n) refl, put-put f a b v w xs ns ms)

pub put_one : (f : ℕ → ℕ) (a v : ℕ) (xs : List ℕ) → NotIn a xs → All (λ x. put f a v x ≡ f x) xs
put_one f a v [] n = tt
put_one f a v (x ∷ xs) (n, ns) = (rw n refl, put_one f a v xs ns)

-- Behind the first node.
add_first :
    (s : Store) (item a : ℕ) (ys : List ℕ)
    → NotIn item (a ∷ ys)
    → IsRing s (a ∷ ys)
    → IsRing (list_add s item a) (a ∷ item ∷ ys)
unfolding list_add add_between
add_first s item a [] (n, ns) (c, d) =
    let m = other a item n in
    (
      (
        (rw (n, same_node a) refl, rw (same_node item) refl),
        (rw (same_node item) c.0, rw (n, c.0, same_node a) refl),
      ),
      ((m, tt), (tt, tt)),
    )
add_first s item a (b ∷ ys) (n, (k, ns)) ((l, c), ((e, es), d)) =
    let next_out : NotIn (s.next a) (a ∷ ys) =
      subst (λ z. NotIn z (a ∷ ys)) (sym l.0) (other b a e, d.0) in
    (
      (
        (rw (n, same_node a) refl, rw (same_node item) refl),
        (
          (rw (same_node item) l.0, rw (k, l.0, same_node b) refl),
          Chain-frame s (list_add s item a) b ys a
              (put-put s.next a item item (s.next a) (b ∷ ys) (e, es) (k, ns))
              (put-put s.prev (s.next a) item item a (a ∷ ys) next_out (n, ns)) c,
        ),
      ),
      ((other a item n, (e, es)), ((k, ns), d)),
    )

-- The second node is taken off.
rm_second :
    (s : Store) (a node : ℕ) (ys : List ℕ)
    → IsRing s (a ∷ node ∷ ys)
    → IsRing (list_rm s node) (a ∷ ys)
unfolding list_rm rm_between
rm_second s a node [] (((h, k), (p, q)), d) =
    ((rw (k, same_node a) p, rw (p, same_node a) k), (tt, tt))
rm_second s a node (b ∷ ys) (((h, k), ((p, q), c)), ((e, (f, es)), (g, d))) =
    let not_prev : NotIn (s.prev node) (b ∷ ys) = subst (λ z. NotIn z (b ∷ ys)) (sym k) (f, es) in
    let not_next : NotIn (s.next node) (a ∷ ys) =
      subst (λ z. NotIn z (a ∷ ys)) (sym p) (other b a f, d.0) in
    (
      (
        (rw (k, same_node a) p, rw (p, same_node b) k),
        Chain-frame s (list_rm s node) b ys a
            (put_one s.next (s.prev node) (s.next node) (b ∷ ys) not_prev)
            (put_one s.prev (s.next node) (s.prev node) (a ∷ ys) not_next) c,
      ),
      ((f, es), d),
    )

NotIn-append : (x : ℕ) (xs ys : List ℕ) → NotIn x (xs ++ ys) → NotIn x (ys ++ xs)
NotIn-append x [] ys h = subst (NotIn x) (sym (append-nil ys)) h
NotIn-append x (a ∷ xs) ys (n, h) =
    All-append (λ y. (y == x) ≡ false) ys (a ∷ xs) (right xs h) (n, left xs h)
  where
    left : (zs : List ℕ) → NotIn x (zs ++ ys) → NotIn x zs
    left [] k = tt
    left (z ∷ zs) (k, ks) = (k, left zs ks)

    right : (zs : List ℕ) → NotIn x (zs ++ ys) → NotIn x ys
    right [] k = k
    right (z ∷ zs) (k, ks) = right zs ks

-- The insertion before a node is one behind the node before it.
add_tail-add : (s : Store) (item a p : ℕ) → Link s p a → list_add_tail s item a ≡ list_add s item p
unfolding list_add list_add_tail
add_tail-add s item a p (n, q) =
    ap (λ z. add_between s item z a) q ∙ ap (add_between s item p) (sym n)

last_node : (y : ℕ) (ys : List ℕ) → (zs : List ℕ) × (p : ℕ) × (y ∷ ys ≡ zs ++ p ∷ [])
last_node y [] = ([], y, refl)
last_node y (x ∷ ys) = let (zs, p, e) = last_node x ys in (y ∷ zs, p, ap (y ∷◌) e)

-- Before the first node, which is at the other end of the ring.
add_before :
    (s : Store) (item a p : ℕ) (zs : List ℕ)
    → NotIn item (p ∷ a ∷ zs)
    → IsRing s (p ∷ a ∷ zs)
    → IsRing (list_add_tail s item a) (item ∷ a ∷ zs ++ p ∷ [])
add_before s item a p zs n r =
    subst (λ t. IsRing t (item ∷ a ∷ zs ++ p ∷ [])) (sym (add_tail-add s item a p r.0.0))
      (rotate (list_add s item p) (p ∷ []) (item ∷ a ∷ zs) (add_first s item p (a ∷ zs) n r))

add_last :
    (s : Store) (item a : ℕ) (ys : List ℕ)
    → NotIn item (a ∷ ys)
    → IsRing s (a ∷ ys)
    → IsRing (list_add_tail s item a) (item ∷ a ∷ ys)
add_last s item a [] n r =
    subst (λ t. IsRing t (item ∷ a ∷ [])) (sym (add_tail-add s item a a r.0))
      (rotate (list_add s item a) (a ∷ []) (item ∷ []) (add_first s item a [] n r))
add_last s item a (y ∷ ys) n r =
    let (zs, p, e) = last_node y ys in
    let whole : a ∷ y ∷ ys ≡ (a ∷ zs) ++ p ∷ [] = ap (a ∷◌) e in
    let n' = NotIn-append item (a ∷ zs) (p ∷ []) (subst (NotIn item) whole n) in
    let r' = rotate s (a ∷ zs) (p ∷ []) (subst (IsRing s) whole r) in
    subst (λ l. IsRing (list_add_tail s item a) (item ∷ l)) (sym whole)
      (add_before s item a p zs n' r')

-- `list_add` puts a node that is not in the ring behind the one given, and `list_add_tail` before it,
-- wherever that one stands.
pub list_add-list_add_tail :
    (s : Store) (item node : ℕ) (xs ys : List ℕ)
    → NotIn item (xs ++ node ∷ ys)
    → IsRing s (xs ++ node ∷ ys)
    → IsRing (list_add s item node) (xs ++ node ∷ item ∷ ys)
      × IsRing (list_add_tail s item node) (xs ++ item ∷ node ∷ ys)
list_add-list_add_tail s item node xs ys n r =
    let r' = rotate s xs (node ∷ ys) r in
    let n' = NotIn-append item xs (node ∷ ys) n in
    (
      rotate (list_add s item node) (node ∷ item ∷ ys) xs (add_first s item node (ys ++ xs) n' r'),
      rotate (list_add_tail s item node) (item ∷ node ∷ ys) xs
          (add_last s item node (ys ++ xs) n' r'),
    )

-- `list_rm` takes a node that is not alone off the ring, wherever it stands.
pub list_rm-IsRing :
    (s : Store) (a node : ℕ) (xs ys : List ℕ)
    → IsRing s (xs ++ a ∷ node ∷ ys)
    → IsRing (list_rm s node) (xs ++ a ∷ ys)
list_rm-IsRing s a node xs ys r =
    rotate (list_rm s node) (a ∷ ys) xs
      (rm_second s a node (ys ++ xs) (rotate s xs (a ∷ node ∷ ys) r))

visit-Chain :
    (s : Store) (a head : ℕ) (ys : List ℕ) (fuel : ℕ)
    → Chain s a ys head
    → NotIn head ys
    → suc (length ys) ≤ fuel
    → visit fuel s (s.next a) head ≡ ys
unfolding visit
visit-Chain s a head ys zero c n l = absurd (omega arith)
visit-Chain s a head [] (suc fuel) c n l = rw (c.0, same_node head) refl
visit-Chain s a head (b ∷ ys) (suc fuel) ((h, k), c) (n, ns) l =
    rw (h, n) (ap (b ∷◌) (visit-Chain s b head ys fuel c ns (omega arith)))

-- `list_for_each` ends, and visits the nodes behind the head once and in order.
pub list_for_each-IsRing :
    (s : Store) (head : ℕ) (xs : List ℕ) (fuel : ℕ)
    → IsRing s (head ∷ xs)
    → suc (length xs) ≤ fuel
    → list_for_each fuel s head ≡ xs
unfolding list_for_each
list_for_each-IsRing s head xs fuel (c, d) l = visit-Chain s head head xs fuel c d.0 l
