-- ===== src/Linked/Examples.antt =====
-- The lists of include/hlibc/list.h at concrete nodes.
use mathlib.Core.Path.{◌≡◌, refl}
use hlibc.Base.{ℕ, [], ◌∷◌, Option, none, some, arith}
use hlibc.Linked.{
  Store, add_between, rm_between, list_node_init, list_add, list_add_tail, list_rm, list_move,
  list_replace, list_swap, visit, list_for_each,
}
use hlibc.Linked.Ring.{IsRing}
use hlibc.Linked.Laws.{list_add-list_add_tail, list_rm-IsRing, list_for_each-IsRing}
use hlibc.Linked.Hash.{HlistStore, hlist_add_head, hlist_add_prev, hlist_add_next}

-- The head 0 with the nodes 1, 2 and 3.
abbrev empty : Store
empty = record { next = λ x. x; prev = λ x. x }

three_nodes : Store
three_nodes = list_add_tail (list_add_tail (list_add (list_node_init empty 0) 1 0) 2 0) 3 0

three-IsRing : IsRing three_nodes (0 ∷ 1 ∷ 2 ∷ 3 ∷ [])
unfolding three_nodes list_add list_add_tail add_between list_node_init
three-IsRing = (
  ((refl, refl), ((refl, refl), ((refl, refl), (refl, refl)))),
  ((refl, (refl, (refl, tt))), ((refl, (refl, tt)), ((refl, tt), (tt, tt)))),
)

list_add-list_add_tail_example :
    IsRing (list_add three_nodes 7 2) (0 ∷ 1 ∷ 2 ∷ 7 ∷ 3 ∷ [])
    × IsRing (list_add_tail three_nodes 7 2) (0 ∷ 1 ∷ 7 ∷ 2 ∷ 3 ∷ [])
list_add-list_add_tail_example =
    list_add-list_add_tail three_nodes 7 2 (0 ∷ 1 ∷ []) (3 ∷ []) (refl, (refl, (refl, (refl, tt))))
      three-IsRing

list_rm-IsRing_example : IsRing (list_rm three_nodes 2) (0 ∷ 1 ∷ 3 ∷ [])
list_rm-IsRing_example = list_rm-IsRing three_nodes 1 2 (0 ∷ []) (3 ∷ []) three-IsRing

list_for_each-IsRing_example : list_for_each 4 three_nodes 0 ≡ 1 ∷ 2 ∷ 3 ∷ []
list_for_each-IsRing_example =
    list_for_each-IsRing three_nodes 0 (1 ∷ 2 ∷ 3 ∷ []) 4 three-IsRing (omega arith)

moved : list_for_each 9 (list_move three_nodes 3 0) 0 ≡ 3 ∷ 1 ∷ 2 ∷ []
unfolding three_nodes list_for_each visit list_move list_rm rm_between list_add list_add_tail
    add_between list_node_init
moved = refl

swapped : list_for_each 9 (list_swap three_nodes 1 3) 0 ≡ 3 ∷ 2 ∷ 1 ∷ []
unfolding three_nodes list_for_each visit list_swap list_replace list_rm rm_between list_add
    list_add_tail add_between list_node_init
swapped = refl

-- Neighbours in the other order: the swap of 2 with 1 leaves 1 out of the list.
swapped_back : list_for_each 9 (list_swap three_nodes 2 1) 0 ≡ 2 ∷ 3 ∷ []
unfolding three_nodes list_for_each visit list_swap list_replace list_rm rm_between list_add
    list_add_tail add_between list_node_init
swapped_back = refl

-- The head 0 of a list with no node, and the nodes 1 and 2.
abbrev no_nodes : HlistStore
no_nodes = record { first = λ x. none; next = λ x. none; pprev = λ x. none }

two_nodes : HlistStore
two_nodes = hlist_add_next (hlist_add_head no_nodes 1 0) 2 1

-- What `hlist_add_prev` puts before node 1: node 1 is left out, since `next` of the new node is its next.
abbrev next_after : Option HlistStore → Option ℕ
next_after none = none
next_after (some s) = s.next 7

skipped : next_after (hlist_add_prev two_nodes 7 1) ≡ some 2
unfolding two_nodes hlist_add_prev hlist_add_next hlist_add_head
skipped = refl
