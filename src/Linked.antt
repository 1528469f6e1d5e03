-- ===== src/Linked.antt =====
-- include/hlibc/list.h: the circular list. A node is a number, its address; the store has the two
-- pointers of every node. Each definition makes the assignments of the source, one after the other.
pub mod Ring
pub mod Laws
pub mod Hash
mod Examples
use hlibc.Base.{ℕ, zero, suc, Bool, true, false, not, List, [], ◌∷◌, ◌==◌, if◌then◌else◌}

pub record Store : Type 0 where
  pub next : ℕ → ℕ
  pub prev : ℕ → ℕ

-- One assignment.
abbrev pub put : (ℕ → ℕ) → ℕ → ℕ → ℕ → ℕ
put f k v x = if x == k then v else f x

abbrev pub set_next : Store → ℕ → ℕ → Store
set_next s k v = record s { next = put s.next k v }

abbrev pub set_prev : Store → ℕ → ℕ → Store
set_prev s k v = record s { prev = put s.prev k v }

unfoldable pub list_node_init : Store → ℕ → Store
list_node_init s node = set_prev (set_next s node node) node node

-- `__list_add`.
unfoldable pub add_between : Store → ℕ → ℕ → ℕ → Store
add_between s item prev next =
    set_prev (set_next (set_prev (set_next s prev item) next item) item next) item prev

-- `__list_rm`.
unfoldable pub rm_between : Store → ℕ → ℕ → Store
rm_between s prev next = set_prev (set_next s prev next) next prev

unfoldable pub list_add : Store → ℕ → ℕ → Store
list_add s item node = add_between s item node (s.next node)

unfoldable pub list_add_tail : Store → ℕ → ℕ → Store
list_add_tail s item node = add_between s item (s.prev node) node

unfoldable pub list_rm : Store → ℕ → Store
list_rm s node = rm_between s (s.prev node) (s.next node)

unfoldable pub list_move : Store → ℕ → ℕ → Store
list_move s item node = list_add (list_rm s item) item node

unfoldable pub list_move_tail : Store → ℕ → ℕ → Store
list_move_tail s item node = list_add_tail (list_rm s item) item node

unfoldable pub list_replace : Store → ℕ → ℕ → Store
list_replace s old item =
    let s1 : Store = set_next s item (s.next old) in
    let s2 : Store = set_prev s1 item (s1.prev old) in
    let s3 : Store = set_next s2 (s2.prev item) item in set_prev s3 (s3.next item) item

unfoldable pub list_swap : Store → ℕ → ℕ → Store
list_swap s a b = if not (a == b) then list_add (list_replace (list_rm s a) b a) b (s.prev a) else s

unfoldable pub list_is_first : Store → ℕ → ℕ → Bool
list_is_first s item node = s.prev node == item

unfoldable pub list_is_last : Store → ℕ → ℕ → Bool
list_is_last s item node = s.next node == item

unfoldable pub list_empty : Store → ℕ → Bool
list_empty s node = s.next node == node

-- `list_for_each`: the nodes that `pos` visits, with `fuel` rounds at most.
unfoldable pub visit : ℕ → Store → ℕ → ℕ → List ℕ
visit zero s pos head = []
visit (suc fuel) s pos head = if pos == head then [] else pos ∷ visit fuel s (s.next pos) head

unfoldable pub list_for_each : ℕ → Store → ℕ → List ℕ
list_for_each fuel s head = visit fuel s (s.next head) head
