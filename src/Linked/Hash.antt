-- ===== src/Linked/Hash.antt =====
-- include/hlibc/list.h: the list with a head of one pointer. `pprev` points to a pointer: the one of a
-- head or the `next` of a node. A write through a null pointer is `none`.
use hlibc.Base.{ℕ, Option, none, some, ◌==◌, if◌then◌else◌}

-- The place of a pointer to a node.
pub data Place : Type 0 where
  first_of next_of : ℕ → Place

pub record HlistStore : Type 0 where
  pub first : ℕ → Option ℕ
  pub next : ℕ → Option ℕ
  pub pprev : ℕ → Option Place

abbrev pub assign : {A : Type 0} → (ℕ → A) → ℕ → A → ℕ → A
assign f k v x = if x == k then v else f x

abbrev pub set_first : HlistStore → ℕ → Option ℕ → HlistStore
set_first s head v = record s { first = assign s.first head v }

abbrev pub set_next : HlistStore → ℕ → Option ℕ → HlistStore
set_next s node v = record s { next = assign s.next node v }

abbrev pub set_pprev : HlistStore → ℕ → Option Place → HlistStore
set_pprev s node v = record s { pprev = assign s.pprev node v }

-- `*place = v`.
abbrev pub write_place : HlistStore → Option Place → Option ℕ → Option HlistStore
write_place s none v = none
write_place s (some (first_of head)) v = some (set_first s head v)
write_place s (some (next_of node)) v = some (set_next s node v)

-- `if (node) node->pprev = place`.
abbrev pub point_back : HlistStore → Option ℕ → Option Place → HlistStore
point_back s none place = s
point_back s (some node) place = set_pprev s node place

unfoldable pub hlist_head_init : HlistStore → ℕ → HlistStore
hlist_head_init s head = set_first s head none

unfoldable pub hlist_node_init : HlistStore → ℕ → HlistStore
hlist_node_init s node = set_pprev (set_next s node none) node none

unfoldable pub hlist_add_head : HlistStore → ℕ → ℕ → HlistStore
hlist_add_head s item head =
    let s1 : HlistStore = point_back s (s.first head) (some (next_of item)) in
    let s2 : HlistStore = set_next s1 item (s1.first head) in
    set_first (set_pprev s2 item (some (first_of head))) head (some item)

unfoldable pub hlist_add_prev : HlistStore → ℕ → ℕ → Option HlistStore
hlist_add_prev s item node =
    let s1 : HlistStore = set_pprev s item (s.pprev node) in
    let s2 : HlistStore = set_next s1 item (s1.next node) in
    let s3 : HlistStore = set_pprev s2 node (some (next_of item)) in
    write_place s3 (s3.pprev item) (some item)

unfoldable pub hlist_add_next : HlistStore → ℕ → ℕ → HlistStore
hlist_add_next s item node =
    let s1 : HlistStore = set_next s item (s.next node) in
    let s2 : HlistStore = set_pprev s1 item (some (next_of node)) in
    set_next (point_back s2 (s2.next node) (some (next_of item))) node (some item)

-- `if (node->next) node->next->pprev = node->pprev`, after the first write.
abbrev pub join_next : ℕ → Option HlistStore → Option HlistStore
join_next node none = none
join_next node (some s) = some (point_back s (s.next node) (s.pprev node))

unfoldable pub hlist_del : HlistStore → ℕ → Option HlistStore
hlist_del s node = join_next node (write_place s (s.pprev node) (s.next node))

unfoldable pub hlist_rehead : HlistStore → ℕ → ℕ → HlistStore
hlist_rehead s old head =
    let s1 : HlistStore = set_first s head (s.first old) in
    set_first (point_back s1 (s1.first head) (some (first_of head))) old none
