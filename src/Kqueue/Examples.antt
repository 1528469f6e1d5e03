-- ===== src/Kqueue/Examples.antt =====
-- The table of hlibc/kqueue.c at concrete changes.
use mathlib.Core.Path.{◌≡◌, refl}
use hlibc.Base.{
  ℕ, zero, suc, ◌≤◌, List, [], ◌∷◌, ◌++◌, Option, none, some, Outcome, done, fault, ◌>>=◌, Status,
  pos, negsuc, length, take, replicate, length-append, length-take, length-replicate, take-append,
  inl, ap, sym, ◌∙◌, arith,
}
use hlibc.Kqueue.{
  Kevent, KqueueTable, kevent_set, kqueue_table_init, kqueue_table_change, append_change,
}
use hlibc.Kqueue.Changes.{Reallocates, Changed, kqueue_table_change-Holds}

abbrev no_event : Kevent
no_event = kevent_set 0 (pos 0) 0 0 (pos 0) 0

-- A block is filled up with empty events.
abbrev realloc : Option (List Kevent) → ℕ → Option (List Kevent)
realloc none n = some (replicate n no_event)
realloc (some a) n = some (take n (a ++ replicate n no_event))

or_empty : Option (List Kevent) → List Kevent
or_empty none = []
or_empty (some b) = b

take-take : (m n : ℕ) (xs : List Kevent) → m ≤ n → take m (take n xs) ≡ take m xs
take-take zero n xs l = refl
take-take (suc m) zero xs l = absurd (omega arith)
take-take (suc m) (suc n) [] l = refl
take-take (suc m) (suc n) (x ∷ xs) l = ap (x ∷◌) (take-take m n xs (omega arith))

realloc-Reallocates : Reallocates realloc
unfolding or_empty
realloc-Reallocates none n b q =
    (ap (λ o. length (or_empty o)) (sym q) ∙ length-replicate n no_event, λ a e l. absurd (cc e))
realloc-Reallocates (some c) n b q = (
  ap (λ o. length (or_empty o)) (sym q)
      ∙ omega (
        arith,
        length-take n (c ++ replicate n no_event),
        length-append c (replicate n no_event),
        length-replicate n no_event,
      ),
  λ a e l.
      let same : c ≡ a = ap or_empty e in
      let room : length c ≤ n = omega (arith, l, ap length same) in
      ap (λ o. take (length a) (or_empty o)) (sym q)
      ∙ ap (λ k. take k (take n (c ++ replicate n no_event))) (sym (ap length same))
      ∙ take-take (length c) n (c ++ replicate n no_event) room
      ∙ take-append (length c) c (replicate n no_event) refl
      ∙ same,
)

-- The first change to a new table.
abbrev new_table : KqueueTable
new_table = record {
  kq = pos 5;
  pid = 77;
  nchanges = 0;
  nevents = pos 0;
  changelist = none;
  eventlist = none;
  changelist_cap = 0;
  eventlist_cap = 9;
}

kqueue_table_change-Holds_example :
    Changed realloc new_table (kevent_set 3 (negsuc 0) 1 0 (pos 0) 8) []
kqueue_table_change-Holds_example =
    kqueue_table_change-Holds realloc new_table (kevent_set 3 (negsuc 0) 1 0 (pos 0) 8) []
      realloc-Reallocates (refl, omega arith, inl (refl, refl)) (omega arith)

-- The first two changes.
abbrev two_changes : Outcome (Status × KqueueTable)
two_changes =
    kqueue_table_change realloc (kqueue_table_init new_table (pos 5) 77).0
      (kevent_set 3 (negsuc 0) 1 0 (pos 0) 8)
    >>= λ (r, kt). kqueue_table_change realloc kt (kevent_set 4 (negsuc 1) 1 0 (pos 0) 8)

abbrev list_of : Outcome (Status × KqueueTable) → Option (List Kevent)
list_of (done (r, kt)) = kt.changelist
list_of fault = none

two_changes-list_of :
    list_of two_changes
    ≡ some (kevent_set 3 (negsuc 0) 1 0 (pos 0) 8 ∷ kevent_set 4 (negsuc 1) 1 0 (pos 0) 8 ∷ [])
unfolding kqueue_table_change kqueue_table_init append_change
two_changes-list_of = refl
