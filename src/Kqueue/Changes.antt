-- ===== src/Kqueue/Changes.antt =====
-- hlibc/kqueue.c: the list of changes that a table holds.
use hlibc.Base.{
  ℕ, zero, suc, ◌+◌, ◌^◌, ◌≤◌, ◌<◌, ◌≡◌, refl, sym, ap, ◌∙◌, true, false, List, [], ◌∷◌, ◌++◌,
  Option, none, some, done, fault, success, enomem, pos, length, length-set, length-append, take,
  take_all, set, ltb, ◌==◌, ◌⊎◌, inl, inr, Bool-cases, Option-cases, arith,
}
use hlibc.Kqueue.{
  Kevent, KqueueTable, kqueue_table_init, append_change, next_cap, kqueue_table_change,
}

-- What `realloc` returns has the size asked for, and what was in the old block and fits.
abbrev pub Reallocates : (Option (List Kevent) → ℕ → Option (List Kevent)) → Type 0
Reallocates realloc =
    (old : Option (List Kevent)) (n : ℕ) (b : List Kevent)
    → realloc old n ≡ some b
    → (length b ≡ n) × ((a : List Kevent) → old ≡ some a → length a ≤ n → take (length a) b ≡ a)

-- The block has the size that the table says, and holds the changes.
abbrev pub Holds : KqueueTable → List Kevent → Type 0
Holds kt events =
    (length events ≡ kt.nchanges)
    × (kt.nchanges ≤ kt.changelist_cap)
    × (((kt.changelist_cap ≡ 0) × (kt.changelist ≡ none))
        ⊎ ((b : List Kevent) × (kt.changelist ≡ some b)
            × (length b ≡ kt.changelist_cap)
            × (take kt.nchanges b ≡ events)))

take-set :
    (n : ℕ) (b : List Kevent) (e : Kevent)
    → n < length b
    → take (n + 1) (set b n e) ≡ take n b ++ e ∷ []
take-set n [] e l = absurd (omega arith)
take-set zero (x ∷ b) e l = refl
take-set (suc n) (x ∷ b) e l =
    let more : suc n + 1 ≡ suc (n + 1) = omega arith in
    rw more (ap (x ∷◌) (take-set n b e (omega arith)))

-- A table with room for one more.
append_change-Holds :
    (kt : KqueueTable) (event : Kevent) (b events : List Kevent)
    → kt.changelist ≡ some b
    → length b ≡ kt.changelist_cap
    → kt.nchanges < kt.changelist_cap
    → kt.nchanges + 1 < 2 ^ 31
    → take kt.nchanges b ≡ events
    → length events ≡ kt.nchanges
    → (kt1 : KqueueTable) × (append_change kt event ≡ done (success, kt1))
      × Holds kt1 (events ++ event ∷ [])
unfolding append_change
append_change-Holds kt event b events c n l small h k =
    let inside : ltb kt.nchanges (length b) ≡ true = ground (arith, n, l) in
    let count : ltb (kt.nchanges + 1) (2 ^ 31) ≡ true = ground (arith, small) in
    (
      record kt { changelist = some (set b kt.nchanges event); nchanges = kt.nchanges + 1 },
      rw c rw inside rw count refl,
      (
        omega (arith, length-append events (event ∷ []), k),
        omega (arith, l),
        inr (
          set b kt.nchanges event,
          refl,
          length-set b kt.nchanges event ∙ n,
          take-set kt.nchanges b event (omega (arith, n, l)) ∙ ap (◌++ event ∷ []) h,
        ),
      ),
    )

next_cap-more : (cap : ℕ) → cap < 2 ^ 31 → cap < next_cap cap
next_cap-more cap h = omega arith

-- Where the table is full, it gets a larger block or reports that there is none.
abbrev pub Changed :
    (Option (List Kevent) → ℕ → Option (List Kevent)) → KqueueTable → Kevent → List Kevent → Type 0
Changed realloc kt event events =
    ((kt1 : KqueueTable) × (kqueue_table_change realloc kt event ≡ done (success, kt1))
      × Holds kt1 (events ++ event ∷ []))
    ⊎ ((kt1 : KqueueTable) × (kqueue_table_change realloc kt event ≡ done (enomem, kt1))
        × (realloc kt.changelist kt1.changelist_cap ≡ none)
        × (kqueue_table_change realloc kt1 event ≡ fault))

no_element : (xs : List Kevent) → length xs ≡ 0 → xs ≡ []
no_element [] l = refl
no_element (x ∷ xs) l = absurd (omega arith)

-- What is in the larger block.
grown-take :
    (realloc : Option (List Kevent) → ℕ → Option (List Kevent)) (kt : KqueueTable)
    (b events : List Kevent) (cap : ℕ)
    → Reallocates realloc
    → Holds kt events
    → kt.changelist_cap ≡ kt.nchanges
    → kt.nchanges < cap
    → realloc kt.changelist cap ≡ some b
    → take kt.nchanges b ≡ events
grown-take realloc kt b events cap good (l, m, inl (z, c)) full more q =
    let none_yet : kt.nchanges ≡ 0 = omega (arith, z, full) in
    rw none_yet (sym (no_element events (l ∙ none_yet)))
grown-take realloc kt b events cap good (l, m, inr (a, c, n, t)) full more q =
    let size : kt.nchanges ≡ length a = omega (arith, n, full) in
    ap (λ k. take k b) size
    ∙ (good kt.changelist cap b q).1 a c (omega (arith, size))
    ∙ sym (take_all kt.nchanges a (omega (arith, size)))
    ∙ t

is_full : (n cap : ℕ) → ltb n cap ≡ false → n ≤ cap → cap ≡ n
is_full n cap h l = ground (arith, h, l)

full-Changed :
    (realloc : Option (List Kevent) → ℕ → Option (List Kevent)) (kt : KqueueTable) (event : Kevent)
    (events : List Kevent)
    → Reallocates realloc
    → Holds kt events
    → kt.nchanges + 1 < 2 ^ 31
    → kt.changelist_cap ≡ kt.nchanges
    → Changed realloc kt event events
unfolding kqueue_table_change append_change
full-Changed realloc kt event events good holds small full =
    let cap = next_cap kt.changelist_cap in
    let more : kt.nchanges < cap =
      omega (arith, full, next_cap-more kt.changelist_cap (omega (arith, full))) in
    let test : (kt.changelist_cap == kt.nchanges) ≡ true = ground (arith, full) in
    let later : (cap == kt.nchanges) ≡ false = ground (arith, more) in
    elim (Option-cases (realloc kt.changelist cap)) [
      | inl q ↦ inr (
        record kt { changelist_cap = cap; changelist = none },
        rw test rw q refl,
        q,
        rw later refl,
      )
      | inr (b, q) ↦
          (let (kt1, run, holds1) =
              append_change-Holds (record kt { changelist_cap = cap; changelist = some b }) event b
                events refl (good kt.changelist cap b q).0 more small
                (grown-take realloc kt b events cap good holds full more q) holds.0 in
            inl (kt1, rw test rw q run, holds1))
    ]

room-Changed :
    (realloc : Option (List Kevent) → ℕ → Option (List Kevent)) (kt : KqueueTable) (event : Kevent)
    (events : List Kevent)
    → Holds kt events
    → kt.nchanges + 1 < 2 ^ 31
    → kt.nchanges < kt.changelist_cap
    → Changed realloc kt event events
unfolding kqueue_table_change
room-Changed realloc kt event events (l, m, inl (z, c)) small room = absurd (omega (arith, z, room))
room-Changed realloc kt event events (l, m, inr (b, c, n, t)) small room =
    let test : (kt.changelist_cap == kt.nchanges) ≡ false = ground (arith, room) in
    let (kt1, run, holds1) = append_change-Holds kt event b events c n room small t l in
    inl (kt1, rw test run, holds1)

-- A table that holds some changes, fewer than 2^31 - 1, takes one more behind them, in a block that is
-- larger if the table was full; or `realloc` returned nothing for that block, the result is `ENOMEM`, and
-- the next change writes through the null pointer.
pub kqueue_table_change-Holds :
    (realloc : Option (List Kevent) → ℕ → Option (List Kevent)) (kt : KqueueTable) (event : Kevent)
    (events : List Kevent)
    → Reallocates realloc
    → Holds kt events
    → kt.nchanges + 1 < 2 ^ 31
    → Changed realloc kt event events
kqueue_table_change-Holds realloc kt event events good holds small =
    elim (Bool-cases (ltb kt.nchanges kt.changelist_cap)) [
      | inl room ↦ room-Changed realloc kt event events holds small (ground (arith, room))
      | inr full ↦
          full-Changed realloc kt event events good holds small
            (is_full kt.nchanges kt.changelist_cap full holds.1)
    ]

-- The table that `kqueue_table_init` makes holds no changes.
pub kqueue_table_init-Holds :
    (kt : KqueueTable) (kq pid : ℕ) → Holds (kqueue_table_init kt (pos kq) pid).0 []
unfolding kqueue_table_init
kqueue_table_init-Holds kt kq pid = (refl, omega arith, inl (refl, refl))
