-- ===== src/Spinlock/Exclusion.antt =====
-- hlibc/spinlock.c: who can hold the lock.
use hlibc.Base.{ℕ, zero, suc, ◌<◌, ◌≡◌, refl, true, ltb, if◌then◌else◌, arith}
use hlibc.Spinlock.{
  outside, holding, System, Reach, start, later, try_succeeds, try_fails, spinlock_trylock,
  spinlock_init, initial, move, Step,
}

-- The first `n` threads hold the lock, and the others are outside.
abbrev pub IsHeldBelow : ℕ → System → Type 0
IsHeldBelow n s = (s.lock.flag ≡ true) × ((i : ℕ) → s.pc i ≡ (if ltb i n then holding else outside))

next_holder :
    (n : ℕ) (s : System) → IsHeldBelow n s → (t : System) × Step s t × IsHeldBelow (suc n) t
unfolding spinlock_trylock
next_holder n s h = (
  record { lock = (spinlock_trylock s.lock).1; pc = move s.pc n holding },
  try_succeeds n (ground (arith, h.1 n)) (ground (arith, h.0)),
  (ground (arith, h.0), λ i. ground (arith, h.1 i)),
)

-- A first call of `spinlock_trylock`, on the free lock, fails and sets the flag.
none_yet : (t : System) × Step initial t × IsHeldBelow 0 t
unfolding spinlock_trylock spinlock_init
none_yet = (
  record initial { lock = (spinlock_trylock initial.lock).1 },
  try_fails 0 refl refl,
  (refl, λ i. ground arith),
)

held_below : (n : ℕ) → (s : System) × Reach initial s × IsHeldBelow n s
held_below zero = let (t, st, h) = none_yet in (t, later start st, h)
held_below (suc n) =
    let (s, r, h) = held_below n in let (t, st, h') = next_holder n s h in (t, later r st, h')

-- From the initial state the threads can come to hold the lock all at once, however many they are.
pub all_hold : (n : ℕ) → (s : System) × Reach initial s × ((i : ℕ) → i < n → s.pc i ≡ holding)
all_hold n = let (s, r, h) = held_below n in (s, r, λ i lt. ground (arith, h.1 i))
