-- ===== src/Spinlock.antt =====
-- hlibc/spinlock.c: a lock on an atomic flag, and threads that use it in any interleaving. Each atomic
-- operation is one step. The loops of `spinlock_lock` have no other effect than to try again.
pub mod Exclusion
mod Examples
use hlibc.Base.{ℕ, Bool, true, false, ◌≡◌, ◌==◌, if◌then◌else◌}

pub record SpinLock : Type 0 where
  pub flag : Bool

-- The returned values: 0 and `EBUSY`.
pub data Result : Type 0 where
  acquired ebusy : Result

-- `atomic_flag_test_and_set`: the old flag, and the lock with its flag set.
abbrev pub atomic_flag_test_and_set : SpinLock → Bool × SpinLock
atomic_flag_test_and_set lock = (lock.flag, record { flag = true })

abbrev pub atomic_flag_clear : SpinLock → SpinLock
atomic_flag_clear lock = record { flag = false }

-- One round of the loop of `spinlock_lock`: whether it returns.
unfoldable pub lock_round : SpinLock → Bool × SpinLock
lock_round lock =
    let (old, lock') = atomic_flag_test_and_set lock in
    if old then (true, lock') else (false, lock')

unfoldable pub spinlock_trylock : SpinLock → Result × SpinLock
spinlock_trylock lock =
    let (old, lock') = atomic_flag_test_and_set lock in
    if old then (acquired, lock') else (ebusy, lock')

unfoldable pub spinlock_unlock : SpinLock → SpinLock
spinlock_unlock lock = atomic_flag_clear lock

unfoldable pub spinlock_init : SpinLock → SpinLock
spinlock_init lock = atomic_flag_clear lock

unfoldable pub spinlock_destroy : SpinLock → SpinLock
spinlock_destroy lock = atomic_flag_clear lock

-- Where a thread is: outside, in the loop of `spinlock_lock`, or past a successful call.
pub data Pc : Type 0 where
  outside spinning holding : Pc

pub record System : Type 0 where
  pub lock : SpinLock
  pub pc : ℕ → Pc

abbrev pub move : (ℕ → Pc) → ℕ → Pc → ℕ → Pc
move pc i to j = if i == j then to else pc j

-- A thread's step, with what the code does to the lock.
pub data Step (s : System) : System → Type 0 where
  call : (i : ℕ) → s.pc i ≡ outside → Step s (record s { pc = move s.pc i spinning })
  round_returns :
      (i : ℕ)
      → s.pc i ≡ spinning
      → (lock_round s.lock).0 ≡ true
      → Step s (record { lock = (lock_round s.lock).1; pc = move s.pc i holding })
  round_repeats :
      (i : ℕ)
      → s.pc i ≡ spinning
      → (lock_round s.lock).0 ≡ false
      → Step s (record s { lock = (lock_round s.lock).1 })
  try_succeeds :
      (i : ℕ)
      → s.pc i ≡ outside
      → (spinlock_trylock s.lock).0 ≡ acquired
      → Step s (record { lock = (spinlock_trylock s.lock).1; pc = move s.pc i holding })
  try_fails :
      (i : ℕ)
      → s.pc i ≡ outside
      → (spinlock_trylock s.lock).0 ≡ ebusy
      → Step s (record s { lock = (spinlock_trylock s.lock).1 })
  unlock :
      (i : ℕ)
      → s.pc i ≡ holding
      → Step s (record { lock = spinlock_unlock s.lock; pc = move s.pc i outside })

pub data Reach (s : System) : System → Type 0 where
  start : Reach s s
  later : {t u : System} → Reach s t → Step t u → Reach s u

abbrev pub initial : System
unfolding spinlock_init
initial = record { lock = spinlock_init (record { flag = true }); pc = λ i. outside }
