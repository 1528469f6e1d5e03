-- ===== src/Spinlock/Examples.antt =====
-- Three threads at once.
use hlibc.Base.{ℕ, ◌<◌, ◌≡◌}
use hlibc.Spinlock.{holding, System, Reach, initial}
use hlibc.Spinlock.Exclusion.{all_hold}

all_hold_example : (s : System) × Reach initial s × ((i : ℕ) → i < 3 → s.pc i ≡ holding)
all_hold_example = all_hold 3
