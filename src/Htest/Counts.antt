-- ===== src/Htest/Counts.antt =====
-- htest/htest.c: what the lines of a suite say.
use hlibc.Base.{ℕ, suc, ◌+◌, ◌<◌, ◌^◌, ◌≡◌, List, [], ◌∷◌, Option, none, some, length, ℤ, arith}
use hlibc.Htest.{HtestStatus, htest_passed, htest_skipped, htest_failed, Htest, TestState, returned}
use hlibc.Htest.Suite.{
  Hook, InitHook, init_returned, HtestUnit, HtestStats, Line, started, result, no_tests, totals,
  bump, counted,
}

-- A hook that is missing, or always returns.
abbrev pub Returns : Option Hook → Type 0
Returns none = Unit
Returns (some hook) = (t : TestState) → (t1 : TestState) × (hook t ≡ returned t1)

-- A hook `init` that is missing, or always returns, with any int.
abbrev pub InitReturns : Option InitHook → Type 0
InitReturns none = Unit
InitReturns (some hook) =
    (t : TestState) → (t1 : TestState) × (result : ℤ) × (hook t ≡ init_returned t1 result)

-- The units before the one that ends the array, which has to be there.
pub data Units : List HtestUnit → ℕ → Type 0 where
  last : {u : HtestUnit} {units : List HtestUnit} → u.run ≡ none → Units (u ∷ units) 0
  more :
      {u : HtestUnit} {units : List HtestUnit} {n : ℕ} {run : Hook}
      → u.run ≡ some run
      → Units units n
      → Units (u ∷ units) (suc n)

-- The results carry the numbers from `num` on, one after the other.
abbrev pub Numbered : ℕ → List Line → Type 0
Numbered num [] = Unit
Numbered num (started name ∷ lines) = ⊥
Numbered num (result k status name msg ∷ lines) = (k ≡ num) × Numbered (num + 1) lines
Numbered num (no_tests ∷ lines) = ⊥
Numbered num (totals stats ∷ lines) = ⊥

abbrev pub one_if : HtestStatus → HtestStatus → ℕ
one_if htest_passed htest_passed = 1
one_if htest_skipped htest_skipped = 1
one_if htest_failed htest_failed = 1
one_if _ _ = 0

-- How many of the lines are results with the status `k`.
abbrev pub count : HtestStatus → List Line → ℕ
count k [] = 0
count k (started name ∷ lines) = count k lines
count k (result num status name msg ∷ lines) = one_if k status + count k lines
count k (no_tests ∷ lines) = count k lines
count k (totals stats ∷ lines) = count k lines

-- The counters add up, and `n` more tests can be counted.
abbrev AddUp : ℕ → HtestStats → Type 0
AddUp n s = (s.passed + s.failed + s.skipped ≡ s.total) × (s.total + n < 2 ^ 64)

-- The counters have grown by the results in `lines`.
abbrev pub Grown : HtestStats → List Line → HtestStats → Type 0
Grown s lines s1 =
    (s1.total ≡ s.total + length lines)
    × (s1.passed ≡ s.passed + count htest_passed lines)
    × (s1.failed ≡ s.failed + count htest_failed lines)
    × (s1.skipped ≡ s.skipped + count htest_skipped lines)

bump_small : (n : ℕ) → n + 1 < 2 ^ 64 → bump n ≡ n + 1
bump_small n l = omega arith

abbrev next_stats : HtestStatus → HtestStats → HtestStats
next_stats k s = counted k (record s { total = bump s.total })
