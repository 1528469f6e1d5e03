-- ===== src/Htest/Suite.antt =====
-- htest/htest.c: `htest_run_suite`. What a unit or a hook does is a parameter: it returns, or jumps, with
-- some state. The result has the lines that the suite logs; what the units log is theirs.
use hlibc.Base.Parsed.{Parsed, accepted, undefined, ◌>>=◌}
use hlibc.Base.{
  ℕ, zero, suc, ◌+◌, ◌%◌, ◌^◌, Bool, List, [], ◌∷◌, ◌++◌, Option, none, some, ◌==◌, if◌then◌else◌,
  ℤ,
}
use hlibc.Htest.{
  HtestStatus, htest_passed, htest_skipped, htest_failed, Htest, Memory, TestState, Flow, returned,
  jumped, after, htest_init,
}
use hlibc.Htest.Resources.{htest_destroy}

abbrev pub Hook : Type 0
Hook = TestState → Flow

-- What a hook `init` does: it returns an int, or jumps.
pub data InitFlow : Type 0 where
  init_returned : TestState → ℤ → InitFlow
  init_jumped : TestState → InitFlow

abbrev pub InitHook : Type 0
InitHook = TestState → InitFlow

-- The array of units ends at one whose `run` is null.
pub record HtestUnit : Type 0 where
  pub name : List ℕ
  pub run : Option Hook

pub record HtestSuite : Type 0 where
  pub units : List HtestUnit
  pub name : List ℕ
  pub skip : Bool
  pub init : Option InitHook
  pub destroy : Option Hook

pub record HtestStats : Type 0 where
  pub total : ℕ
  pub passed : ℕ
  pub failed : ℕ
  pub skipped : ℕ

-- The lines of a log: the name of the suite, the number of a test with its status, name and message, the
-- warning for a suite without tests, the last line.
pub data Line : Type 0 where
  started : List ℕ → Line
  result : ℕ → HtestStatus → List ℕ → List ℕ → Line
  no_tests : Line
  totals : HtestStats → Line

abbrev pub bump : ℕ → ℕ
bump n = (n + 1) % 2 ^ 64

-- The cases of the `switch`.
abbrev pub counted : HtestStatus → HtestStats → HtestStats
counted htest_skipped stats = record stats { skipped = bump stats.skipped }
counted htest_passed stats = record stats { passed = bump stats.passed }
counted htest_failed stats = record stats { failed = bump stats.failed }

-- The text of a message, as `%s` prints it.
abbrev pub text : List ℕ → List ℕ
text [] = []
text (c ∷ msg) = if c == 0 then [] else c ∷ text msg

-- The call drops the int. A hook that jumps does so before `setjmp` has stored a place to jump to.
unfoldable pub init_hook : Option InitHook → TestState → Parsed TestState
init_hook none t = accepted t
init_hook (some hook) t = elim (hook t) [
  | init_returned t1 n ↦ accepted t1
  | init_jumped t1 ↦ undefined
]

-- A hook that jumps behind `setjmp` is called again, with `fuel` calls at most.
unfoldable pub destroy_hook : ℕ → Option Hook → TestState → Parsed TestState
destroy_hook fuel none t = accepted t
destroy_hook zero (some hook) t = undefined
destroy_hook (suc fuel) (some hook) t = elim (hook t) [
  | returned t1 ↦ accepted t1
  | jumped t1 ↦ destroy_hook fuel (some hook) t1
]

-- One test, from `htest_init` to the `switch`.
unfoldable pub run_unit : ℕ → HtestSuite → Hook → TestState → Parsed TestState
run_unit fuel suite run t =
    if suite.skip
    then accepted (record t { test = record t.test { status = htest_skipped } })
    else init_hook suite.init t >>= λ t1. destroy_hook fuel suite.destroy (after (run t1))

-- The loop, from the test with number `num` on. `fuel` is that of the hooks and of `htest_destroy`. A read
-- behind the array is undefined.
unfoldable pub run_units :
    ℕ
    → HtestSuite
    → List HtestUnit
    → ℕ
    → HtestStats
    → Htest
    → Memory
    → Parsed (List Line × HtestStats × Memory)
run_units fuel suite [] num stats test memory = undefined
run_units fuel suite (u ∷ units) num stats test memory = elim u.run [
  | none ↦ accepted ([], stats, memory)
  | some run ↦ run_unit fuel suite run (htest_init test u.name memory) >>= λ t.
      let stats1 : HtestStats = counted t.test.status (record stats { total = bump stats.total }) in
      let line = result num t.test.status t.test.name (text t.test.status_msg) in
      run_units fuel suite units (num + 1) stats1 t.test (htest_destroy fuel t).memory
      >>= λ (lines, stats2, memory2). accepted (line ∷ lines, stats2, memory2)
]

abbrev pub no_stats : HtestStats
no_stats = record { total = 0; passed = 0; failed = 0; skipped = 0 }

-- `test` is the variable of the function.
unfoldable pub htest_run_suite : ℕ → HtestSuite → Htest → Memory → Parsed (List Line × Memory)
htest_run_suite fuel suite test memory =
    run_units fuel suite suite.units 1 no_stats test memory >>= λ (lines, stats, memory1).
    let warning = if stats.total == 0 then no_tests ∷ [] else [] in
    accepted (started suite.name ∷ (lines ++ (warning ++ totals stats ∷ [])), memory1)
