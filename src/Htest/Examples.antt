-- ===== src/Htest/Examples.antt =====
-- Suites, tests and resources of htest/htest.c at concrete values.
use mathlib.Core.Path.{◌≡◌, refl}
use hlibc.Base.{ℕ, true, false, List, [], ◌∷◌, ◌++◌, Option, none, some, replicate, pos, arith}
use hlibc.Base.Parsed.{Parsed, accepted}
use hlibc.Linked.{list_add, add_between, list_node_init}
use hlibc.Linked.Ring.{IsRing}
use hlibc.Htest.{
  htest_passed, htest_skipped, htest_failed, Htest, Memory, htest_init, htest_set_status,
  htest_return, htest_skip, htest_fail, htest_assert,
}
use hlibc.Htest.Resources.{htest_destroy, destroy_loop}
use hlibc.Htest.Created.{create_all, htest_destroy-htest_create_resource}
use hlibc.Htest.Suite.{
  Hook, init_returned, HtestUnit, HtestSuite, Line, started, result, no_tests, totals, init_hook,
  destroy_hook, run_unit, run_units, htest_run_suite,
}
use hlibc.Htest.Globals.{
  htest_declare_suites, declare_loop, htest_run_global_suites, none_left, one_more,
  htest_run_global_suites-htest_declare_suites,
}

-- The list of resources has its head at node 50, that of the suites at node 9.
abbrev blank : Htest
blank = record { name = []; status = htest_passed; status_msg = replicate 256 0; resources = 50 }

abbrev empty : Memory
empty = record {
  nodes = record { next = λ x. x; prev = λ x. x };
  owned = λ x. 0;
  destroyed = [];
  freed = [];
}

htest_destroy-htest_create_resource_example :
    let behind =
      (htest_destroy 4
        (create_all (htest_init blank [] empty) ((1, 11) ∷ (2, 22) ∷ (3, 33) ∷ []))).memory in
    (behind.destroyed ≡ 33 ∷ 22 ∷ 11 ∷ [])
    × (behind.freed ≡ 3 ∷ 2 ∷ 1 ∷ [])
    × IsRing behind.nodes (50 ∷ [])
htest_destroy-htest_create_resource_example =
    htest_destroy-htest_create_resource 4 blank [] empty ((1, 11) ∷ (2, 22) ∷ (3, 33) ∷ [])
      ((refl, tt), ((refl, (refl, tt)), ((refl, (refl, (refl, tt))), tt))) (omega arith)

-- A test that passes, one that is skipped, and one that fails.
abbrev good : Hook
good t = htest_assert t true

abbrev left_out : Hook
left_out t = htest_skip t (some (65 ∷ []))

abbrev bad : Hook
bad t = htest_assert t false

abbrev unit_of : ℕ → Option Hook → HtestUnit
unit_of c run = record { name = c ∷ []; run = run }

abbrev three_units : List HtestUnit
three_units =
    unit_of 97 (some good)
    ∷ unit_of 98 (some left_out)
    ∷ unit_of 99 (some bad)
    ∷ unit_of 0 none
    ∷ []

abbrev suite : HtestSuite
suite = record {
  units = three_units;
  name = 83 ∷ [];
  skip = false;
  init = some (λ t. init_returned t (pos 1));
  destroy = none;
}

abbrev logged : List Line
logged =
    started (83 ∷ [])
    ∷ result 1 htest_passed (97 ∷ []) []
    ∷ result 2 htest_skipped (98 ∷ []) (65 ∷ [])
    ∷ result 3 htest_failed (99 ∷ []) []
    ∷ totals (record { total = 3; passed = 1; failed = 1; skipped = 1 })
    ∷ []

abbrev lines_of : Parsed (List Line × Memory) → List Line
lines_of (accepted (lines, m)) = lines
lines_of _ = []

run_logged : lines_of (htest_run_suite 1 suite blank empty) ≡ logged
unfolding htest_run_suite run_units run_unit init_hook destroy_hook htest_init htest_assert
    htest_skip htest_fail htest_return htest_set_status htest_destroy destroy_loop list_node_init
run_logged = refl

-- Two suites without tests, at the nodes 1 and 2.
abbrev small_suite : ℕ → HtestSuite
small_suite x = record {
  units = unit_of 0 none ∷ [];
  name = x ∷ [];
  skip = false;
  init = none;
  destroy = none;
}

abbrev small_log : ℕ → List Line
small_log x =
    started (x ∷ [])
    ∷ no_tests
    ∷ totals (record { total = 0; passed = 0; failed = 0; skipped = 0 })
    ∷ []

abbrev declared : Memory
declared = record empty { nodes = list_add (list_add (list_node_init empty.nodes 9) 1 9) 2 9 }

htest_run_global_suites-htest_declare_suites_example :
    htest_run_global_suites 3 small_suite 9 blank declared
    ≡ accepted (small_log 2 ++ small_log 1, declared)
unfolding htest_declare_suites declare_loop list_node_init list_add add_between htest_run_suite
    run_units
htest_run_global_suites-htest_declare_suites_example =
    htest_run_global_suites-htest_declare_suites small_suite 9 blank 3
      (list_node_init empty.nodes 9) (1 ∷ 2 ∷ []) declared declared (small_log 2 ++ small_log 1)
      ((refl, refl), (tt, tt)) ((refl, tt), ((refl, (refl, tt)), tt)) refl
      (one_more {lines = small_log 2} refl (refl, refl)
        (one_more {lines = small_log 1} refl refl none_left))
