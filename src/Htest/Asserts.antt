-- ===== src/Htest/Asserts.antt =====
-- include/htest/htest.h: the assertions, on unsigned operands, and htest/htest.c: the resources that are
-- ready made. `strcmp` and `memcmp` are parameters.
use hlibc.Base.{ℕ, Bool, not, List, Option, ℤ, is_value, ltb, leb, ◌==◌}
use hlibc.Htest.{TestState, Flow, htest_assert, htest_create_resource}

unfoldable pub htest_assert_true : TestState → Bool → Flow
htest_assert_true test cond = htest_assert test cond

unfoldable pub htest_assert_not : TestState → Bool → Flow
htest_assert_not test cond = htest_assert test (not cond)

unfoldable pub htest_assert_eq : TestState → ℕ → ℕ → Flow
htest_assert_eq test a b = htest_assert test (a == b)

unfoldable pub htest_assert_ne : TestState → ℕ → ℕ → Flow
htest_assert_ne test a b = htest_assert test (not (a == b))

unfoldable pub htest_assert_lt : TestState → ℕ → ℕ → Flow
htest_assert_lt test a b = htest_assert test (ltb a b)

unfoldable pub htest_assert_gt : TestState → ℕ → ℕ → Flow
htest_assert_gt test a b = htest_assert test (ltb b a)

unfoldable pub htest_assert_lte : TestState → ℕ → ℕ → Flow
htest_assert_lte test a b = htest_assert test (leb a b)

unfoldable pub htest_assert_gte : TestState → ℕ → ℕ → Flow
htest_assert_gte test a b = htest_assert test (leb b a)

module _ (strcmp : List ℕ → List ℕ → ℤ) where
  unfoldable pub htest_assert_str_eq : TestState → List ℕ → List ℕ → Flow
  htest_assert_str_eq test a b = htest_assert test (is_value (strcmp a b) 0)

  unfoldable pub htest_assert_str_ne : TestState → List ℕ → List ℕ → Flow
  htest_assert_str_ne test a b = htest_assert test (not (is_value (strcmp a b) 0))

module _ (memcmp : List ℕ → List ℕ → ℕ → ℤ) where
  unfoldable pub htest_assert_mem_eq : TestState → List ℕ → List ℕ → ℕ → Flow
  htest_assert_mem_eq test a b size = htest_assert test (is_value (memcmp a b size) 0)

-- What `malloc`, `stralloc` or `fopen` returned is the content of a new resource.
unfoldable pub htest_malloc : TestState → Option ℕ → ℕ → Flow
htest_malloc test handle block = htest_create_resource test handle block

unfoldable pub htest_stralloc : TestState → Option ℕ → ℕ → Flow
htest_stralloc test handle block = htest_create_resource test handle block

unfoldable pub htest_fopen : TestState → Option ℕ → ℕ → Flow
htest_fopen test handle stream = htest_create_resource test handle stream
