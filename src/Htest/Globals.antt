-- ===== src/Htest/Globals.antt =====
-- htest/htest.c: the list of all suites that are declared, and the run over it.
use mathlib.Core.Path.{subst}
use hlibc.Base.Parsed.{Parsed, accepted, undefined, ◌>>=◌}
use hlibc.Base.{
  ℕ, zero, suc, ◌≡◌, refl, sym, ◌∙◌, true, false, List, [], ◌∷◌, ◌++◌, ◌==◌, if◌then◌else◌, ltb,
  ◌^◌, ◌+◌, ◌<◌, length, Bool, Outcome, done, fault, int_step, arith,
}
use hlibc.Linked.{Store, list_add}
use hlibc.Linked.Ring.{Chain, NotIn, IsRing}
use hlibc.Linked.Laws.{list_add-list_add_tail}
use hlibc.Htest.{Htest, Memory}
use hlibc.Htest.Suite.{HtestSuite, Line, htest_run_suite}
use hlibc.Htest.Created.{newest_first}

-- The loop of `__htest_declare_suites`, from the suite with number `i` on. The counter is an int.
unfoldable pub declare_loop : ℕ → Store → List ℕ → ℕ → Outcome Store
declare_loop i s [] head = done s
declare_loop i s (suite ∷ suites) head =
    let next = declare_loop (i + 1) (list_add s suite head) suites head in int_step (i + 1) next

-- `__htest_declare_suites`, with the nodes of the suites and the head of the list.
unfoldable pub htest_declare_suites : Store → List ℕ → ℕ → Outcome Store
htest_declare_suites s suites head = declare_loop 0 s suites head

-- The loop at `pos`, with `fuel` rounds at most. `suite_at` is the suite that a node is in, and `test` the
-- variable of `htest_run_suite`.
unfoldable pub global_loop :
    ℕ → (ℕ → HtestSuite) → ℕ → Htest → ℕ → Memory → Parsed (List Line × Memory)
global_loop zero suite_at head test pos m = undefined
global_loop (suc fuel) suite_at head test pos m =
    if pos == head
    then accepted ([], m)
    else htest_run_suite (suc fuel) (suite_at pos) test m >>= λ (lines, m1).
        global_loop fuel suite_at head test (m1.nodes.next pos) m1 >>= λ (rest, m2).
        accepted (lines ++ rest, m2)

unfoldable pub htest_run_global_suites :
    ℕ → (ℕ → HtestSuite) → ℕ → Htest → Memory → Parsed (List Line × Memory)
htest_run_global_suites fuel suite_at head test m =
    global_loop fuel suite_at head test (m.nodes.next head) m

-- A node for each suite, that none declared before it has, and that is not the head.
abbrev pub Undeclared : ℕ → List ℕ → List ℕ → Type 0
Undeclared head older [] = Unit
Undeclared head older (x ∷ xs) = NotIn x (head ∷ older) × Undeclared head (x ∷ older) xs

-- A ring of these nodes, unless the counter has overflowed.
abbrev RingOf : List ℕ → Outcome Store → Type 0
RingOf xs (done s) = IsRing s xs
RingOf xs fault = Unit

if-RingOf :
    (b : Bool) (xs : List ℕ) (o : Outcome Store) → RingOf xs o → RingOf xs (if b then o else fault)
if-RingOf true xs o r = r
if-RingOf false xs o r = tt

declare_loop-RingOf :
    (i : ℕ) (s : Store) (head : ℕ) (xs older : List ℕ)
    → Undeclared head older xs
    → IsRing s (head ∷ older)
    → RingOf (head ∷ newest_first xs older) (declare_loop i s xs head)
unfolding declare_loop
declare_loop-RingOf i s head [] older f r = r
declare_loop-RingOf i s head (x ∷ xs) older (n, f) r =
    if-RingOf (ltb (i + 1) (2 ^ 31)) (head ∷ newest_first xs (x ∷ older))
      (declare_loop (i + 1) (list_add s x head) xs head)
      (declare_loop-RingOf (i + 1) (list_add s x head) head xs (x ∷ older) f
        (list_add-list_add_tail s x head [] older n r).0)

-- The loop has no overflow with fewer than 2^31 suites.
declare_loop_done :
    (i : ℕ) (s : Store) (head : ℕ) (xs : List ℕ)
    → i + length xs < 2 ^ 31
    → (t : Store) × (declare_loop i s xs head ≡ done t)
unfolding declare_loop
declare_loop_done i s head [] l = (s, refl)
declare_loop_done i s head (x ∷ xs) l =
    let (t, q) = declare_loop_done (i + 1) (list_add s x head) head xs (omega arith) in
    let fits : ltb (i + 1) (2 ^ 31) ≡ true = ground (arith, l) in (t, rw (fits, q) refl)

-- From `a` the `next` pointers lead over the nodes `xs` to `e`.
abbrev pub Leads : Store → ℕ → List ℕ → ℕ → Type 0
Leads s a [] e = s.next a ≡ e
Leads s a (x ∷ xs) e = (s.next a ≡ x) × Leads s x xs e

Chain-Leads : (s : Store) (a : ℕ) (xs : List ℕ) (e : ℕ) → Chain s a xs e → Leads s a xs e
Chain-Leads s a [] e (n, p) = n
Chain-Leads s a (x ∷ xs) e ((n, p), c) = (n, Chain-Leads s x xs e c)

module _ (suite_at : ℕ → HtestSuite) (head : ℕ) (test : Htest) where
  -- The suites at the nodes `xs` run one after the other, with fewer calls for a hook from one to the next,
  -- and behind each of them its node still leads over the rest to the head.
  pub data Ran : ℕ → List ℕ → Memory → List Line → Memory → Type 0 where
    none_left : {fuel : ℕ} {m : Memory} → Ran (suc fuel) [] m [] m
    one_more :
        {fuel x : ℕ} {xs : List ℕ} {m m1 m2 : Memory} {lines rest : List Line}
        → htest_run_suite (suc fuel) (suite_at x) test m ≡ accepted (lines, m1)
        → Leads m1.nodes x xs head
        → Ran fuel xs m1 rest m2
        → Ran (suc fuel) (x ∷ xs) m (lines ++ rest) m2

  global_loop-Ran :
      {fuel : ℕ} {xs : List ℕ} {m m1 : Memory} {lines : List Line} (a pos : ℕ)
      → Ran fuel xs m lines m1
      → Leads m.nodes a xs head
      → NotIn head xs
      → pos ≡ m.nodes.next a
      → global_loop fuel suite_at head test pos m ≡ accepted (lines, m1)
  unfolding global_loop
  global_loop-Ran a pos none_left l n q =
      let here : (pos == head) ≡ true = ground (arith, l, q) in rw here refl
  global_loop-Ran a pos
        (one_more {fuel = fuel} {x = x} {xs = xs} {m = m} {m1 = m1} {lines = lines} r l' ran)
        (l, ls) (h, n) q =
      let first : x ≡ pos = sym (q ∙ l) in
      let more : (pos == head) ≡ false = ground (arith, first, h) in
      let run =
        subst (λ z. htest_run_suite (suc fuel) (suite_at z) test m ≡ accepted (lines, m1)) first
          r in
      let next = subst (λ z. Leads m1.nodes z xs head) first l' in
      rw more rw run rw (global_loop-Ran pos (m1.nodes.next pos) ran next n refl) refl

  -- The suites that `__htest_declare_suites` adds to the empty list, at distinct nodes, are run by
  -- `htest_run_global_suites` once each, the last one first, and their lines come in that order, if every
  -- suite returns and leaves the links of those still to come.
  pub htest_run_global_suites-htest_declare_suites :
      (fuel : ℕ) (s : Store) (xs : List ℕ) (m m1 : Memory) (lines : List Line)
      → IsRing s (head ∷ [])
      → Undeclared head [] xs
      → htest_declare_suites s xs head ≡ done m.nodes
      → Ran fuel (newest_first xs []) m lines m1
      → htest_run_global_suites fuel suite_at head test m ≡ accepted (lines, m1)
  unfolding htest_run_global_suites htest_declare_suites
  htest_run_global_suites-htest_declare_suites fuel s xs m m1 lines r u q ran =
      let ring =
        subst (RingOf (head ∷ newest_first xs [])) q (declare_loop-RingOf 0 s head xs [] u r) in
      global_loop-Ran head _ ran (Chain-Leads m.nodes head (newest_first xs []) head ring.0)
        ring.1.0 refl
