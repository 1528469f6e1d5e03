-- ===== src/Htest/Created.antt =====
-- htest/htest.c: `htest_create_resource` and `htest_destroy`.
use mathlib.Core.Path.{subst}
use hlibc.Base.{
  ℕ, ◌+◌, ◌<◌, ◌≡◌, refl, ap, ap₂, ◌∙◌, true, List, [], ◌∷◌, ◌++◌, some, map, length, ◌==◌,
  if◌then◌else◌, arith,
}
use hlibc.Linked.{Store, list_node_init}
use hlibc.Linked.Ring.{Chain-frame, NotIn, IsRing}
use hlibc.Linked.Laws.{list_add-list_add_tail, put_one}
use hlibc.Htest.{Htest, Memory, TestState, after, htest_init, htest_create_resource}
use hlibc.Htest.Resources.{htest_destroy, htest_destroy-Destroyed}

-- Handles with their data, created one after the other.
abbrev pub create_all : TestState → List (ℕ × ℕ) → TestState
create_all t [] = t
create_all t ((handle, content) ∷ rest) =
    create_all (after (htest_create_resource t (some handle) content)) rest

-- The last one first.
abbrev pub newest_first {ℓ} : {A : Type ℓ} → List A → List A → List A
newest_first [] older = older
newest_first (r ∷ rest) older = newest_first rest (r ∷ older)

abbrev pub handles : List (ℕ × ℕ) → List ℕ
handles [] = []
handles ((handle, content) ∷ rest) = handle ∷ handles rest

abbrev pub contents : List (ℕ × ℕ) → List ℕ
contents [] = []
contents ((handle, content) ∷ rest) = content ∷ contents rest

-- No handle is that of an older resource or of the head of the list.
abbrev pub Fresh : ℕ → List (ℕ × ℕ) → List (ℕ × ℕ) → Type 0
Fresh head older [] = Unit
Fresh head older (r ∷ rest) = NotIn r.0 (head ∷ handles older) × Fresh head (r ∷ older) rest

-- The test has the resources `rs`, the newest one first.
Owns : TestState → List (ℕ × ℕ) → Type 0
Owns t rs =
    IsRing t.memory.nodes (t.test.resources ∷ handles rs)
    × (map t.memory.owned (handles rs) ≡ contents rs)

-- A node that is not in the ring may be initialised.
init-IsRing :
    (s : Store) (node a : ℕ) (ys : List ℕ)
    → NotIn node (a ∷ ys)
    → IsRing s (a ∷ ys)
    → IsRing (list_node_init s node) (a ∷ ys)
unfolding list_node_init
init-IsRing s node a ys n (c, d) = (
  Chain-frame s (list_node_init s node) a ys a (put_one s.next node node (a ∷ ys) n)
      (put_one s.prev node node (a ∷ ys) n) c,
  d,
)

owned_other :
    (owned : ℕ → ℕ) (node content : ℕ) (xs : List ℕ)
    → NotIn node xs
    → map {B = ℕ} (λ x. if x == node then content else owned x) xs ≡ map owned xs
owned_other owned node content [] n = refl
owned_other owned node content (x ∷ xs) (h, n) =
    ap₂ (◌∷◌) (rw h refl) (owned_other owned node content xs n)

create-Owns :
    (t : TestState) (handle content : ℕ) (rs : List (ℕ × ℕ))
    → NotIn handle (t.test.resources ∷ handles rs)
    → Owns t rs
    → Owns (after (htest_create_resource t (some handle) content)) ((handle, content) ∷ rs)
unfolding Owns htest_create_resource
create-Owns t handle content rs n (r, o) =
    let s = list_node_init t.memory.nodes handle in
    let head = t.test.resources in
    let same : (handle == handle) ≡ true = ground arith in
    (
      (list_add-list_add_tail s handle head [] (handles rs) n
          (init-IsRing t.memory.nodes handle head (handles rs) n r)).0,
      ap₂ (◌∷◌) (rw same refl) (owned_other t.memory.owned handle content (handles rs) n.1 ∙ o),
    )

create_all-Owns :
    (t : TestState) (rest rs : List (ℕ × ℕ))
    → Fresh t.test.resources rs rest
    → Owns t rs
    → Owns (create_all t rest) (newest_first rest rs)
      × ((create_all t rest).memory.destroyed ≡ t.memory.destroyed)
      × ((create_all t rest).memory.freed ≡ t.memory.freed)
      × ((create_all t rest).test ≡ t.test)
unfolding htest_create_resource
create_all-Owns t [] rs f o = (o, refl, refl, refl)
create_all-Owns t ((handle, content) ∷ rest) rs (n, f) o =
    create_all-Owns (after (htest_create_resource t (some handle) content)) rest
      ((handle, content) ∷ rs) f (create-Owns t handle content rs n o)

length-newest_first :
    (rest older : List (ℕ × ℕ))
    → length (handles (newest_first rest older)) ≡ length rest + length (handles older)
length-newest_first [] older = omega arith
length-newest_first (r ∷ rest) older = omega (arith, length-newest_first rest (r ∷ older))

init-Owns : (test : Htest) (name : List ℕ) (memory : Memory) → Owns (htest_init test name memory) []
unfolding Owns htest_init list_node_init
init-Owns test name memory =
    let same : (test.resources == test.resources) ≡ true = ground arith in
    (((rw same refl, rw same refl), (tt, tt)), refl)

-- The resources that are created in a test, on distinct handles, are destroyed with it: each once, its
-- handle freed, the last one first.
pub htest_destroy-htest_create_resource :
    (fuel : ℕ) (test : Htest) (name : List ℕ) (memory : Memory) (rs : List (ℕ × ℕ))
    → Fresh test.resources [] rs
    → length rs < fuel
    → let done = (htest_destroy fuel (create_all (htest_init test name memory) rs)).memory in
      (done.destroyed ≡ memory.destroyed ++ contents (newest_first rs []))
      × (done.freed ≡ memory.freed ++ handles (newest_first rs []))
      × IsRing done.nodes (test.resources ∷ [])
unfolding Owns htest_init
htest_destroy-htest_create_resource fuel test name memory rs f l =
    let t0 = htest_init test name memory in
    let t = create_all t0 rs in
    let ((r, o), d, e, same) = create_all-Owns t0 rs [] f (init-Owns test name memory) in
    let (p, q, ring) =
      htest_destroy-Destroyed fuel t (handles (newest_first rs [])) r
        (omega (arith, length-newest_first rs [])) in
    (
      p ∙ ap₂ (◌++◌) d o,
      q ∙ ap (◌++ handles (newest_first rs [])) e,
      subst (λ z. IsRing (htest_destroy fuel t).memory.nodes (z ∷ [])) (ap (λ z. z.resources) same)
          ring,
    )
