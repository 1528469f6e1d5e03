-- ===== src/Linked/Ring.antt =====
-- Rings of nodes: the abstract view of a circular list.
use mathlib.Core.Path.{subst}
use mathlib.Core.List.{append_assoc, append-nil}
use hlibc.Base.{ℕ, ◌≡◌, sym, ◌∙◌, false, List, [], ◌∷◌, ◌++◌, All, ◌==◌, arith}
use hlibc.Linked.{Store}

-- `a` is followed by `b` in both directions.
abbrev pub Link : Store → ℕ → ℕ → Type 0
Link s a b = (s.next a ≡ b) × (s.prev b ≡ a)

-- From `a` over the nodes `ys` to `e`.
abbrev pub Chain : Store → ℕ → List ℕ → ℕ → Type 0
Chain s a [] e = Link s a e
Chain s a (b ∷ ys) e = Link s a b × Chain s b ys e

abbrev pub NotIn : ℕ → List ℕ → Type 0
NotIn x = All (λ y. (y == x) ≡ false)

abbrev pub Distinct : List ℕ → Type 0
Distinct [] = Unit
Distinct (x ∷ xs) = NotIn x xs × Distinct xs

-- The nodes of a circular list, from any of them on.
abbrev pub IsRing : Store → List ℕ → Type 0
IsRing s [] = Unit
IsRing s (a ∷ ys) = Chain s a ys a × Distinct (a ∷ ys)

-- A chain stays when its pointers do.
pub Chain-frame :
    (s t : Store) (a : ℕ) (ys : List ℕ) (e : ℕ)
    → All (λ x. t.next x ≡ s.next x) (a ∷ ys)
    → All (λ x. t.prev x ≡ s.prev x) (e ∷ ys)
    → Chain s a ys e
    → Chain t a ys e
Chain-frame s t a [] e (n, ns) (p, ps) (h, k) = (n ∙ h, p ∙ k)
Chain-frame s t a (b ∷ ys) e (n, ns) (p, (q, ps)) ((h, k), c) =
    ((n ∙ h, q ∙ k), Chain-frame s t b ys e ns (p, ps) c)

-- A node more at the end.
Chain-snoc :
    (s : Store) (a : ℕ) (ys : List ℕ) (e f : ℕ)
    → Chain s a ys e
    → Link s e f
    → Chain s a (ys ++ e ∷ []) f
Chain-snoc s a [] e f c l = (c, l)
Chain-snoc s a (b ∷ ys) e f (h, c) l = (h, Chain-snoc s b ys e f c l)

NotIn-snoc : (x : ℕ) (ys : List ℕ) (a : ℕ) → NotIn x ys → (a == x) ≡ false → NotIn x (ys ++ a ∷ [])
NotIn-snoc x [] a h n = (n, tt)
NotIn-snoc x (y ∷ ys) a (h, hs) n = (h, NotIn-snoc x ys a hs n)

Distinct-snoc : (ys : List ℕ) (a : ℕ) → NotIn a ys → Distinct ys → Distinct (ys ++ a ∷ [])
Distinct-snoc [] a n d = (tt, tt)
Distinct-snoc (y ∷ ys) a (n, ns) (h, d) =
    (NotIn-snoc y ys a h (ground (arith, n)), Distinct-snoc ys a ns d)

-- A ring from the next node on.
turn : (s : Store) (a : ℕ) (ys : List ℕ) → IsRing s (a ∷ ys) → IsRing s (ys ++ a ∷ [])
turn s a [] r = r
turn s a (b ∷ ys) ((l, c), (n, d)) = (Chain-snoc s b ys a b c l, Distinct-snoc (b ∷ ys) a n d)

-- A ring from any other node on.
pub rotate : (s : Store) (xs ys : List ℕ) → IsRing s (xs ++ ys) → IsRing s (ys ++ xs)
rotate s [] ys r = subst (IsRing s) (sym (append-nil ys)) r
rotate s (a ∷ xs) ys r =
    let r1 = subst (IsRing s) (append_assoc xs ys (a ∷ [])) (turn s a (xs ++ ys) r) in
    subst (IsRing s) (append_assoc ys (a ∷ []) xs) (rotate s xs (ys ++ a ∷ []) r1)
