-- ===== src/Uri/Text.antt =====
-- Tests and loops of hlibc/uri.c on a text that ends: what they take, and what they leave.
use hlibc.Base.Parsed.{
  Parsed, accepted, ◌>>=◌, peek, Ensures, holds, refusal, blame, Ensures-bind, Ensures-map,
}
use hlibc.Base.{
  ℕ, zero, suc, ◌<◌, ◌≡◌, refl, ap, Bool, true, false, not, List, [], ◌∷◌, ◌++◌, Option, none, some,
  drop, get_or, ltb, ◌==◌, if◌then◌else◌, arith,
}
use hlibc.Inet.Ipv6.{isxdigit}
use hlibc.Uri.Parts.{
  Test, attempt, cset_at, is_pct_enc, in_cset, isdigit_at, isxdigit_at, span, expect, expect_test,
}

-- ASCII characters without `[`, and a terminator.
abbrev pub Text : List ℕ → Type 0
Text [] = ⊥
Text (c ∷ src) = (c < 128) × (c == b'[') ≡ false × ((c == 0) ≡ false → Text src)

-- What holds of a result, or else the text is not such a text.
abbrev pub On : {A : Type 0} → List ℕ → (A → Type 0) → Parsed A → Type 0
On src = Ensures (Text src → ⊥)

-- `t` is taken from the front of `src`, `r` is left.
abbrev pub Moved : List ℕ → List ℕ × List ℕ → Type 0
Moved src (t, r) = (src ≡ t ++ r) × (Text src → Text r)

-- The character that a function moves over is not the terminator.
abbrev pub Passed : List ℕ → List ℕ → Type 0
Passed src r = Text src → Text r

abbrev pub Tried : {A : Type 0} → (A → Type 0) → Option A → Type 0
Tried P none = Unit
Tried P (some a) = P a

module _ {A : Type 0} {P : A → Type 0} {F : Type 0} where
  pub Ensures-if :
      {x y : Parsed A}
      → (b : Bool) → (b ≡ true → Ensures F P x)
      → (b ≡ false → Ensures F P y)
      → Ensures F P (if b then x else y)
  Ensures-if true f g = f refl
  Ensures-if false f g = g refl

  pub Ensures-attempt : {m : Parsed A} → Ensures F P m → Ensures F (Tried P) (attempt m)
  Ensures-attempt (holds p) = holds p
  Ensures-attempt refusal = holds tt
  Ensures-attempt (blame f) = blame f

-- The same, of a function that goes on behind `src`.
pub On-behind :
    {A : Type 0} {P Q : A → Type 0} (src pos : List ℕ) {m : Parsed A}
    → Passed src pos
    → ((a : A) → P a → Q a)
    → On pos P m
    → On src Q m
On-behind src pos passed f e = Ensures-map (λ g t. g (passed t)) f e

-- A test that is false at the terminator.
abbrev pub Ends : List ℕ → Bool → Type 0
Ends src b = b ≡ true → Passed src (drop 1 src)

nonzero : (c : ℕ) (src : List ℕ) → (c == 0) ≡ false → Passed (c ∷ src) src
nonzero c src h t = t.2 h

pub isdigit_at-On : (src : List ℕ) → On src (Ends src) (isdigit_at src)
unfolding isdigit_at
isdigit_at-On [] = blame (λ t. t)
isdigit_at-On (c ∷ src) = holds (λ h. nonzero c src (ground (arith, h)))

pub isxdigit_at-On : (src : List ℕ) → On src (Ends src) (isxdigit_at src)
unfolding isxdigit_at
isxdigit_at-On [] = blame (λ t. t)
isxdigit_at-On (c ∷ src) = holds (λ h. nonzero c src (ground (arith, h)))

not_member : {n : ℕ} → n ≡ 0 → not (n == 0) ≡ true → ⊥
not_member z h = ground (arith, z, h)

pub cset_at-On : (cset src : List ℕ) → get_or cset 0 0 ≡ 0 → On src (Ends src) (cset_at cset src)
unfolding cset_at
cset_at-On cset [] z = blame (λ t. t)
cset_at-On cset (zero ∷ src) z = holds (λ h. absurd (not_member z h))
cset_at-On cset (suc c ∷ src) z =
    Ensures-if (ltb (suc c) 128) (λ l. holds (λ h. nonzero (suc c) src (ground arith)))
      (λ l. blame (λ t. absurd (ground (arith, l, t.0))))

-- The two characters behind `%`.
digits-On :
    (c : ℕ) (src : List ℕ)
    → (c == 0) ≡ false
    → On (c ∷ src) (Ends (c ∷ src)) (
        peek src >>= λ a.
        if isxdigit a then (peek (drop 1 src) >>= λ b. accepted (isxdigit b)) else accepted false)
digits-On c [] z = blame (λ t. t.2 z)
digits-On c (a ∷ []) z =
    Ensures-if (isxdigit a) (λ h. blame (λ t. (t.2 z).2 (ground (arith, h))))
      (λ h. holds (λ e. nonzero c (a ∷ []) z))
digits-On c (a ∷ b ∷ src) z =
    Ensures-if (isxdigit a) (λ h. holds (λ e. nonzero c (a ∷ b ∷ src) z))
      (λ h. holds (λ e. nonzero c (a ∷ b ∷ src) z))

pub is_pct_enc-On : (src : List ℕ) → On src (Ends src) (is_pct_enc src)
unfolding is_pct_enc
is_pct_enc-On [] = blame (λ t. t)
is_pct_enc-On (c ∷ src) =
    Ensures-if (c == b'%') (λ h. digits-On c src (ground (arith, h)))
      (λ h. holds (λ g. absurd (ground (arith, g))))

pub in_cset-On : (cset src : List ℕ) → get_or cset 0 0 ≡ 0 → On src (Ends src) (in_cset cset src)
unfolding in_cset
in_cset-On cset src z =
    Ensures-bind (cset_at-On cset src z)
      (λ b h. Ensures-if b (λ g. holds (λ e. h g)) (λ g. is_pct_enc-On src))

-- `while (test(pos)) pos++` on a text ends in the text.
pub span-Moved :
    (test : Test) (src : List ℕ)
    → ((pos : List ℕ) → On pos (Ends pos) (test pos))
    → On src (Moved src) (span test src)
unfolding span
span-Moved test [] h = blame (λ t. t)
span-Moved test (c ∷ src) h = Ensures-bind (h (c ∷ src)) (λ b e.
    Ensures-if b
      (λ g.
        Ensures-bind (On-behind (c ∷ src) src (e g) (λ a p. p) (span-Moved test src h))
          (λ (t, r) (q, n). holds (ap (c ∷◌) q, λ t. n (e g t))))
      (λ g. holds (refl, λ t. t)))

-- `if (*pos++ != c) return EINVAL`, for a `c` that is no terminator.
pub expect-Moved :
    (c : ℕ) (src : List ℕ)
    → (c == 0) ≡ false
    → On src (λ r. (src ≡ c ∷ r) × Passed src r) (expect c src)
unfolding expect
expect-Moved c [] z = blame (λ t. t)
expect-Moved c (x ∷ src) z =
    Ensures-if (x == c)
      (λ h.
        let same : x ≡ c = ground (arith, h) in
        holds (ap (◌∷ src) same, nonzero x src (ground (arith, h, z))))
      (λ h. refusal)

pub expect_test-Passed :
    (test : Test) (src : List ℕ)
    → On src (Ends src) (test src)
    → On src (Passed src) (expect_test test src)
unfolding expect_test
expect_test-Passed test src h =
    Ensures-bind h (λ b e. Ensures-if b (λ g. holds (e g)) (λ g. refusal))
