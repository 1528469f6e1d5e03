-- ===== src/Base/Parsed.antt =====
-- What a parser returns: a value, a refusal (`EINVAL`), or nothing that C defines.
use mathlib.Core.List.{List, [], ◌∷◌}
use mathlib.Core.Path.{◌≡◌, subst}
use Prim.Native.Nat.{ℕ}

pub data Parsed (A : Type 0) : Type 0 where
  accepted : A → Parsed A
  refused : Parsed A
  undefined : Parsed A

infixl 5 ◌>>=◌
abbrev pub ◌>>=◌ : {A B : Type 0} → Parsed A → (A → Parsed B) → Parsed B
accepted a >>= k = k a
refused >>= k = refused
undefined >>= k = undefined

-- `*pos`.
abbrev pub peek : List ℕ → Parsed ℕ
peek [] = undefined
peek (c ∷ pos) = accepted c

-- A value that is accepted has `P`, and what is undefined is so for the reason `F`.
pub data Ensures {A : Type 0} (F : Type 0) (P : A → Type 0) : Parsed A → Type 0 where
  holds : {a : A} → P a → Ensures F P (accepted a)
  refusal : Ensures F P refused
  blame : F → Ensures F P undefined

module _ {A B : Type 0} {F : Type 0} where
  pub Ensures-bind :
      {P : A → Type 0} {Q : B → Type 0} {m : Parsed A} {k : A → Parsed B}
      → Ensures F P m
      → ((a : A) → P a → Ensures F Q (k a))
      → Ensures F Q (m >>= k)
  Ensures-bind (holds p) next = next _ p
  Ensures-bind refusal next = refusal
  Ensures-bind (blame f) next = blame f

module _ {A : Type 0} where
  pub Ensures-map :
      {F G : Type 0} {P Q : A → Type 0} {m : Parsed A}
      → (F → G)
      → ((a : A) → P a → Q a)
      → Ensures F P m
      → Ensures G Q m
  Ensures-map f g (holds p) = holds (g _ p)
  Ensures-map f g refusal = refusal
  Ensures-map f g (blame x) = blame (f x)

-- What holds of a value that a parser returns.
abbrev pub OnAccepted : {A : Type 0} → (A → Type 0) → Parsed A → Type 0
OnAccepted P (accepted a) = P a
OnAccepted P refused = Unit
OnAccepted P undefined = Unit

abbrev pub OnUndefined : {A : Type 0} → Type 0 → Parsed A → Type 0
OnUndefined F (accepted a) = Unit
OnUndefined F refused = Unit
OnUndefined F undefined = F

module _ {A : Type 0} {F : Type 0} {P : A → Type 0} where
  Ensures-accepted : {m : Parsed A} → Ensures F P m → OnAccepted P m
  Ensures-accepted (holds p) = p
  Ensures-accepted refusal = tt
  Ensures-accepted (blame f) = tt

  Ensures-undefined : {m : Parsed A} → Ensures F P m → OnUndefined F m
  Ensures-undefined (holds p) = tt
  Ensures-undefined refusal = tt
  Ensures-undefined (blame f) = f

  pub accepted-Ensures : {m : Parsed A} {a : A} → Ensures F P m → m ≡ accepted a → P a
  accepted-Ensures e q = subst (OnAccepted P) q (Ensures-accepted e)

  pub undefined-Ensures : {m : Parsed A} → Ensures F P m → m ≡ undefined → F
  undefined-Ensures e q = subst (OnUndefined F) q (Ensures-undefined e)

-- Of any result nothing is claimed.
pub Ensures-any : {A : Type 0} (m : Parsed A) → Ensures Unit (λ a. Unit) m
Ensures-any (accepted a) = holds tt
Ensures-any refused = refusal
Ensures-any undefined = blame tt
