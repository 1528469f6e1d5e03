-- ===== src/Base/Reads.antt =====
-- Outcomes. `fault` is what C leaves undefined: a read outside a buffer, or an overflow of an int.
use Prim.Native.Nat.{ℕ, ◌^◌}
use mathlib.Core.Bool.{Bool, true, false}
use native.Mathlib.Omega.{arith}
use hlibc.Base.Tests.{◌==◌, ltb, if◌then◌else◌}
use mathlib.Core.Path.{◌≡◌}
use mathlib.Core.Option.{Option, none, some}
use mathlib.Core.List.{List}
use hlibc.Base.Lists.{get_elem?}

pub data Outcome {ℓ} (A : Type ℓ) : Type ℓ where
  done : A → Outcome A
  fault : Outcome A

infixl 5 ◌>>=◌
abbrev pub ◌>>=◌ {ℓ κ} : {A : Type ℓ} {B : Type κ} → Outcome A → (A → Outcome B) → Outcome B
done a >>= k = k a
fault >>= k = fault

-- What follows a step of a counter of type `int` to `v`, which may overflow.
abbrev pub int_step {ℓ} : {A : Type ℓ} → ℕ → Outcome A → Outcome A
int_step v next = if ltb v (2 ^ 31) then next else fault

-- `buf[i]`.
abbrev pub or_fault {ℓ} : {A : Type ℓ} → Option A → Outcome A
or_fault none = fault
or_fault (some x) = done x

unfoldable pub read : List ℕ → ℕ → Outcome ℕ
read buf i = or_fault (get_elem? buf i)

-- What the functions of the library return: 0 or an `errno` value.
pub data Status : Type 0 where
  success einval enomem : Status

-- An `int` of a table or of a comparison; `negsuc n` is -(n + 1).
pub data ℤ : Type 0 where
  pos : ℕ → ℤ
  negsuc : ℕ → ℤ

-- Whether an entry is the number `x`.
unfoldable pub is_value : ℤ → ℕ → Bool
is_value (pos n) x = n == x
is_value (negsuc n) x = false

pub eq_of_is_value : (v : ℤ) (x : ℕ) → is_value v x ≡ true → v ≡ pos x
unfolding is_value
eq_of_is_value (pos n) x h = ground arith
eq_of_is_value (negsuc n) x h = ground arith
