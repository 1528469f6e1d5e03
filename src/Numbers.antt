-- ===== src/Numbers.antt =====
-- hlibc/math.c: `gcd` and `lcm` of ints. Where an int overflows, which C leaves undefined, the outcome
-- is `fault`.
pub mod Gcd
mod Examples
use hlibc.Base.{
  ℕ, zero, suc, ◌+◌, ◌*◌, ◌/◌, ◌%◌, ◌^◌, Outcome, done, fault, ◌>>=◌, ℤ, pos, negsuc, ltb, ◌==◌,
  if◌then◌else◌,
}

abbrev pub magnitude : ℤ → ℕ
magnitude (pos n) = n
magnitude (negsuc n) = n + 1

unfoldable pub abs : ℤ → Outcome ℕ
abs x = if ltb (magnitude x) (2 ^ 31) then done (magnitude x) else fault

-- The loop, on fuel; `b + 1` is enough, since `b` gets smaller in every round.
unfoldable pub gcd_loop : ℕ → ℕ → ℕ → ℕ
gcd_loop zero a b = a
gcd_loop (suc fuel) a zero = a
gcd_loop (suc fuel) a (suc b) = gcd_loop fuel (suc b) (a % suc b)

-- The larger number first.
unfoldable pub ordered : ℕ → ℕ → ℕ
ordered a b = if ltb a b then gcd_loop (a + 1) b a else gcd_loop (b + 1) a b

unfoldable pub gcd : ℤ → ℤ → Outcome ℕ
gcd a b = abs a >>= λ a'. abs b >>= λ b'. done (ordered a' b')

-- `abs(a * b)` is `fault` too where the product overflows: then it is not below 2^31 either.
unfoldable pub lcm : ℤ → ℤ → Outcome ℕ
lcm a b = gcd a b >>= λ c.
    if ltb (magnitude a * magnitude b) (2 ^ 31)
    then done (magnitude a * magnitude b / (c + (if c == 0 then 1 else 0)))
    else fault
