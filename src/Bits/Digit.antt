-- ===== src/Bits/Digit.antt =====
-- The binary digits of a number, what `&`, `|` and `^` do to each, and equality digit by digit.
use Prim.Native.Nat.{digits, differ, bit_and-bitwise, bit_or-bitwise, bit_xor-bitwise}
use native.Mathlib.Nat.{pow-suc, pow-succ', div-div-eq-div-mul}
use hlibc.Base.{
  ℕ, zero, suc, ◌+◌, ◌*◌, ◌/◌, ◌%◌, ◌^◌, ◌≤◌, ◌<◌, min, max, bit_and, bit_or, bit_xor, ◌≡◌, refl,
  sym, ap, ◌∙◌, arith,
}

-- Digit `i` of `x`, the lowest first.
unfoldable pub bit : ℕ → ℕ → ℕ
bit x zero = x % 2
bit x (suc i) = bit (x / 2) i

pub bit-lt : (x i : ℕ) → bit x i < 2
unfolding bit
bit-lt x zero = omega arith
bit-lt x (suc i) = bit-lt (x / 2) i

pub bit_lowest : (x : ℕ) → bit x 0 ≡ x % 2
unfolding bit
bit_lowest x = refl

pub zero-bit : (i : ℕ) → bit 0 i ≡ 0
unfolding bit
zero-bit zero = refl
zero-bit (suc i) = zero-bit i

-- A recursion on digits acts on each digit by itself.
module _ (z : ℕ → ℕ) (f : ℕ → ℕ → ℕ) (ends : (y i : ℕ) → bit (z y) i ≡ f 0 (bit y i))
    (small : (x y : ℕ) → x < 2 → y < 2 → f x y < 2) where
  bit-digits : (n a b i : ℕ) → a ≤ n → bit (digits z f n a b) i ≡ f (bit a i) (bit b i)
  unfolding bit
  bit-digits zero zero b i h = rw zero-bit (ends b i)
  bit-digits zero (suc a) b i h = absurd (omega arith)
  bit-digits (suc n) zero b i h = rw zero-bit (ends b i)
  bit-digits (suc n) (suc a) b zero h =
      omega (arith, small (suc a % 2) (b % 2) (omega arith) (omega arith))
  bit-digits (suc n) (suc a) b (suc i) h =
      let low = small (suc a % 2) (b % 2) (omega arith) (omega arith) in
      let rest = digits z f n (suc a / 2) (b / 2) in
      let halved : (rest * 2 + f (suc a % 2) (b % 2)) / 2 ≡ rest = omega arith in
      rw halved (bit-digits n (suc a / 2) (b / 2) i (omega arith))

differ-lt : (x y : ℕ) → x < 2 → y < 2 → differ x y < 2
differ-lt zero y p q = q
differ-lt (suc zero) zero p q = p
differ-lt (suc zero) (suc y) p q = omega arith
differ-lt (suc (suc x)) y p q = absurd (omega arith)

pub differ_lem : (x y : ℕ) → x < 2 → y < 2 → differ x y ≡ (x + y) % 2
differ_lem zero y p q = omega arith
differ_lem (suc zero) zero p q = refl
differ_lem (suc zero) (suc zero) p q = refl
differ_lem (suc zero) (suc (suc y)) p q = absurd (omega arith)
differ_lem (suc (suc x)) y p q = absurd (omega arith)

pub bit-bit_or : (a b i : ℕ) → bit (bit_or a b) i ≡ max (bit a i) (bit b i)
bit-bit_or a b i =
    rw bit_or-bitwise
      (bit-digits (λ y. y) max (λ y j. omega arith) (λ x y p q. omega arith) a a b i (omega arith))

pub bit-bit_and : (a b i : ℕ) → bit (bit_and a b) i ≡ min (bit a i) (bit b i)
bit-bit_and a b i = rw bit_and-bitwise (
    bit-digits (λ y. 0) min (λ y j. omega (arith, zero-bit j)) (λ x y p q. omega arith) a a b i
      (omega arith))

pub bit-bit_xor : (a b i : ℕ) → bit (bit_xor a b) i ≡ (bit a i + bit b i) % 2
bit-bit_xor a b i = rw bit_xor-bitwise (
    bit-digits (λ y. y) differ (λ y j. refl) differ-lt a a b i (omega arith)
    ∙ differ_lem (bit a i) (bit b i) (bit-lt a i) (bit-lt b i))

-- Two numbers with the same digits are equal.
bit_ext_below : (n x y : ℕ) → x ≤ n → y ≤ n → ((i : ℕ) → bit x i ≡ bit y i) → x ≡ y
unfolding bit
bit_ext_below zero x y p q h = omega arith
bit_ext_below (suc n) x y p q h =
    omega (arith, h 0, bit_ext_below n (x / 2) (y / 2) (omega arith) (omega arith) (λ i. h (suc i)))

pub bit_ext : (x y : ℕ) → ((i : ℕ) → bit x i ≡ bit y i) → x ≡ y
bit_ext x y h = bit_ext_below (x + y) x y (omega arith) (omega arith) h

-- A number below `2 ^ n` has no digit from `n` on, and the other way round.
pub bit_high : (n x i : ℕ) → x < 2 ^ n → n ≤ i → bit x i ≡ 0
unfolding bit
bit_high zero x i p q = let e : x ≡ 0 = omega arith in rw e (zero-bit i)
bit_high (suc n) x zero p q = absurd (omega arith)
bit_high (suc n) x (suc i) p q = bit_high n (x / 2) i (omega (arith, pow-suc 2 n)) (omega arith)

pub lt_of_bits : (n x : ℕ) → ((i : ℕ) → n ≤ i → bit x i ≡ 0) → x < 2 ^ n
unfolding bit
lt_of_bits zero x h =
    let e : x ≡ 0 = bit_ext x 0 (λ i. h i (omega arith) ∙ sym (zero-bit i)) in omega arith
lt_of_bits (suc n) x h =
    omega (arith, pow-suc 2 n, lt_of_bits n (x / 2) (λ i p. h (suc i) (omega arith)))

pub bit_ext_lt : (n x y : ℕ) → x < 2 ^ n → y < 2 ^ n → ((i : ℕ) → i < n → bit x i ≡ bit y i) → x ≡ y
unfolding bit
bit_ext_lt zero x y p q h = omega arith
bit_ext_lt (suc n) x y p q h =
    let p' : x / 2 < 2 ^ n = omega (arith, pow-suc 2 n) in
    let q' : y / 2 < 2 ^ n = omega (arith, pow-suc 2 n) in
    let low : x % 2 ≡ y % 2 = h 0 (omega arith) in
    omega (arith, bit_ext_lt n (x / 2) (y / 2) p' q' (λ i l. h (suc i) (omega arith)))

-- Shifts.
pub bit-div_pow : (x k i : ℕ) → bit (x / 2 ^ k) i ≡ bit x (k + i)
unfolding bit
bit-div_pow x zero i =
    let whole : x / 1 ≡ x = omega arith in let here : 0 + i ≡ i = omega arith in rw (whole, here)
bit-div_pow x (suc k) i =
    let halved : x / 2 ^ suc k ≡ x / 2 / 2 ^ k = rw (pow-succ', div-div-eq-div-mul) in
    let shifted : suc k + i ≡ suc (k + i) = omega arith in
    rw (halved, shifted) (bit-div_pow (x / 2) k i)

pub double-pow : (x k : ℕ) → x * 2 ^ suc k ≡ 2 * (x * 2 ^ k)
double-pow x k = omega (arith, ap (λ (t : ℕ). x * t) (pow-suc 2 k))

pub bit-mul_pow_low : (x k i : ℕ) → i < k → bit (x * 2 ^ k) i ≡ 0
unfolding bit
bit-mul_pow_low x zero i h = absurd (omega arith)
bit-mul_pow_low x (suc k) zero h = omega (arith, double-pow x k)
bit-mul_pow_low x (suc k) (suc i) h =
    let halved : x * 2 ^ suc k / 2 ≡ x * 2 ^ k = omega (arith, double-pow x k) in
    rw halved (bit-mul_pow_low x k i (omega arith))

pub bit-mul_pow : (x k i : ℕ) → bit (x * 2 ^ k) (k + i) ≡ bit x i
unfolding bit
bit-mul_pow x zero i =
    let once : x * 1 ≡ x = omega arith in let here : 0 + i ≡ i = omega arith in rw (once, here)
bit-mul_pow x (suc k) i =
    let halved : x * 2 ^ suc k / 2 ≡ x * 2 ^ k = omega (arith, double-pow x k) in
    let shifted : suc k + i ≡ suc (k + i) = omega arith in
    rw shifted (ap (λ t. bit t (k + i)) halved ∙ bit-mul_pow x k i)
