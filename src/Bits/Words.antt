-- ===== src/Bits/Words.antt =====
-- The operators of C on unsigned words: shifts and sums that wrap, and the bounds and laws of `&`,
-- `|` and `^` on words.
use native.Mathlib.Nat.{pow-suc, one-le-pow, mod-lt, div-add-mod'}
use native.Mathlib.Decide.{dec_lt}
use hlibc.Base.{
  ℕ, zero, suc, ◌+◌, ◌-◌, ◌*◌, ◌/◌, ◌%◌, ◌^◌, ◌<◌, max, bit_and, bit_or, bit_xor, ◌≡◌, ap, arith,
}
use hlibc.Bits.Digit.{
  bit, bit-lt, zero-bit, bit-bit_or, bit-bit_and, bit-bit_xor, bit_ext, bit_high, lt_of_bits,
  bit-mul_pow_low, double-pow,
}

-- `x << k` in a `w`-bit word and `x >> k`.
abbrev pub shl : ℕ → ℕ → ℕ → ℕ
shl w x k = x * 2 ^ k % 2 ^ w

abbrev pub shr : ℕ → ℕ → ℕ
shr x k = x / 2 ^ k

-- `~x` in a `w`-bit word.
abbrev pub bit_not : ℕ → ℕ → ℕ
bit_not w x = bit_xor x (2 ^ w - 1)

pub bit_or-lt : (n a b : ℕ) → a < 2 ^ n → b < 2 ^ n → bit_or a b < 2 ^ n
bit_or-lt n a b p q =
    lt_of_bits n (bit_or a b)
      (λ i h. omega (arith, bit-bit_or a b i, bit_high n a i p h, bit_high n b i q h))

pub bit_xor-lt : (n a b : ℕ) → a < 2 ^ n → b < 2 ^ n → bit_xor a b < 2 ^ n
bit_xor-lt n a b p q =
    lt_of_bits n (bit_xor a b)
      (λ i h. omega (arith, bit-bit_xor a b i, bit_high n a i p h, bit_high n b i q h))

-- `a ^ b ^ b` is `a`.
pub bit_xor_cancel : (a b : ℕ) → bit_xor (bit_xor a b) b ≡ a
bit_xor_cancel a b =
    bit_ext _ a
      (λ i. omega (arith, bit-bit_xor (bit_xor a b) b i, bit-bit_xor a b i, bit-lt a i, bit-lt b i))

-- Fields: `(q << k) | r` is a sum when `r` fits `k` digits.
bit-fields : (k q r i : ℕ) → r < 2 ^ k → bit (q * 2 ^ k + r) i ≡ max (bit (q * 2 ^ k) i) (bit r i)
unfolding bit
bit-fields zero q r i h =
    let none_left : r ≡ 0 = omega arith in
    let whole : q * 1 + 0 ≡ q * 1 = omega arith in rw (none_left, whole) (omega (arith, zero-bit i))
bit-fields (suc k) q r zero h = omega (arith, double-pow q k)
bit-fields (suc k) q r (suc i) h =
    let sum : (q * 2 ^ suc k + r) / 2 ≡ q * 2 ^ k + r / 2 = omega (arith, double-pow q k) in
    let half : q * 2 ^ suc k / 2 ≡ q * 2 ^ k = omega (arith, double-pow q k) in
    rw (sum, half) (bit-fields k q (r / 2) i (omega (arith, pow-suc 2 k)))

pub bit_or_fields : (k q r : ℕ) → r < 2 ^ k → bit_or (q * 2 ^ k) r ≡ q * 2 ^ k + r
bit_or_fields k q r h =
    bit_ext _ _ (λ i. omega (arith, bit-bit_or (q * 2 ^ k) r i, bit-fields k q r i h))

-- The low digits: `x & (2^k - 1)` is a remainder.
pub bit-mask : (k i : ℕ) → i < k → bit (2 ^ k - 1) i ≡ 1
unfolding bit
bit-mask zero i h = absurd (omega arith)
bit-mask (suc k) zero h = omega (arith, pow-suc 2 k, one-le-pow k 2)
bit-mask (suc k) (suc i) h =
    let half : (2 ^ suc k - 1) / 2 ≡ 2 ^ k - 1 = omega (arith, pow-suc 2 k, one-le-pow k 2) in
    rw half (bit-mask k i (omega arith))

pub pow-pos : (k : ℕ) → 0 < 2 ^ k
pow-pos k = one-le-pow k 2 (omega arith)

pub bit-mod_pow : (k x i : ℕ) → i < k → bit (x % 2 ^ k) i ≡ bit x i
bit-mod_pow k x i h =
    let parts : x / 2 ^ k * 2 ^ k + x % 2 ^ k ≡ x = div-add-mod' x (2 ^ k) in
    omega (
      arith,
      ap (λ t. bit t i) parts,
      bit-fields k (x / 2 ^ k) (x % 2 ^ k) i (mod-lt x (pow-pos k)),
      bit-mul_pow_low (x / 2 ^ k) k i h,
    )

pub bit_and_mask : (k x : ℕ) → bit_and x (2 ^ k - 1) ≡ x % 2 ^ k
bit_and_mask k x = bit_ext _ _ (λ i. elim (dec_lt i k) [
  | yes below ↦
      omega (
        arith,
        bit-bit_and x (2 ^ k - 1) i,
        bit-mask k i below,
        bit-mod_pow k x i below,
        bit-lt x i,
      )
  | no above ↦ omega (
    arith,
    bit-bit_and x (2 ^ k - 1) i,
    bit_high k (2 ^ k - 1) i (omega (arith, pow-pos k)) (omega arith),
    bit_high k (x % 2 ^ k) i (mod-lt x (pow-pos k)) (omega arith),
  )
])
