-- ===== src/Bits/Not.antt =====
-- The complement of a word.
use native.Mathlib.Nat.{pow-suc, one-le-pow}
use hlibc.Base.{ℕ, zero, suc, ◌+◌, ◌-◌, ◌/◌, ◌%◌, ◌^◌, ◌<◌, bit_xor, ◌≡◌, refl, ap, arith}
use hlibc.Bits.Digit.{bit, bit-lt, bit_lowest, bit-bit_xor, bit_ext, bit-div_pow}
use hlibc.Bits.Words.{bit_not, bit-mask}

bit-half : (x i : ℕ) → bit (x / 2) i ≡ bit x (1 + i)
bit-half x i = bit-div_pow x 1 i

pub bit_xor_half : (a b : ℕ) → bit_xor a b / 2 ≡ bit_xor (a / 2) (b / 2)
bit_xor_half a b = bit_ext _ _ (λ i. omega (
  arith,
  bit-half (bit_xor a b) i,
  bit-bit_xor a b (1 + i),
  bit-bit_xor (a / 2) (b / 2) i,
  bit-half a i,
  bit-half b i,
))

pub bit_xor_lowest : (a b : ℕ) → bit_xor a b % 2 ≡ (a % 2 + b % 2) % 2
bit_xor_lowest a b =
    omega (arith, bit_lowest (bit_xor a b), bit-bit_xor a b 0, bit_lowest a, bit_lowest b)

-- `~x` is what is missing to the greatest word.
pub bit_not-sub : (w x : ℕ) → x < 2 ^ w → bit_not w x + x ≡ 2 ^ w - 1
bit_not-sub zero x h = let none_left : x ≡ 0 = omega arith in rw none_left refl
bit_not-sub (suc w) x h =
    let half : (2 ^ suc w - 1) / 2 ≡ 2 ^ w - 1 = omega (arith, pow-suc 2 w, one-le-pow w 2) in
    omega (
      arith,
      pow-suc 2 w,
      one-le-pow w 2,
      bit_xor_half x (2 ^ suc w - 1),
      ap (bit_xor (x / 2)) half,
      bit_xor_lowest x (2 ^ suc w - 1),
      bit_not-sub w (x / 2) (omega (arith, pow-suc 2 w)),
    )

pub bit-bit_not : (w x i : ℕ) → i < w → bit (bit_not w x) i ≡ 1 - bit x i
bit-bit_not w x i h = omega (arith, bit-bit_xor x (2 ^ w - 1) i, bit-mask w i h, bit-lt x i)

pub bit_xor_not_both : (w a b : ℕ) → bit_xor (bit_not w a) (bit_not w b) ≡ bit_xor a b
bit_xor_not_both w a b = bit_ext _ _ (λ i. omega (
  arith,
  bit-bit_xor (bit_not w a) (bit_not w b) i,
  bit-bit_xor a (2 ^ w - 1) i,
  bit-bit_xor b (2 ^ w - 1) i,
  bit-bit_xor a b i,
  bit-lt a i,
  bit-lt b i,
  bit-lt (2 ^ w - 1) i,
))

pub bit_xor_not_left : (w a b : ℕ) → bit_xor (bit_not w a) b ≡ bit_not w (bit_xor a b)
bit_xor_not_left w a b = bit_ext _ _ (λ i. omega (
  arith,
  bit-bit_xor (bit_not w a) b i,
  bit-bit_xor a (2 ^ w - 1) i,
  bit-bit_xor (bit_xor a b) (2 ^ w - 1) i,
  bit-bit_xor a b i,
  bit-lt a i,
  bit-lt b i,
  bit-lt (2 ^ w - 1) i,
))
