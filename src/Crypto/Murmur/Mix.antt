-- ===== src/Crypto/Murmur/Mix.antt =====
-- hlibc/crypto/murmur.c: the last mixing of the hash, `murmur_fmix32`.
use hlibc.Base.{ℕ, zero, suc, ◌+◌, ◌^◌, ◌≤◌, ◌<◌, ◌≡◌, ◌≢◌, sym, ap, ◌∙◌, arith}
use hlibc.Bits.{
  bit, bit-lt, bit_high, bit_ext_lt, bit-bit_xor, bit-div_pow, bit_xor-lt, lt_of_bits, shr,
}
use hlibc.Crypto.Murmur.{xor_shift, times, murmur_fmix32}

module _ (n x y : ℕ) (pos : 0 < n) (a : x < 2 ^ 32) (b : y < 2 ^ 32)
    (e : xor_shift n x ≡ xor_shift n y) where
  -- The digits agree, from the highest one on down.
  xor_shift-digits : (fuel i : ℕ) → 32 ≤ i + fuel → bit x i ≡ bit y i
  xor_shift-digits zero i h =
      bit_high 32 x i a (omega arith) ∙ sym (bit_high 32 y i b (omega arith))
  xor_shift-digits (suc fuel) i h = omega (
    arith,
    xor_shift-digits fuel (n + i) (omega arith),
    ap (λ t. bit t i) e,
    bit-bit_xor x (shr x n) i,
    bit-bit_xor y (shr y n) i,
    bit-div_pow x n i,
    bit-div_pow y n i,
    bit-lt x i,
    bit-lt y i,
  )

  xor_shift-injective : x ≡ y
  xor_shift-injective = bit_ext_lt 32 x y a b (λ i l. xor_shift-digits 32 i (omega arith))

xor_shift-lt : (n h : ℕ) → h < 2 ^ 32 → xor_shift n h < 2 ^ 32
xor_shift-lt n h l =
    bit_xor-lt 32 h (shr h n) l
      (lt_of_bits 32 (shr h n) (λ i k. bit-div_pow h n i ∙ bit_high 32 h (n + i) l (omega arith)))

-- The factors are odd, and have an inverse.
first-injective :
    (x y : ℕ) → x < 2 ^ 32 → y < 2 ^ 32 → times 0x85EBCA6B x ≡ times 0x85EBCA6B y → x ≡ y
first-injective x y a b e = omega arith

second-injective :
    (x y : ℕ) → x < 2 ^ 32 → y < 2 ^ 32 → times 0xC2B2AE35 x ≡ times 0xC2B2AE35 y → x ≡ y
second-injective x y a b e = omega arith

pub times-lt : (c h : ℕ) → times c h < 2 ^ 32
times-lt c h = omega arith

-- Two words below 2^32 that differ are mixed to different words.
pub murmur_fmix32-injective :
    (x y : ℕ) → x < 2 ^ 32 → y < 2 ^ 32 → x ≢ y → murmur_fmix32 x ≢ murmur_fmix32 y
unfolding murmur_fmix32
murmur_fmix32-injective x y a b differ e =
    let x1 = xor_shift 16 x in
    let y1 = xor_shift 16 y in
    let x2 = times 0x85EBCA6B x1 in
    let y2 = times 0x85EBCA6B y1 in
    let x3 = xor_shift 13 x2 in
    let y3 = xor_shift 13 y2 in
    let bx = times-lt 0x85EBCA6B x1 in
    let by = times-lt 0x85EBCA6B y1 in
    let e4 =
      xor_shift-injective 16 (times 0xC2B2AE35 x3) (times 0xC2B2AE35 y3) (omega arith) (omega arith)
        (omega arith) e in
    let e3 = second-injective x3 y3 (xor_shift-lt 13 x2 bx) (xor_shift-lt 13 y2 by) e4 in
    let e2 = xor_shift-injective 13 x2 y2 (omega arith) bx by e3 in
    let e1 = first-injective x1 y1 (xor_shift-lt 16 x a) (xor_shift-lt 16 y b) e2 in
    differ (xor_shift-injective 16 x y (omega arith) a b e1)

pub murmur_fmix32-lt : (h : ℕ) → murmur_fmix32 h < 2 ^ 32
unfolding murmur_fmix32
murmur_fmix32-lt h =
    let before = xor_shift 13 (times 0x85EBCA6B (xor_shift 16 h)) in
    xor_shift-lt 16 (times 0xC2B2AE35 before) (times-lt 0xC2B2AE35 before)
