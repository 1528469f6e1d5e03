-- ===== src/Bit/Rotate.antt =====
-- include/hlibc/bit.h: rotations, at the widths 8, 16, 32 and 64.
use native.Mathlib.Decide.{dec_lt}
use native.Mathlib.Nat.{mod-lt, mod-eq_of_lt, mod-add-mod, add-mod_right}
use hlibc.Base.{ℕ, ◌+◌, ◌-◌, ◌*◌, ◌/◌, ◌%◌, ◌^◌, ◌≤◌, ◌<◌, bit_or, ◌≡◌, ap, ◌∙◌, arith}
use hlibc.Bits.{
  bit, bit_ext_lt, bit_high, bit-bit_or, bit-mod_pow, bit-div_pow, bit-mul_pow_low,
  bit-mul_pow_high, bit_or-lt, lt_of_bits, pow-pos, shl, shr,
}

-- `(x << n) | (x >> (w - n))` in a `w`-bit word. At `n = 0` the second shift is by the whole width,
-- which C leaves undefined for 32 and 64 bits.
unfoldable pub rotl : ℕ → ℕ → ℕ → ℕ
rotl w x n = bit_or (shl w x n) (shr x (w - n))

unfoldable pub rotr : ℕ → ℕ → ℕ → ℕ
rotr w x n = bit_or (shr x n) (shl w x (w - n))

-- Digit `i` of the rotated word.
pub bit-rotl :
    (w x n i : ℕ) → x < 2 ^ w → n ≤ w → i < w → bit (rotl w x n) i ≡ bit x ((i + (w - n)) % w)
unfolding rotl
bit-rotl w x n i h k lt = elim (dec_lt i n) [
  | yes low ↦
      let place : (i + (w - n)) % w ≡ w - n + i = mod-eq_of_lt (omega arith) ∙ omega arith in
      omega (
        arith,
        ap (bit x) place,
        bit-bit_or (shl w x n) (shr x (w - n)) i,
        bit-mod_pow w (x * 2 ^ n) i lt,
        bit-mul_pow_low x n i low,
        bit-div_pow x (w - n) i,
      )
  | no high ↦
      let shift : i + (w - n) ≡ i - n + w = omega arith in
      let place : (i + (w - n)) % w ≡ i - n =
        ap (λ t. t % w) shift ∙ add-mod_right (i - n) w ∙ mod-eq_of_lt (omega arith) in
      omega (
        arith,
        ap (bit x) place,
        bit-bit_or (shl w x n) (shr x (w - n)) i,
        bit-mod_pow w (x * 2 ^ n) i lt,
        bit-mul_pow_high x n i (omega arith),
        bit-div_pow x (w - n) i,
        bit_high w x (w - n + i) h (omega arith),
      )
]

pub bit-rotr : (w x n i : ℕ) → x < 2 ^ w → n ≤ w → i < w → bit (rotr w x n) i ≡ bit x ((i + n) % w)
unfolding rotr
bit-rotr w x n i h k lt = elim (dec_lt i (w - n)) [
  | yes low ↦
      let place : (i + n) % w ≡ n + i = mod-eq_of_lt (omega arith) ∙ omega arith in
      omega (
        arith,
        ap (bit x) place,
        bit-bit_or (shr x n) (shl w x (w - n)) i,
        bit-mod_pow w (x * 2 ^ (w - n)) i lt,
        bit-mul_pow_low x (w - n) i low,
        bit-div_pow x n i,
      )
  | no high ↦
      let shift : i + n ≡ i - (w - n) + w = omega arith in
      let place : (i + n) % w ≡ i - (w - n) =
        ap (λ t. t % w) shift ∙ add-mod_right (i - (w - n)) w ∙ mod-eq_of_lt (omega arith) in
      omega (
        arith,
        ap (bit x) place,
        bit-bit_or (shr x n) (shl w x (w - n)) i,
        bit-mod_pow w (x * 2 ^ (w - n)) i lt,
        bit-mul_pow_high x (w - n) i (omega arith),
        bit-div_pow x n i,
        bit_high w x (n + i) h (omega arith),
      )
]

div_pow-lt : (w x n : ℕ) → x < 2 ^ w → x / 2 ^ n < 2 ^ w
div_pow-lt w x n h =
    lt_of_bits w (x / 2 ^ n) (λ i above. bit-div_pow x n i ∙ bit_high w x (n + i) h (omega arith))

pub rotl-lt : (w x n : ℕ) → x < 2 ^ w → rotl w x n < 2 ^ w
unfolding rotl
rotl-lt w x n h =
    bit_or-lt w (shl w x n) (shr x (w - n)) (mod-lt (x * 2 ^ n) (pow-pos w))
      (div_pow-lt w x (w - n) h)

rotr-lt : (w x n : ℕ) → x < 2 ^ w → rotr w x n < 2 ^ w
unfolding rotr
rotr-lt w x n h =
    bit_or-lt w (shr x n) (shl w x (w - n)) (div_pow-lt w x n h)
      (mod-lt (x * 2 ^ (w - n)) (pow-pos w))

-- At every width, a rotation by fewer than all digits is undone by the other one, in both orders.
pub rotr-rotl :
    (w x n : ℕ)
    → x < 2 ^ w
    → 0 < n
    → n < w
    → (rotr w (rotl w x n) n ≡ x) × (rotl w (rotr w x n) n ≡ x)
rotr-rotl w x n h pos lt = (
  bit_ext_lt w _ x (rotr-lt w (rotl w x n) n (rotl-lt w x n h)) h (λ i below.
      bit-rotr w (rotl w x n) n i (rotl-lt w x n h) (omega arith) below
      ∙ bit-rotl w x n ((i + n) % w) h (omega arith) (mod-lt (i + n) (omega arith))
      ∙ ap (bit x) (there i below)),
  bit_ext_lt w _ x (rotl-lt w (rotr w x n) n (rotr-lt w x n h)) h (λ i below.
      bit-rotl w (rotr w x n) n i (rotr-lt w x n h) (omega arith) below
      ∙ bit-rotr w x n ((i + (w - n)) % w) h (omega arith) (mod-lt (i + (w - n)) (omega arith))
      ∙ ap (bit x) (back i below)),
)
  where
    there : (i : ℕ) → i < w → ((i + n) % w + (w - n)) % w ≡ i
    there i below =
        let sum : i + n + (w - n) ≡ i + w = omega arith in
        mod-add-mod (i + n) w (w - n) ∙ ap (λ t. t % w) sum ∙ add-mod_right i w ∙ mod-eq_of_lt below

    back : (i : ℕ) → i < w → ((i + (w - n)) % w + n) % w ≡ i
    back i below =
        let sum : i + (w - n) + n ≡ i + w = omega arith in
        mod-add-mod (i + (w - n)) w n ∙ ap (λ t. t % w) sum ∙ add-mod_right i w ∙ mod-eq_of_lt below
