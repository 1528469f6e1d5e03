-- ===== src/Crypto/Des/Permute.antt =====
-- What a list of `MOVE_BIT` calls does to each digit.
use native.Mathlib.Nat.{pow-le-pow_right, mod-eq_of_lt}
use native.Mathlib.Decide.{dec_lt}
use hlibc.Base.{
  ℕ, ◌*◌, ◌^◌, ◌≤◌, ◌<◌, ◌≡◌, Bool, true, not, ◌&&◌, List, [], ◌∷◌, Option, none, some, ltb, ◌==◌,
  if◌then◌else◌, arith,
}
use hlibc.Bits.{
  one_digit, bit-shifted, bit, bit-lt, zero-bit, bit-bit_or, lt_of_bits, pow-pos, bit_or-lt,
}
use hlibc.Crypto.Des.{move_bit, permute}

-- Where digit `i` of the result comes from: the first call that ends there.
unfoldable pub source : List (ℕ × ℕ) → ℕ → Option ℕ
source [] i = none
source ((start, end) ∷ moves) i = if end == i then some start else source moves i

-- Every call ends below `n`, and no two of them at one place.
unfoldable pub ends_below : ℕ → List (ℕ × ℕ) → Bool
ends_below n [] = true
ends_below n ((start, end) ∷ moves) = ltb end n && ends_below n moves

vacant : ℕ → List (ℕ × ℕ) → Bool
vacant i [] = true
vacant i ((start, end) ∷ moves) = not (end == i) && vacant i moves

unfoldable pub ends_distinct : List (ℕ × ℕ) → Bool
unfolding vacant
ends_distinct [] = true
ends_distinct ((start, end) ∷ moves) = vacant end moves && ends_distinct moves

abbrev pub digit_from : Option ℕ → ℕ → ℕ
digit_from none x = 0
digit_from (some start) x = bit x start

-- A shifted digit fits its word.
shifted-lt : (d end : ℕ) → d < 2 → end < 64 → d * 2 ^ end < 2 ^ 64
shifted-lt d end small h =
    let top : 2 ^ end ≤ 2 ^ 63 = pow-le-pow_right (omega arith) {j = 63} (omega arith) in
    elim (dec_lt d 1) [
      | yes zero_digit ↦ let none_set : d ≡ 0 = omega arith in rw none_set (omega arith)
      | no one_set ↦ let set_digit : d ≡ 1 = omega arith in rw set_digit (omega arith)
    ]

bit-move_bit :
    (x start end i : ℕ)
    → end < 64
    → bit (move_bit x start end) i ≡ (if end == i then bit x start else 0)
unfolding move_bit
bit-move_bit x start end i h =
    rw (one_digit, mod-eq_of_lt (shifted-lt (bit x start) end (bit-lt x start) h))
      (bit-shifted (bit x start) end i (bit-lt x start))

move_bit-lt : (x start end n : ℕ) → end < n → n ≤ 64 → move_bit x start end < 2 ^ n
move_bit-lt x start end n room h =
    lt_of_bits n (move_bit x start end) (λ i above. ground (arith, bit-move_bit x start end i))

bit-permute-vacant :
    (moves : List (ℕ × ℕ)) (x i : ℕ)
    → ends_below 64 moves ≡ true
    → vacant i moves ≡ true
    → bit (permute moves x) i ≡ 0
unfolding permute ends_below vacant
bit-permute-vacant [] x i b v = zero-bit i
bit-permute-vacant ((start, end) ∷ moves) x i b v = ground (
  arith,
  bit-bit_or (move_bit x start end) (permute moves x) i,
  bit-move_bit x start end i,
  bit-permute-vacant moves x i,
)

-- Each digit of the result is the digit of its source.
pub bit-permute :
    (moves : List (ℕ × ℕ)) (x i : ℕ)
    → ends_below 64 moves ≡ true
    → ends_distinct moves ≡ true
    → bit (permute moves x) i ≡ digit_from (source moves i) x
unfolding permute ends_below ends_distinct source
bit-permute [] x i b v = zero-bit i
bit-permute ((start, end) ∷ moves) x i b v = ground (
  arith,
  bit-bit_or (move_bit x start end) (permute moves x) i,
  bit-move_bit x start end i,
  bit-permute-vacant moves x i,
  bit-permute moves x i,
)

-- The result fits the highest end.
pub permute-lt :
    (n : ℕ) (moves : List (ℕ × ℕ)) (x : ℕ)
    → n ≤ 64
    → ends_below n moves ≡ true
    → permute moves x < 2 ^ n
unfolding permute ends_below
permute-lt n [] x h b = pow-pos n
permute-lt n ((start, end) ∷ moves) x h b =
    let room : end < n = ground arith in
    bit_or-lt n (move_bit x start end) (permute moves x) (move_bit-lt x start end n room h)
      (permute-lt n moves x h (ground arith))
