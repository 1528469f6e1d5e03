-- ===== src/Bits/Single.antt =====
-- One digit of a word: read by a shift and a mask, and placed by a shift.
use native.Mathlib.Decide.{dec_lt}
use hlibc.Base.{
  ℕ, ◌+◌, ◌-◌, ◌*◌, ◌/◌, ◌^◌, ◌≤◌, ◌<◌, bit_and, ◌≡◌, sym, ap, ◌∙◌, ◌==◌, if◌then◌else◌, arith,
}
use hlibc.Bits.Digit.{bit, bit_lowest, bit_high, bit-div_pow, bit-mul_pow, bit-mul_pow_low}
use hlibc.Bits.Words.{bit_and_mask}

pub one_digit : (x start : ℕ) → bit_and (x / 2 ^ start) 1 ≡ bit x start
one_digit x start =
    bit_and_mask 1 (x / 2 ^ start)
    ∙ sym (bit_lowest (x / 2 ^ start))
    ∙ bit-div_pow x start 0
    ∙ ap (bit x) (omega arith)

pub bit-shifted : (d end i : ℕ) → d < 2 → bit (d * 2 ^ end) i ≡ (if end == i then d else 0)
bit-shifted d end i small = elim (dec_lt i end) [
  | yes below ↦ ground (arith, bit-mul_pow_low d end i)
  | no above ↦
      let place : i ≡ end + (i - end) = omega arith in
      let moved : bit (d * 2 ^ end) i ≡ bit d (i - end) =
        ap (bit (d * 2 ^ end)) place ∙ bit-mul_pow d end (i - end) in
      elim (dec_lt end i) [
        | yes past ↦ ground (arith, moved, bit_high 1 d (i - end))
        | no here ↦
            let origin : i - end ≡ 0 = omega arith in
            ground (arith, moved, ap (bit d) origin, bit_lowest d)
      ]
]

-- A digit of a shifted word.
pub bit-mul_pow_high : (x k i : ℕ) → k ≤ i → bit (x * 2 ^ k) i ≡ bit x (i - k)
bit-mul_pow_high x k i h =
    let place : i ≡ k + (i - k) = omega arith in
    ap (bit (x * 2 ^ k)) place ∙ bit-mul_pow x k (i - k)
