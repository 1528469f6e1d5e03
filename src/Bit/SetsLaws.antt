-- ===== src/Bit/SetsLaws.antt =====
-- include/hlibc/bit.h: `bit_test` behind `bit_set`, `bit_clear` and `bit_flip`.
use native.Mathlib.Decide.{ℕ_discrete}
use hlibc.Base.{
  ℕ, ◌+◌, ◌-◌, ◌*◌, ◌/◌, ◌%◌, ◌^◌, ◌<◌, bit_and, bit_or, bit_xor, ◌≡◌, sym, ap, ◌∙◌, List, length,
  get_or, set, get_or-set_self, get_or-set_ne, ◌==◌, if◌then◌else◌, arith,
}
use hlibc.Bits.{
  bit, bit-lt, bit-bit_or, bit-bit_and, bit-bit_xor, bit-bit_not, bit-mod_pow, bit-shifted,
  one_digit, bit_and_mask, bit_not,
}
use hlibc.Bit.Sets.{bit_test, bit_set, bit_clear, bit_flip}

-- The place that `bit_test` reads for the bit that `bit_set` calls `i`: bit `i % 8` from the other
-- end of byte `i / 8`.
abbrev pub mirror : ℕ → ℕ
mirror i = i / 8 * 8 + (7 - i % 8)

bit_test_lem : (base : List ℕ) (i : ℕ) → bit_test base i ≡ bit (get_or base (i / 8) 0) (7 - i % 8)
unfolding bit_test
bit_test_lem base i = rw (bit_and_mask 3 i) (one_digit (get_or base (i / 8) 0) (7 - i % 8))

-- A changed byte, seen through `bit_test`.
module _ (base : List ℕ) (i : ℕ) (inside : i / 8 < length base) (change : ℕ → ℕ) (seen : ℕ → ℕ)
    (changed : (b m : ℕ)
      → m < 8
      → bit (change b) m ≡ (if i % 8 == m then seen (bit b m) else bit b m)) where
  bit_test-store :
      (j : ℕ)
      → bit_test (set base (i / 8) (change (get_or base (i / 8) 0) % 256)) j
        ≡ (if j == mirror i then seen (bit_test base j) else bit_test base j)
  bit_test-store j =
      let b = get_or base (i / 8) 0 in
      elim (ℕ_discrete (i / 8) (j / 8)) [
        | yes same ↦
            let place : get_or base (j / 8) 0 ≡ b = ap (λ t. get_or base t 0) (sym same) in
            let new : get_or (set base (i / 8) (change b % 256)) (j / 8) 0 ≡ change b % 256 =
              ap (λ t. get_or (set base (i / 8) (change b % 256)) t 0) (sym same)
              ∙ get_or-set_self base (i / 8) (change b % 256) 0 inside in
            ground (
              arith,
              bit_test_lem base j,
              bit_test_lem (set base (i / 8) (change b % 256)) j,
              ap (λ t. bit t (7 - j % 8)) new,
              ap (λ t. bit t (7 - j % 8)) place,
              bit-mod_pow 8 (change b) (7 - j % 8),
              changed b (7 - j % 8),
            )
        | no other ↦
            let kept = get_or-set_ne base (i / 8) (j / 8) (change b % 256) 0 other in
            ground (
              arith,
              bit_test_lem base j,
              bit_test_lem (set base (i / 8) (change b % 256)) j,
              ap (λ t. bit t (7 - j % 8)) kept,
            )
      ]

bit_test-bit_set :
    (base : List ℕ) (i j : ℕ)
    → i / 8 < length base
    → bit_test (bit_set base i) j ≡ (if j == mirror i then 1 else bit_test base j)
unfolding bit_set
bit_test-bit_set base i j h =
    bit_test-store base i h (λ b. bit_or b (1 * 2 ^ (i % 8))) (λ b. 1)
      (λ b m lt.
        ground (arith, bit-bit_or b (1 * 2 ^ (i % 8)) m, bit-shifted 1 (i % 8) m, bit-lt b m))
      j

bit_test-bit_clear :
    (base : List ℕ) (i j : ℕ)
    → i / 8 < length base
    → bit_test (bit_clear base i) j ≡ (if j == mirror i then 0 else bit_test base j)
unfolding bit_clear
bit_test-bit_clear base i j h =
    bit_test-store base i h (λ b. bit_and b (bit_not 32 (1 * 2 ^ (i % 8)))) (λ b. 0)
      (λ b m lt. ground (
        arith,
        bit-bit_and b (bit_not 32 (1 * 2 ^ (i % 8))) m,
        bit-bit_not 32 (1 * 2 ^ (i % 8)) m,
        bit-shifted 1 (i % 8) m,
        bit-lt b m,
      ))
      j

bit_test-bit_flip :
    (base : List ℕ) (i j : ℕ)
    → i / 8 < length base
    → bit_test (bit_flip base i) j
      ≡ (if j == mirror i then 1 - bit_test base j else bit_test base j)
unfolding bit_flip
bit_test-bit_flip base i j h =
    bit_test-store base i h (λ b. bit_xor b (1 * 2 ^ (i % 8))) (λ b. 1 - b)
      (λ b m lt.
        ground (arith, bit-bit_xor b (1 * 2 ^ (i % 8)) m, bit-shifted 1 (i % 8) m, bit-lt b m))
      j

-- After `bit_set`, `bit_clear` and `bit_flip` of a bit inside the buffer, `bit_test` reads 1, 0 and the
-- opposite at the mirrored place, and every other bit as before.
pub bit_test_stored :
    (base : List ℕ) (i j : ℕ)
    → i / 8 < length base
    → (bit_test (bit_set base i) j ≡ (if j == mirror i then 1 else bit_test base j))
      × (bit_test (bit_clear base i) j ≡ (if j == mirror i then 0 else bit_test base j))
      × (bit_test (bit_flip base i) j
          ≡ (if j == mirror i then 1 - bit_test base j else bit_test base j))
bit_test_stored base i j h =
    (bit_test-bit_set base i j h, bit_test-bit_clear base i j h, bit_test-bit_flip base i j h)
