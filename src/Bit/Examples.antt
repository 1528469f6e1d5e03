-- ===== src/Bit/Examples.antt =====
-- Runs of the bit functions.
use hlibc.Base.{ℕ, ◌-◌, ◌≡◌, refl, List, [], ◌∷◌, ◌==◌, if◌then◌else◌, arith}
use hlibc.Bit.Bytes.{get_unaligned_le, put_unaligned_le, put_unaligned_be, bswap}
use hlibc.Bit.Sets.{bit_test, bit_set, bit_clear, bit_flip}
use hlibc.Bit.SetsLaws.{mirror, bit_test_stored}
use hlibc.Bit.Rotate.{rotl, rotr, rotr-rotl}

abbrev base : List ℕ
base = 5 ∷ 130 ∷ []

bit_test_stored_example :
    (bit_test (bit_set base 11) 12 ≡ (if 12 == mirror 11 then 1 else bit_test base 12))
    × (bit_test (bit_clear base 11) 12 ≡ (if 12 == mirror 11 then 0 else bit_test base 12))
    × (bit_test (bit_flip base 11) 12
        ≡ (if 12 == mirror 11 then 1 - bit_test base 12 else bit_test base 12))
bit_test_stored_example = bit_test_stored base 11 12 (omega arith)

rotr-rotl_example : (rotr 8 (rotl 8 178 3) 3 ≡ 178) × (rotl 8 (rotr 8 178 3) 3 ≡ 178)
rotr-rotl_example = rotr-rotl 8 178 3 (omega arith) (omega arith) (omega arith)

stored_big : put_unaligned_be 2 4660 ≡ 18 ∷ 52 ∷ []
unfolding put_unaligned_be bswap get_unaligned_le put_unaligned_le
stored_big = refl
