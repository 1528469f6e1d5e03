-- ===== src/Crypto/Siphash/Examples.antt =====
-- Published values of SipHash 2-4, those of test/hlibc/crypto/test_siphash.c.
use mathlib.Core.Path.{◌≡◌, refl}
use hlibc.Base.{ℕ, ◌≢◌, List, [], ◌∷◌, arith}
use hlibc.Bit.Bytes.{get_unaligned_le, put_unaligned_le}
use hlibc.Bit.Rotate.{rotl}
use hlibc.Crypto.Siphash.Laws.{sip_absorb-injective}
use hlibc.Crypto.Siphash.{
  first_half, second_half, sip_round, mix_word, word_loop, last_word, sip_init, sip_finish,
  sip_absorb, siphash,
}

abbrev key : List ℕ
key = 0 ∷ 1 ∷ 2 ∷ 3 ∷ 4 ∷ 5 ∷ 6 ∷ 7 ∷ 8 ∷ 9 ∷ 10 ∷ 11 ∷ 12 ∷ 13 ∷ 14 ∷ 15 ∷ []

of_nothing : siphash [] key ≡ 0x31 ∷ 0x0E ∷ 0x0E ∷ 0xDD ∷ 0x47 ∷ 0xDB ∷ 0x6F ∷ 0x72 ∷ []
unfolding siphash sip_absorb sip_finish sip_init last_word word_loop mix_word sip_round first_half
    second_half rotl get_unaligned_le put_unaligned_le
of_nothing = refl

of_nine :
    siphash (0 ∷ 1 ∷ 2 ∷ 3 ∷ 4 ∷ 5 ∷ 6 ∷ 7 ∷ 8 ∷ []) key
    ≡ 0xB0 ∷ 0xE4 ∷ 0xA9 ∷ 0x0B ∷ 0xDF ∷ 0x82 ∷ 0x00 ∷ 0x9E ∷ []
unfolding siphash sip_absorb sip_finish sip_init last_word word_loop mix_word sip_round first_half
    second_half rotl get_unaligned_le put_unaligned_le
of_nine = refl

sip_absorb-injective_example :
    sip_absorb (1 ∷ 2 ∷ 3 ∷ 4 ∷ 5 ∷ 6 ∷ 7 ∷ 8 ∷ 9 ∷ []) 5 6
    ≢ sip_absorb (1 ∷ 2 ∷ 3 ∷ 4 ∷ 5 ∷ 6 ∷ 7 ∷ 8 ∷ 9 ∷ []) 5 7
sip_absorb-injective_example =
    sip_absorb-injective (1 ∷ 2 ∷ 3 ∷ 4 ∷ 5 ∷ 6 ∷ 7 ∷ 8 ∷ 9 ∷ []) 5 6 5 7
      (
        omega arith,
        (
          omega arith,
          (
            omega arith,
            (
              omega arith,
              (omega arith, (omega arith, (omega arith, (omega arith, (omega arith, tt))))),
            ),
          ),
        ),
      )
      (omega arith, omega arith, omega arith, omega arith) (λ (a, b). omega (arith, b))
