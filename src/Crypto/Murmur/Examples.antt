-- ===== src/Crypto/Murmur/Examples.antt =====
-- The hash of single inputs.
use hlibc.Base.{ℕ, ◌≡◌, ◌≢◌, refl, ap, get_or, List, [], ◌∷◌, arith}
use hlibc.Bit.Bytes.{get_unaligned_le, put_unaligned_le}
use hlibc.Bit.Rotate.{rotl}
use hlibc.Crypto.Murmur.{murmur_fmix32, mix_block, body_loop, tail_case, murmurhash3_x86_32}
use hlibc.Crypto.Murmur.Words.{murmurhash3_x86_32-injective}

-- Published values: 0x76293B50 and 0xF55B516B.
ones : murmurhash3_x86_32 (255 ∷ 255 ∷ 255 ∷ 255 ∷ []) 0 ≡ 0x50 ∷ 0x3B ∷ 0x29 ∷ 0x76 ∷ []
unfolding murmurhash3_x86_32 body_loop tail_case mix_block murmur_fmix32 rotl get_unaligned_le
    put_unaligned_le
ones = refl

digits : murmurhash3_x86_32 (0x21 ∷ 0x43 ∷ 0x65 ∷ 0x87 ∷ []) 0 ≡ 0x6B ∷ 0x51 ∷ 0x5B ∷ 0xF5 ∷ []
unfolding murmurhash3_x86_32 body_loop tail_case mix_block murmur_fmix32 rotl get_unaligned_le
    put_unaligned_le
digits = refl

first_differs : ◌≢◌ {A = List ℕ} (1 ∷ 2 ∷ 3 ∷ 4 ∷ []) (5 ∷ 2 ∷ 3 ∷ 4 ∷ [])
first_differs e = omega (arith, ap (λ t. get_or t 0 0) e)

murmurhash3_x86_32-injective_example :
    murmurhash3_x86_32 (1 ∷ 2 ∷ 3 ∷ 4 ∷ []) 9 ≢ murmurhash3_x86_32 (5 ∷ 2 ∷ 3 ∷ 4 ∷ []) 9
murmurhash3_x86_32-injective_example =
    murmurhash3_x86_32-injective 1 2 3 4 5 2 3 4 9
      (omega arith, (omega arith, (omega arith, (omega arith, tt))))
      (omega arith, (omega arith, (omega arith, (omega arith, tt)))) (omega arith) first_differs
