-- ===== src/Crypto/Md2/Examples.antt =====
-- Published digests of MD2, those of test/hlibc/crypto/test_md2.c, and a message in two parts.
use mathlib.Core.Path.{◌≡◌, refl}
use hlibc.Base.{[], ◌∷◌, replicate, arith}
use hlibc.Crypto.Md2.Laws.{md2_finalize-parts}
use hlibc.Crypto.Stream.{memcpy}
use hlibc.Crypto.Md2.{
  checksum_loop, md2_update_checksum, subst_loop, md2_rounds, xor_bytes, md2_update_state, md2_init,
  md2_blocks, md2_update, md2_finalize,
}

of_abc :
    md2_finalize (md2_update md2_init (b'a' ∷ b'b' ∷ b'c' ∷ []))
    ≡ 0xDA ∷ 0x85 ∷ 0x3B ∷ 0x0D ∷ 0x3F ∷ 0x88 ∷ 0xD9 ∷ 0x9B ∷ 0x30 ∷ 0x28 ∷ 0x3A ∷ 0x69 ∷ 0xE6
      ∷ 0xDE ∷ 0xD6 ∷ 0xBB ∷ []
unfolding memcpy checksum_loop md2_update_checksum subst_loop md2_rounds xor_bytes md2_update_state
    md2_init md2_blocks md2_update md2_finalize
of_abc = refl

-- A block of 16 bytes that comes in two parts is not hashed.
lost_block :
    (md2_update (md2_update md2_init (replicate 5 7)) (replicate 11 7)).state ≡ replicate 16 0
unfolding memcpy md2_init md2_blocks md2_update
lost_block = refl

md2_finalize-parts_example :
    md2_finalize (md2_update (md2_update md2_init (replicate 5 7)) (replicate 11 9))
    ≡ md2_finalize md2_init
md2_finalize-parts_example =
    md2_finalize-parts (replicate 5 7) (replicate 11 9) (omega arith) (omega arith) refl
