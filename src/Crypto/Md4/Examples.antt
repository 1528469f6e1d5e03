-- ===== src/Crypto/Md4/Examples.antt =====
-- MD4 of "abc".
use hlibc.Base.{◌≡◌, refl, [], ◌∷◌, replicate}
use hlibc.Bit.Bytes.{put_unaligned_le, get_unaligned_le}
use hlibc.Bit.Rotate.{rotl}
use hlibc.Crypto.Stream.{
  Context, memcpy, memzero, init, digest, chunk_loop, chunks, update, last_chunk, finalize,
}
use hlibc.Crypto.Md4.{
  md4_f, md4_g, md4_h, md4_get, md4_round, md4_rounds, md4_process_chunk, md4_init, md4_update,
  md4_finalize,
}

abbrev fresh : Context
fresh = record { words = record { a = 1; b = 2; c = 3; d = 4 }; size = 9; tail = replicate 64 77 }

-- The value of RFC 1320.
abc :
    md4_finalize (md4_update (md4_init fresh) (b'a' ∷ b'b' ∷ b'c' ∷ []))
    ≡ 164 ∷ 72 ∷ 1 ∷ 122 ∷ 175 ∷ 33 ∷ 216 ∷ 82 ∷ 95 ∷ 193 ∷ 10 ∷ 232 ∷ 122 ∷ 166 ∷ 114 ∷ 157 ∷ []
unfolding md4_finalize md4_update md4_init md4_process_chunk md4_rounds md4_round md4_get md4_f
    md4_g md4_h init update finalize chunks chunk_loop last_chunk digest memcpy memzero rotl
    put_unaligned_le get_unaligned_le
abc = refl
