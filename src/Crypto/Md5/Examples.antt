-- ===== src/Crypto/Md5/Examples.antt =====
-- MD5 of "abc".
use hlibc.Base.{◌≡◌, refl, [], ◌∷◌, replicate}
use hlibc.Bit.Bytes.{put_unaligned_le, get_unaligned_le}
use hlibc.Bit.Rotate.{rotl}
use hlibc.Crypto.Stream.{
  Context, memcpy, memzero, init, digest, chunk_loop, chunks, update, last_chunk, finalize,
}
use hlibc.Crypto.Md5.{
  md5_f, md5_g, md5_h, md5_i, md5_get, md5_round, md5_rounds, md5_process_chunk, md5_init,
  md5_update, md5_finalize,
}

abbrev fresh : Context
fresh = record { words = record { a = 1; b = 2; c = 3; d = 4 }; size = 9; tail = replicate 64 77 }

-- The value of RFC 1321.
abc :
    md5_finalize (md5_update (md5_init fresh) (b'a' ∷ b'b' ∷ b'c' ∷ []))
    ≡ 144 ∷ 1 ∷ 80 ∷ 152 ∷ 60 ∷ 210 ∷ 79 ∷ 176 ∷ 214 ∷ 150 ∷ 63 ∷ 125 ∷ 40 ∷ 225 ∷ 127 ∷ 114 ∷ []
unfolding md5_finalize md5_update md5_init md5_process_chunk md5_rounds md5_round md5_get md5_f
    md5_g md5_h md5_i init update finalize chunks chunk_loop last_chunk digest memcpy memzero rotl
    put_unaligned_le get_unaligned_le
abc = refl
