-- ===== src/Crypto/Digests/Examples.antt =====
-- MD4 and MD5 of single messages.
use hlibc.Base.{◌/◌, ◌≡◌, refl, ◌∷◌, ◌++◌, length, replicate, arith}
use hlibc.Bit.Bytes.{put_unaligned_le}
use hlibc.Crypto.Stream.{Context, digest}
use hlibc.Crypto.Stream.Blocks.{hash_blocks}
use hlibc.Crypto.Stream.Padding.{padded}
use hlibc.Crypto.Md4.{md4_process_chunk, md4_init, md4_update, md4_finalize}
use hlibc.Crypto.Md5.{md5_process_chunk, md5_init, md5_update, md5_finalize}
use hlibc.Crypto.Digests.{md4_finalize-md5_finalize, md4_finalize-md5_finalize_parts}

abbrev fresh : Context
fresh = record { words = record { a = 1; b = 2; c = 3; d = 4 }; size = 9; tail = replicate 64 77 }

md4_finalize-md5_finalize_example :
    (md4_finalize (md4_update (md4_init fresh) (replicate 70 5))
      ≡ digest (
          hash_blocks md4_process_chunk
            (length (padded (replicate 70 5)) / 64)
            (md4_init fresh).words
            (padded (replicate 70 5))))
    × (md5_finalize (md5_update (md5_init fresh) (replicate 70 5))
        ≡ digest (
            hash_blocks md5_process_chunk
              (length (padded (replicate 70 5)) / 64)
              (md5_init fresh).words
              (padded (replicate 70 5))))
md4_finalize-md5_finalize_example =
    md4_finalize-md5_finalize fresh (replicate 70 5) refl (omega arith)

md4_finalize-md5_finalize_parts_example :
    (md4_finalize (md4_update (md4_update (md4_init fresh) (replicate 40 1)) (replicate 24 2))
      ≡ digest (
          md4_process_chunk
            (md4_init fresh).words
            (128 ∷ (replicate 55 0 ++ put_unaligned_le 8 512))))
    × (md5_finalize (md5_update (md5_update (md5_init fresh) (replicate 40 1)) (replicate 24 2))
        ≡ digest (
            md5_process_chunk
              (md5_init fresh).words
              (128 ∷ (replicate 55 0 ++ put_unaligned_le 8 512))))
md4_finalize-md5_finalize_parts_example =
    md4_finalize-md5_finalize_parts fresh (replicate 40 1) (replicate 24 2) refl (omega arith)
      (omega arith) refl
