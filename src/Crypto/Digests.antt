-- ===== src/Crypto/Digests.antt =====
-- hlibc/crypto/md4.c and hlibc/crypto/md5.c: the digests of messages in one part and in two.
mod Examples
use hlibc.Base.{ℕ, ◌+◌, ◌/◌, ◌^◌, ◌<◌, ◌≡◌, refl, List, [], ◌∷◌, ◌++◌, length, replicate, arith}
use hlibc.Bit.Bytes.{put_unaligned_le}
use hlibc.Crypto.Stream.{Context, digest}
use hlibc.Crypto.Stream.Blocks.{hash_blocks}
use hlibc.Crypto.Stream.Padding.{padded}
use hlibc.Crypto.Md4.{md4_process_chunk, md4_init, md4_update, md4_finalize}
use hlibc.Crypto.Md5.{md5_process_chunk, md5_init, md5_update, md5_finalize}
use hlibc.Crypto.Md4.Laws.{md4_finalize-md4_update, md4_finalize-parts}
use hlibc.Crypto.Md5.Laws.{md5_finalize-md5_update, md5_finalize-parts}

-- The MD4 and the MD5 digest of a message below 2^61 bytes that comes in one part are those of its padded
-- blocks of 64 bytes, hashed one after the other, whatever was in the 64 bytes of the tail.
pub md4_finalize-md5_finalize :
    (ctx : Context) (msg : List ℕ)
    → length ctx.tail ≡ 64
    → length msg < 2 ^ 61
    → (md4_finalize (md4_update (md4_init ctx) msg)
        ≡ digest (
            hash_blocks md4_process_chunk
              (length (padded msg) / 64)
              (md4_init ctx).words
              (padded msg)))
      × (md5_finalize (md5_update (md5_init ctx) msg)
          ≡ digest (
              hash_blocks md5_process_chunk
                (length (padded msg) / 64)
                (md5_init ctx).words
                (padded msg)))
md4_finalize-md5_finalize ctx msg h b =
    (md4_finalize-md4_update ctx msg h b, md5_finalize-md5_update ctx msg h b)

-- A message of 64 bytes that comes in two parts is lost to MD4 and MD5: whatever its bytes are, the digest
-- is that of the padding alone.
pub md4_finalize-md5_finalize_parts :
    (ctx : Context) (x y : List ℕ)
    → length ctx.tail ≡ 64
    → 0 < length x
    → 0 < length y
    → length x + length y ≡ 64
    → (md4_finalize (md4_update (md4_update (md4_init ctx) x) y)
        ≡ digest (
            md4_process_chunk
              (md4_init ctx).words
              (128 ∷ (replicate 55 0 ++ put_unaligned_le 8 512))))
      × (md5_finalize (md5_update (md5_update (md5_init ctx) x) y)
          ≡ digest (
              md5_process_chunk
                (md5_init ctx).words
                (128 ∷ (replicate 55 0 ++ put_unaligned_le 8 512))))
md4_finalize-md5_finalize_parts ctx x y t p q h =
    (md4_finalize-parts ctx x y t p q h, md5_finalize-parts ctx x y t p q h)
