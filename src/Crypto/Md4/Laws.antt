-- ===== src/Crypto/Md4/Laws.antt =====
-- hlibc/crypto/md4.c: the digest of a message in one part, and of one in two.
use hlibc.Base.{ℕ, ◌+◌, ◌/◌, ◌^◌, ◌<◌, ◌≡◌, List, ◌∷◌, ◌++◌, length, replicate}
use hlibc.Bit.Bytes.{put_unaligned_le}
use hlibc.Crypto.Stream.{Context, digest}
use hlibc.Crypto.Stream.Blocks.{hash_blocks}
use hlibc.Crypto.Stream.Padding.{padded, update-finalize}
use hlibc.Crypto.Stream.Parts.{update-update-finalize}
use hlibc.Crypto.Md4.{md4_process_chunk, md4_init, md4_update, md4_finalize}

pub md4_finalize-md4_update :
    (ctx : Context) (msg : List ℕ)
    → length ctx.tail ≡ 64
    → length msg < 2 ^ 61
    → md4_finalize (md4_update (md4_init ctx) msg)
      ≡ digest (
          hash_blocks md4_process_chunk
            (length (padded msg) / 64)
            (md4_init ctx).words
            (padded msg))
unfolding md4_finalize md4_update md4_init
md4_finalize-md4_update ctx msg h b = update-finalize md4_process_chunk ctx msg h b

pub md4_finalize-parts :
    (ctx : Context) (x y : List ℕ)
    → length ctx.tail ≡ 64
    → 0 < length x
    → 0 < length y
    → length x + length y ≡ 64
    → md4_finalize (md4_update (md4_update (md4_init ctx) x) y)
      ≡ digest (
          md4_process_chunk (md4_init ctx).words (128 ∷ (replicate 55 0 ++ put_unaligned_le 8 512)))
unfolding md4_finalize md4_update md4_init
md4_finalize-parts ctx x y t p q h = update-update-finalize md4_process_chunk ctx x y t p q h
