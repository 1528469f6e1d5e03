-- ===== src/Crypto/Stream.antt =====
-- What hlibc/crypto/md4.c and hlibc/crypto/md5.c share: the context and the buffering of `md4_update`,
-- `md5_update`, `md4_finalize` and `md5_finalize`, which differ in the function for one chunk alone.
pub mod Blocks
pub mod Padding
pub mod Parts
use hlibc.Base.{
  ℕ, zero, suc, ◌+◌, ◌-◌, ◌%◌, ◌^◌, bit_and, Bool, true, false, List, [], ◌∷◌, ◌++◌, length, take,
  drop, set, replicate, ltb, leb, ◌==◌, if◌then◌else◌,
}
use hlibc.Bits.{shl}
use hlibc.Bit.Bytes.{put_unaligned_le}

pub record Words : Type 0 where
  pub a : ℕ
  pub b : ℕ
  pub c : ℕ
  pub d : ℕ

pub record Context : Type 0 where
  pub words : Words
  pub size : ℕ
  pub tail : List ℕ

-- `memcpy(tail + i, src, …)`.
unfoldable pub memcpy : List ℕ → ℕ → List ℕ → List ℕ
memcpy tail i src = take i tail ++ (src ++ drop (i + length src) tail)

unfoldable pub memzero : List ℕ → ℕ → ℕ → List ℕ
memzero tail i n = memcpy tail i (replicate n 0)

unfoldable pub init : Context → Context
init ctx = record ctx {
  words = record { a = 0x67452301; b = 0xEFCDAB89; c = 0x98BADCFE; d = 0x10325476 };
  size = 0;
}

-- The four words of the digest, in `dest`.
unfoldable pub digest : Words → List ℕ
digest words =
    put_unaligned_le 4 words.a
    ++ (put_unaligned_le 4 words.b ++ (put_unaligned_le 4 words.c ++ put_unaligned_le 4 words.d))

module _ (process_chunk : Words → List ℕ → Words) where
  -- The loop over whole chunks, on fuel; the rest of the data.
  unfoldable pub chunk_loop : ℕ → Words → List ℕ → Words × List ℕ
  chunk_loop zero words src = (words, src)
  chunk_loop (suc fuel) words src = elim (leb 64 (length src)) [
    | true ↦ chunk_loop fuel (process_chunk words (take 64 src)) (drop 64 src)
    | false ↦ (words, src)
  ]

  -- The loop, and the rest of the data in the tail.
  unfoldable pub chunks : Context → ℕ → List ℕ → List ℕ → Context
  chunks ctx size tail src =
      let (words, rest) = chunk_loop (length src) ctx.words src in
      record { words = words; size = size; tail = memcpy tail 0 rest }

  unfoldable pub update : Context → List ℕ → Context
  update ctx src =
      let used = bit_and ctx.size 0x3F in
      let size = (ctx.size + length src) % 2 ^ 64 in
      if used == 0
      then chunks ctx size ctx.tail src
      else if ltb (length src) (64 - used)
      then record ctx { size = size; tail = memcpy ctx.tail used src }
      else chunks ctx size (memcpy ctx.tail used (take (64 - used) src)) (drop (64 - used) src)

  -- The last chunk, with `used` bytes of the tail in use.
  unfoldable pub last_chunk : Words → ℕ → List ℕ → ℕ → List ℕ
  last_chunk words size tail used = digest (
      process_chunk words
        (memcpy (memzero tail used (56 - used)) 56 (put_unaligned_le 8 (shl 64 size 3))))

  unfoldable pub finalize : Context → List ℕ
  finalize ctx =
      let at = bit_and ctx.size 63 in
      let tail = set ctx.tail at 128 in
      let used = at + 1 in
      if ltb 56 used
      then (let full = memzero tail used (64 - used) in
          last_chunk (process_chunk ctx.words full) ctx.size full 0)
      else last_chunk ctx.words ctx.size tail used
