-- ===== src/Crypto/Sha1/Laws.antt =====
-- hlibc/crypto/sha1.c: what `sha1_update` reads.
use hlibc.Base.Parsed.{undefined}
use hlibc.Base.{
  ℕ, zero, suc, ◌≤◌, ◌≡◌, refl, true, false, inl, inr, Bool-cases, bit_and, List, length,
  length-drop, drop, ltb, ◌==◌, arith,
}
use hlibc.Crypto.Sha1.{Sha1Context, sha1_process_block, block_loop, sha1_update}

block_loop-undefined :
    (fuel : ℕ) (ctx : Sha1Context) (src : List ℕ)
    → length src ≤ fuel
    → 8 ≤ length src
    → block_loop fuel ctx src ≡ undefined
unfolding block_loop sha1_process_block
block_loop-undefined zero ctx src l m = absurd (omega arith)
block_loop-undefined (suc fuel) ctx src l m =
    let block : ltb (length src) 8 ≡ false = ground arith in
    elim (Bool-cases (ltb (length src) 64)) [
      | inl short ↦ rw (block, short) refl
      | inr whole ↦
          let more : ltb (length src) 16 ≡ false = ground arith in
          let rest = length-drop 16 src in
          rw (block, whole, more)
            (block_loop-undefined fuel _ (drop 16 src) (ground arith) (ground arith))
    ]

-- Eight bytes or more, where the tail has no byte, are read past their end, however many they are.
pub sha1_update-undefined :
    (ctx : Sha1Context) (src : List ℕ)
    → bit_and ctx.size 63 ≡ 0
    → 8 ≤ length src
    → sha1_update ctx src ≡ undefined
unfolding sha1_update
sha1_update-undefined ctx src h l =
    let empty : (bit_and ctx.size 63 == 0) ≡ true = ground (arith, h) in
    rw empty (block_loop-undefined (length src) _ src (omega arith) l)
