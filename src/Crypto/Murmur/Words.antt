-- ===== src/Crypto/Murmur/Words.antt =====
-- hlibc/crypto/murmur.c: the hash of inputs of one word.
use hlibc.Base.{
  ℕ, ◌+◌, ◌*◌, ◌%◌, ◌^◌, ◌<◌, bit_xor, ◌≡◌, ◌≢◌, refl, sym, ap, ◌∙◌, List, [], ◌∷◌, ◌++◌, length,
  take, arith,
}
use hlibc.Bits.{bit, bit-lt, bit_ext, bit-bit_xor, bit_xor-lt, bit_xor_cancel}
use hlibc.Bit.Bytes.{
  IsBytes, get_unaligned_le, put_unaligned_le, get_unaligned_le-put_unaligned_le,
  put_unaligned_le-get_unaligned_le, get_unaligned_le-lt,
}
use hlibc.Bit.Rotate.{rotl, rotr, rotl-lt, rotr-rotl}
use hlibc.Crypto.Murmur.{times, mix_block, body_loop, tail_case, murmur_fmix32, murmurhash3_x86_32}
use hlibc.Crypto.Murmur.Mix.{times-lt, murmur_fmix32-injective, murmur_fmix32-lt}

bit_xor-injective : (s p q : ℕ) → bit_xor s p ≡ bit_xor s q → p ≡ q
bit_xor-injective s p q e = bit_ext p q (λ i. omega (
  arith,
  ap (λ t. bit t i) e,
  bit-bit_xor s p i,
  bit-bit_xor s q i,
  bit-lt s i,
  bit-lt p i,
  bit-lt q i,
))

rotl-injective :
    (x y n : ℕ) → x < 2 ^ 32 → y < 2 ^ 32 → 0 < n → n < 32 → rotl 32 x n ≡ rotl 32 y n → x ≡ y
rotl-injective x y n a b p l e =
    sym (rotr-rotl 32 x n a p l).0 ∙ ap (λ t. rotr 32 t n) e ∙ (rotr-rotl 32 y n b p l).0

mix_block-lt : (k : ℕ) → mix_block k < 2 ^ 32
unfolding mix_block
mix_block-lt k = times-lt 0x1B873593 (rotl 32 (times 0xCC9E2D51 k) 15)

mix_block-injective : (x y : ℕ) → x < 2 ^ 32 → y < 2 ^ 32 → mix_block x ≡ mix_block y → x ≡ y
unfolding mix_block
mix_block-injective x y a b e =
    let u = times 0xCC9E2D51 x in
    let v = times 0xCC9E2D51 y in
    let bu = times-lt 0xCC9E2D51 x in
    let bv = times-lt 0xCC9E2D51 y in
    let ru = rotl-lt 32 u 15 bu in
    let rv = rotl-lt 32 v 15 bv in
    let turned : rotl 32 u 15 ≡ rotl 32 v 15 = omega (arith, e, ru, rv) in
    let same : u ≡ v = rotl-injective u v 15 bu bv (omega arith) (omega arith) turned in
    omega (arith, same, a, b)

-- One round of the body.
mix_round-injective :
    (s x y : ℕ)
    → s < 2 ^ 32
    → x < 2 ^ 32
    → y < 2 ^ 32
    → (rotl 32 (bit_xor s (mix_block x)) 13 * 5 + 0xE6546B64) % 2 ^ 32
      ≡ (rotl 32 (bit_xor s (mix_block y)) 13 * 5 + 0xE6546B64) % 2 ^ 32
    → x ≡ y
mix_round-injective s x y l a b e =
    let p = bit_xor s (mix_block x) in
    let q = bit_xor s (mix_block y) in
    let bp = bit_xor-lt 32 s (mix_block x) l (mix_block-lt x) in
    let bq = bit_xor-lt 32 s (mix_block y) l (mix_block-lt y) in
    let rp = rotl-lt 32 p 13 bp in
    let rq = rotl-lt 32 q 13 bq in
    let turned : rotl 32 p 13 ≡ rotl 32 q 13 = omega (arith, e, rp, rq) in
    mix_block-injective x y a b (
      bit_xor-injective s (mix_block x) (mix_block y)
        (rotl-injective p q 13 bp bq (omega arith) (omega arith) turned))

-- The state behind the body of one word.
abbrev body : List ℕ → ℕ → ℕ
body src seed =
    (rotl 32 (bit_xor seed (mix_block (get_unaligned_le 4 src))) 13 * 5 + 0xE6546B64) % 2 ^ 32

get_unaligned_le-injective :
    (src src' : List ℕ)
    → IsBytes src
    → IsBytes src'
    → take 4 src ≢ take 4 src'
    → 4 ≡ length src
    → 4 ≡ length src'
    → get_unaligned_le 4 src ≢ get_unaligned_le 4 src'
get_unaligned_le-injective src src' a b differ l l' e = differ (
    sym (put_unaligned_le-get_unaligned_le 4 src a (omega arith))
    ∙ ap (put_unaligned_le 4) e
    ∙ put_unaligned_le-get_unaligned_le 4 src' b (omega arith))

put_unaligned_le-injective :
    (x y : ℕ) → x < 2 ^ 32 → y < 2 ^ 32 → put_unaligned_le 4 x ≡ put_unaligned_le 4 y → x ≡ y
put_unaligned_le-injective x y a b e =
    sym (get_unaligned_le-put_unaligned_le 4 x [] (omega arith))
    ∙ ap (λ t. get_unaligned_le 4 (t ++ [])) e
    ∙ get_unaligned_le-put_unaligned_le 4 y [] (omega arith)

-- Two inputs of four bytes that differ have different hashes, under the same 32-bit seed.
pub murmurhash3_x86_32-injective :
    (a b c d a' b' c' d' seed : ℕ)
    → IsBytes (a ∷ b ∷ c ∷ d ∷ [])
    → IsBytes (a' ∷ b' ∷ c' ∷ d' ∷ [])
    → seed < 2 ^ 32
    → (a ∷ b ∷ c ∷ d ∷ []) ≢ (a' ∷ b' ∷ c' ∷ d' ∷ [])
    → murmurhash3_x86_32 (a ∷ b ∷ c ∷ d ∷ []) seed
      ≢ murmurhash3_x86_32 (a' ∷ b' ∷ c' ∷ d' ∷ []) seed
unfolding murmurhash3_x86_32 body_loop tail_case
murmurhash3_x86_32-injective a b c d a' b' c' d' seed h h' s differ e =
    let src = a ∷ b ∷ c ∷ d ∷ [] in
    let src' = a' ∷ b' ∷ c' ∷ d' ∷ [] in
    let x = body src seed in
    let y = body src' seed in
    let bx : bit_xor x 4 < 2 ^ 32 = bit_xor-lt 32 x 4 (omega arith) (omega arith) in
    let by : bit_xor y 4 < 2 ^ 32 = bit_xor-lt 32 y 4 (omega arith) (omega arith) in
    let p = bit_xor x 4 % 2 ^ 32 in
    let q = bit_xor y 4 % 2 ^ 32 in
    murmur_fmix32-injective p q (omega arith) (omega arith)
      (λ same.
        let unsized : bit_xor x 4 ≡ bit_xor y 4 = omega (arith, same, bx, by) in
        get_unaligned_le-injective src src' h h' differ refl refl (
          mix_round-injective seed (get_unaligned_le 4 src) (get_unaligned_le 4 src') s
            (get_unaligned_le-lt 4 src h) (get_unaligned_le-lt 4 src' h')
            (sym (bit_xor_cancel x 4) ∙ ap (λ t. bit_xor t 4) unsized ∙ bit_xor_cancel y 4)))
      (put_unaligned_le-injective (murmur_fmix32 p) (murmur_fmix32 q) (murmur_fmix32-lt p)
        (murmur_fmix32-lt q) e)
