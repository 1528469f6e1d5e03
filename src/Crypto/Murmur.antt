-- ===== src/Crypto/Murmur.antt =====
-- hlibc/crypto/murmur.c: MurmurHash3 for 32 bits.
pub mod Mix
pub mod Words
mod Examples
use hlibc.Base.{
  ℕ, zero, suc, ◌+◌, ◌-◌, ◌*◌, ◌/◌, ◌%◌, ◌^◌, bit_and, bit_or, bit_xor, List, [], ◌∷◌, length, drop,
  get_or,
}
use hlibc.Bits.{shl, shr}
use hlibc.Bit.Bytes.{get_unaligned_le, put_unaligned_le}
use hlibc.Bit.Rotate.{rotl}

-- `h ^= h >> n` and `h *= c`.
abbrev pub xor_shift : ℕ → ℕ → ℕ
xor_shift n h = bit_xor h (shr h n)

abbrev pub times : ℕ → ℕ → ℕ
times c h = h * c % 2 ^ 32

unfoldable pub murmur_fmix32 : ℕ → ℕ
murmur_fmix32 h = xor_shift 16 (times 0xC2B2AE35 (xor_shift 13 (times 0x85EBCA6B (xor_shift 16 h))))

-- `k *= c0; k = rotl32(k, 15); k *= c1`.
unfoldable pub mix_block : ℕ → ℕ
mix_block k = times 0x1B873593 (rotl 32 (times 0xCC9E2D51 k) 15)

-- The loop over the whole words, with `rounds` rounds left.
unfoldable pub body_loop : ℕ → List ℕ → ℕ → ℕ
body_loop zero pos h = h
body_loop (suc rounds) pos h =
    let mixed = rotl 32 (bit_xor h (mix_block (get_unaligned_le 4 pos))) 13 in
    body_loop rounds (drop 4 pos) ((mixed * 5 + 0xE6546B64) % 2 ^ 32)

-- The cases of the `switch`, which fall through; the masked size is at most 3.
unfoldable pub tail_case : ℕ → List ℕ → ℕ → ℕ
tail_case zero tail h = h
tail_case (suc zero) tail h = bit_xor h (mix_block (get_or tail 0 0))
tail_case (suc (suc zero)) tail h =
    bit_xor h (mix_block (bit_or (shl 32 (get_or tail 1 0) 8) (get_or tail 0 0)))
tail_case (suc (suc (suc n))) tail h = bit_xor h (
    mix_block (
      bit_or (bit_or (shl 32 (get_or tail 2 0) 16) (shl 32 (get_or tail 1 0) 8)) (get_or tail 0 0)))

-- The bytes at `out`. `h ^= size` keeps the low 32 bits of the size.
unfoldable pub murmurhash3_x86_32 : List ℕ → ℕ → List ℕ
murmurhash3_x86_32 input seed =
    let size = length input in
    let tail_size = bit_and size 3 in
    let words = (size - tail_size) / 4 in
    let h = tail_case tail_size (drop (size - tail_size) input) (body_loop words input seed) in
    put_unaligned_le 4 (murmur_fmix32 (bit_xor h size % 2 ^ 32))
