-- ===== src/Crypto/Siphash.antt =====
-- hlibc/crypto/siphash.c: SipHash 2-4, on words of 64 bits.
mod Examples
pub mod Laws
use hlibc.Base.{
  ℕ, zero, suc, ◌+◌, ◌*◌, ◌/◌, ◌%◌, ◌^◌, bit_and, bit_or, bit_xor, List, [], ◌∷◌, length, drop,
  get_or,
}
use hlibc.Bits.{shl}
use hlibc.Bit.Bytes.{get_unaligned_le, put_unaligned_le}
use hlibc.Bit.Rotate.{rotl}

pub record SipState : Type 0 where
  pub v0 : ℕ
  pub v1 : ℕ
  pub v2 : ℕ
  pub v3 : ℕ

-- `a += b`.
abbrev pub plus : ℕ → ℕ → ℕ
plus a b = (a + b) % 2 ^ 64

-- The first half of `SIPROUND`, up to the rotation of `v0`, and the second half.
unfoldable pub first_half : SipState → SipState
first_half s =
    let v0 = plus s.v0 s.v1 in
    let v2 = plus s.v2 s.v3 in
    record {
      v0 = rotl 64 v0 32;
      v1 = bit_xor (rotl 64 s.v1 13) v0;
      v2 = v2;
      v3 = bit_xor (rotl 64 s.v3 16) v2;
    }

unfoldable pub second_half : SipState → SipState
second_half s =
    let v2 = plus s.v2 s.v1 in
    let v0 = plus s.v0 s.v3 in
    record {
      v0 = v0;
      v1 = bit_xor (rotl 64 s.v1 17) v2;
      v2 = rotl 64 v2 32;
      v3 = bit_xor (rotl 64 s.v3 21) v0;
    }

unfoldable pub sip_round : SipState → SipState
sip_round s = second_half (first_half s)

-- Two rounds with one word mixed in.
unfoldable pub mix_word : SipState → ℕ → SipState
mix_word s block =
    let mixed : SipState = record s { v3 = bit_xor s.v3 block } in
    let t : SipState = sip_round (sip_round mixed) in record t { v0 = bit_xor t.v0 block }

-- The loop over the whole words, with `rounds` rounds left.
unfoldable pub word_loop : ℕ → List ℕ → SipState → SipState
word_loop zero pos s = s
word_loop (suc rounds) pos s = word_loop rounds (drop 8 pos) (mix_word s (get_unaligned_le 8 pos))

-- The cases of the `switch`, which fall through.
unfoldable pub last_word : ℕ → List ℕ → ℕ → ℕ
last_word zero tail last = last
last_word (suc n) tail last = last_word n tail (bit_or last (shl 64 (get_or tail n 0) (8 * n)))

unfoldable pub sip_init : ℕ → ℕ → SipState
sip_init k0 k1 = record {
  v0 = bit_xor k0 0x736F6D6570736575;
  v1 = bit_xor k1 0x646F72616E646F6D;
  v2 = bit_xor k0 0x6C7967656E657261;
  v3 = bit_xor k1 0x7465646279746573;
}

unfoldable pub sip_finish : SipState → List ℕ
sip_finish s =
    let mixed : SipState = record s { v2 = bit_xor s.v2 0xFF } in
    let t : SipState = sip_round (sip_round (sip_round (sip_round mixed))) in
    put_unaligned_le 8 (bit_xor (bit_xor (bit_xor t.v0 t.v1) t.v2) t.v3)

-- The state after the message, with the words of the key.
unfoldable pub sip_absorb : List ℕ → ℕ → ℕ → SipState
sip_absorb input k0 k1 =
    let size = length input in
    let words = word_loop (size / 8) input (sip_init k0 k1) in
    let last = last_word (bit_and size 7) (drop (8 * (size / 8)) input) (shl 64 size 56) in
    mix_word words last

unfoldable pub siphash : List ℕ → List ℕ → List ℕ
siphash input key =
    sip_finish (sip_absorb input (get_unaligned_le 8 key) (get_unaligned_le 8 (drop 8 key)))
