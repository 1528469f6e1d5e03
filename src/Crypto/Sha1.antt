-- ===== src/Crypto/Sha1.antt =====
-- hlibc/crypto/sha1.c. A read outside the source is undefined; the test `data <= last` is that eight bytes
-- or more are left.
mod Examples
pub mod Laws
use hlibc.Base.Parsed.{Parsed, accepted, refused, undefined, ◌>>=◌}
use hlibc.Base.{
  ℕ, zero, suc, ◌+◌, ◌-◌, ◌*◌, ◌%◌, ◌^◌, bit_and, bit_or, bit_xor, List, [], ◌∷◌, ◌++◌, length,
  take, drop, get_or, set, ltb, leb, ◌==◌, if◌then◌else◌,
}
use hlibc.Bits.{bit_not}
use hlibc.Bit.Bytes.{get_unaligned_be, put_unaligned_be}
use hlibc.Bit.Rotate.{rotl}
use hlibc.Crypto.Stream.{memcpy, memzero}

pub record Sha1State : Type 0 where
  pub a : ℕ
  pub b : ℕ
  pub c : ℕ
  pub d : ℕ
  pub e : ℕ

pub record Sha1Context : Type 0 where
  pub state : Sha1State
  pub size : ℕ
  pub tail : List ℕ

-- `SHA1_f0`; `SHA1_f1`, which is `SHA1_f3` too; `SHA1_f2`.
unfoldable pub sha1_f0 : ℕ → ℕ → ℕ → ℕ
sha1_f0 b c d = bit_or (bit_and b c) (bit_and (bit_not 32 b) d)

unfoldable pub sha1_f1 : ℕ → ℕ → ℕ → ℕ
sha1_f1 b c d = bit_xor (bit_xor b c) d

unfoldable pub sha1_f2 : ℕ → ℕ → ℕ → ℕ
sha1_f2 b c d = bit_or (bit_or (bit_and b c) (bit_and b d)) (bit_and c d)

unfoldable pub sha1_round : (ℕ → ℕ → ℕ → ℕ) → ℕ → Sha1State → ℕ → Sha1State
sha1_round f k s w = record {
  a = (rotl 32 s.a 5 + f s.b s.c s.d + s.e + w + k) % 2 ^ 32;
  b = s.a;
  c = rotl 32 s.b 30;
  d = s.c;
  e = s.d;
}

unfoldable pub round_loop : (ℕ → ℕ → ℕ → ℕ) → ℕ → Sha1State → List ℕ → Sha1State
round_loop f k s [] = s
round_loop f k s (w ∷ ws) = round_loop f k (sha1_round f k s w) ws

-- The first 16 words, with `left` to come from word `i` on.
unfoldable pub load_words : ℕ → ℕ → List ℕ → List ℕ
load_words zero i src = []
load_words (suc left) i src =
    rotl 32 (get_unaligned_be 4 (drop (4 * i) src)) 1 ∷ load_words left (i + 1) src

-- `W[i]` for the words behind them; `recent` are those before it, the last one first.
unfoldable pub extend_words : ℕ → List ℕ → List ℕ
extend_words zero recent = []
extend_words (suc left) recent =
    let w =
      rotl 32
        (bit_xor (bit_xor (bit_xor (get_or recent 2 0) (get_or recent 7 0)) (get_or recent 13 0))
          (get_or recent 15 0))
        1 in
    w ∷ extend_words left (w ∷ recent)

abbrev pub backwards : List ℕ → List ℕ → List ℕ
backwards [] done = done
backwards (w ∷ ws) done = backwards ws (w ∷ done)

unfoldable pub sha1_words : List ℕ → List ℕ
sha1_words src = let loaded = load_words 16 0 src in loaded ++ extend_words 64 (backwards loaded [])

unfoldable pub sha1_rounds : Sha1State → List ℕ → Sha1State
sha1_rounds s w =
    let s1 = round_loop sha1_f0 0x5A827999 s (take 20 w) in
    let s2 = round_loop sha1_f1 0x6ED9EBA1 s1 (take 20 (drop 20 w)) in
    let s3 = round_loop sha1_f2 0x8F1BBCDC s2 (take 20 (drop 40 w)) in
    round_loop sha1_f1 0xCA62C1D6 s3 (take 20 (drop 60 w))

-- `ctx->state[i] += x`.
abbrev pub plus : ℕ → ℕ → ℕ
plus x y = (x + y) % 2 ^ 32

unfoldable pub sha1_process_block : Sha1Context → List ℕ → Parsed Sha1Context
sha1_process_block ctx src =
    if ltb (length src) 64
    then undefined
    else (let s = ctx.state in
        let t = sha1_rounds s (sha1_words src) in
        let sum : Sha1State = record {
          a = plus s.a t.a;
          b = plus s.b t.b;
          c = plus s.c t.c;
          d = plus s.d t.d;
          e = plus s.e t.e;
        } in
        accepted (record ctx { state = sum }))

-- The tail keeps what it has.
unfoldable pub sha1_init : List ℕ → Sha1Context
sha1_init tail = record {
  state = record { a = 0x67452301; b = 0xEFCDAB89; c = 0x98BADCFE; d = 0x10325476; e = 0xC3D2E1F0 };
  size = 0;
  tail = tail;
}

-- `for (; data <= last; data += 8)`, whose body adds eight as well, and the copy of the rest. Where
-- `data` has moved past the end, the size of the copy wraps around.
unfoldable pub block_loop : ℕ → Sha1Context → List ℕ → Parsed Sha1Context
block_loop zero ctx src = accepted (record ctx { tail = memcpy ctx.tail 0 src })
block_loop (suc fuel) ctx src =
    if ltb (length src) 8
    then accepted (record ctx { tail = memcpy ctx.tail 0 src })
    else sha1_process_block ctx src >>= λ ctx'.
        if ltb (length src) 16 then undefined else block_loop fuel ctx' (drop 16 src)

unfoldable pub sha1_update : Sha1Context → List ℕ → Parsed Sha1Context
sha1_update ctx src =
    let used = bit_and ctx.size 63 in
    let ctx1 : Sha1Context = record ctx { size = (ctx.size + length src) % 2 ^ 64 } in
    if used == 0
    then block_loop (length src) ctx1 src
    else if ltb (length src + used) 64
    then accepted (record ctx1 { tail = memcpy ctx.tail used src })
    else (let filled = memcpy ctx.tail used (take (64 - used) src) in
        sha1_process_block (record ctx1 { tail = filled }) filled >>= λ ctx2. block_loop 0 ctx2 [])

unfoldable pub sha1_digest : Sha1State → List ℕ
sha1_digest s =
    put_unaligned_be 4 s.a
    ++ put_unaligned_be 4 s.b
    ++ put_unaligned_be 4 s.c
    ++ put_unaligned_be 4 s.d
    ++ put_unaligned_be 4 s.e

-- Behind the byte 128, with `used` bytes in the tail.
unfoldable pub sha1_last : Sha1Context → List ℕ → ℕ → Parsed (List ℕ)
sha1_last ctx tail used =
    let start = if ltb 56 used then 0 else used in
    let cleared = if ltb 56 used then memzero tail used (64 - used) else tail in
    let padded = memcpy (memzero cleared start (56 - start)) 56 (put_unaligned_be 8 ctx.size) in
    sha1_process_block ctx padded >>= λ ctx'. accepted (sha1_digest ctx'.state)

unfoldable pub sha1_finalize : Sha1Context → Parsed (List ℕ)
sha1_finalize ctx =
    let used = bit_and ctx.size 63 in sha1_last ctx (set ctx.tail used 128) (used + 1)
