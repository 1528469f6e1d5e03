-- ===== src/Crypto/Md2/Laws.antt =====
-- hlibc/crypto/md2.c: a block that comes in two parts.
use hlibc.Base.{
  ℕ, zero, suc, ◌+◌, ◌-◌, ◌%◌, ◌^◌, ◌≤◌, ◌<◌, ◌≡◌, refl, ap, ◌∙◌, bit_and, true, false, List, [],
  ◌++◌, length, take, drop, replicate, length-append, length-take, length-drop, drop_all, ltb, ◌==◌,
  arith,
}
use hlibc.Bits.{bit_and_mask}
use hlibc.Crypto.Stream.{memcpy}
use hlibc.Crypto.Md2.{
  Md2Context, md2_update_checksum, md2_update_state, md2_init, md2_blocks, md2_update, md2_finalize,
}

length-memcpy :
    (tail : List ℕ) (i : ℕ) (src : List ℕ)
    → i + length src ≤ length tail
    → length (memcpy tail i src) ≡ length tail
unfolding memcpy
length-memcpy tail i src h = omega (
  arith,
  length-append (take i tail) (src ++ drop (i + length src) tail),
  length-append src (drop (i + length src) tail),
  length-take i tail,
  length-drop (i + length src) tail,
)

-- Of less than a block nothing is hashed.
md2_blocks_short :
    (fuel : ℕ) (ctx : Md2Context) (input : List ℕ)
    → length input < 16
    → md2_blocks fuel ctx input ≡ record ctx { tail = memcpy ctx.tail 0 input }
unfolding md2_blocks
md2_blocks_short zero ctx input h = refl
md2_blocks_short (suc fuel) ctx input h =
    let short : ltb (length input) 16 ≡ true = ground (arith, h) in rw short refl

used_small : (n : ℕ) → n < 16 → bit_and n 15 ≡ n
used_small n h = omega (arith, bit_and_mask 4 n)

abbrev first_part : List ℕ → Md2Context
first_part x = record md2_init { size = length x; tail = memcpy (replicate 16 0) 0 x }

md2_update_first : (x : List ℕ) → length x < 16 → md2_update md2_init x ≡ first_part x
unfolding md2_update md2_init
md2_update_first x h =
    let size : (0 + length x) % 2 ^ 64 ≡ length x = omega (arith, h) in
    md2_blocks_short (length x) (record md2_init { size = (0 + length x) % 2 ^ 64 }) x h
    ∙ ap (λ n. record md2_init { size = n; tail = memcpy (replicate 16 0) 0 x }) size

-- The second part fills the tail, and the size is that of a block.
md2_update_second :
    (x y : List ℕ)
    → 0 < length x
    → 0 < length y
    → length x + length y ≡ 16
    → (tail : List ℕ) × (md2_update (first_part x) y ≡ record md2_init { size = 16; tail = tail })
      × (length tail ≡ 16)
unfolding md2_update md2_init
md2_update_second x y p q h =
    let used : bit_and (length x) 15 ≡ length x = used_small (length x) (omega arith) in
    let some_used : (length x == 0) ≡ false = ground (arith, p) in
    let full : ltb (length y) (16 - length x) ≡ false = ground (arith, h) in
    let comp : 16 - length x ≡ length y = omega (arith, h) in
    let tail1 = memcpy (replicate 16 0) 0 x in
    let tail2 = memcpy tail1 (length x) (take (16 - length x) y) in
    let rest : drop (16 - length x) y ≡ [] = drop_all (16 - length x) y (omega (arith, comp)) in
    let size : (length x + length y) % 2 ^ 64 ≡ 16 = omega (arith, h) in
    let filled : length tail1 ≡ 16 = length-memcpy (replicate 16 0) 0 x (omega (arith, h)) in
    let filled2 : length tail2 ≡ 16 =
      length-memcpy tail1 (length x) (take (16 - length x) y)
        (omega (arith, filled, h, length-take (16 - length x) y))
      ∙ filled in
    (
      memcpy tail2 0 [],
      rw used rw some_used rw full rw size rw rest (
          md2_blocks_short (length y) (record md2_init { size = 16; tail = tail2 }) []
            (omega arith)),
      length-memcpy tail2 0 [] (omega arith) ∙ filled2,
    )

-- The block of the padding alone.
md2_finalize_empty :
    (tail : List ℕ)
    → length tail ≡ 16
    → md2_finalize (record md2_init { size = 16; tail = tail }) ≡ md2_finalize md2_init
unfolding md2_finalize md2_update_checksum md2_update_state md2_init memcpy
md2_finalize_empty tail h =
    let none : drop (0 + 16) tail ≡ [] = drop_all 16 tail (omega (arith, h)) in rw none refl

-- A message of 16 bytes that comes in two parts has the digest of the empty message, whatever its bytes
-- are.
pub md2_finalize-parts :
    (x y : List ℕ)
    → 0 < length x
    → 0 < length y
    → length x + length y ≡ 16
    → md2_finalize (md2_update (md2_update md2_init x) y) ≡ md2_finalize md2_init
md2_finalize-parts x y p q h =
    let (tail, second, l) = md2_update_second x y p q h in
    rw (md2_update_first x (omega (arith, q, h))) rw second (md2_finalize_empty tail l)
