-- ===== src/Bit/Bytes.antt =====
-- include/hlibc/bit.h: unaligned words in memory. A word in memory is the list of its bytes, and
-- `LITTLE_ENDIAN` is defined, so that `cpu_to_le64` is a cast and `bswap64` reverses the bytes.
use native.Mathlib.Nat.{pow-succ', one-le-pow}
use hlibc.Base.{
  ℕ, zero, suc, ◌+◌, ◌*◌, ◌/◌, ◌%◌, ◌^◌, ◌≤◌, ◌<◌, ◌≡◌, refl, ap, List, [], ◌∷◌, ◌++◌, length, take,
  All, arith,
}
use mathlib.Core.List.{reverse}

-- `get_unaligned_le16`, `_le32` and `_le64` read 2, 4 and 8 bytes. A byte out of the buffer reads as
-- zero here; the callers' theorems ask for enough bytes.
unfoldable pub get_unaligned_le : ℕ → List ℕ → ℕ
get_unaligned_le zero src = 0
get_unaligned_le (suc n) [] = 0
get_unaligned_le (suc n) (b ∷ src) = b + 256 * get_unaligned_le n src

-- `put_unaligned_le16`, `_le32` and `_le64`: the bytes that are stored.
unfoldable pub put_unaligned_le : ℕ → ℕ → List ℕ
put_unaligned_le zero val = []
put_unaligned_le (suc n) val = val % 256 ∷ put_unaligned_le n (val / 256)

-- `bswap16`, `bswap32` and `bswap64`, on the bytes of the word.
unfoldable pub bswap : ℕ → ℕ → ℕ
unfolding get_unaligned_le put_unaligned_le
bswap n x = get_unaligned_le n (reverse (put_unaligned_le n x))

unfoldable pub get_unaligned_be : ℕ → List ℕ → ℕ
get_unaligned_be n src = bswap n (get_unaligned_le n src)

unfoldable pub put_unaligned_be : ℕ → ℕ → List ℕ
put_unaligned_be n val = put_unaligned_le n (bswap n val)

abbrev pub IsBytes : List ℕ → Type 0
IsBytes = All (λ b. b < 256)

-- Exactly `n` bytes are stored.
pub length-put_unaligned_le : (n val : ℕ) → length (put_unaligned_le n val) ≡ n
unfolding put_unaligned_le
length-put_unaligned_le zero val = refl
length-put_unaligned_le (suc n) val = ap suc (length-put_unaligned_le n (val / 256))

pub put_unaligned_le-IsBytes : (n val : ℕ) → IsBytes (put_unaligned_le n val)
unfolding put_unaligned_le
put_unaligned_le-IsBytes zero val = tt
put_unaligned_le-IsBytes (suc n) val = (omega arith, put_unaligned_le-IsBytes n (val / 256))

-- A word that fits `n` bytes is read back from what was stored, whatever follows it.
pub get_unaligned_le-put_unaligned_le :
    (n val : ℕ) (rest : List ℕ)
    → val < 256 ^ n
    → get_unaligned_le n (put_unaligned_le n val ++ rest) ≡ val
unfolding get_unaligned_le put_unaligned_le
get_unaligned_le-put_unaligned_le zero val rest h = omega arith
get_unaligned_le-put_unaligned_le (suc n) val rest h =
    let below : val / 256 < 256 ^ n = omega (arith, pow-succ' 256 n) in
    omega (arith, get_unaligned_le-put_unaligned_le n (val / 256) rest below)

pub get_unaligned_le-lt : (n : ℕ) (src : List ℕ) → IsBytes src → get_unaligned_le n src < 256 ^ n
unfolding get_unaligned_le
get_unaligned_le-lt zero src h = omega arith
get_unaligned_le-lt (suc n) [] h = one-le-pow (suc n) 256 (omega arith)
get_unaligned_le-lt (suc n) (b ∷ src) h =
    omega (arith, pow-succ' 256 n, get_unaligned_le-lt n src h.1, h.0)

-- The bytes that were read are the bytes that are stored.
pub put_unaligned_le-get_unaligned_le :
    (n : ℕ) (src : List ℕ)
    → IsBytes src
    → n ≤ length src
    → put_unaligned_le n (get_unaligned_le n src) ≡ take n src
unfolding get_unaligned_le put_unaligned_le
put_unaligned_le-get_unaligned_le zero src b h = refl
put_unaligned_le-get_unaligned_le (suc n) [] b h = absurd (omega arith)
put_unaligned_le-get_unaligned_le (suc n) (x ∷ src) b h =
    let first : (x + 256 * get_unaligned_le n src) % 256 ≡ x = omega (arith, b.0) in
    let others : (x + 256 * get_unaligned_le n src) / 256 ≡ get_unaligned_le n src =
      omega (arith, b.0) in
    rw (first, others) (ap (◌∷◌ x) (put_unaligned_le-get_unaligned_le n src b.1 (omega arith)))
