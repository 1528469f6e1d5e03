-- ===== src/Bit/Sets.antt =====
-- include/hlibc/bit.h: bit sets in a buffer of bytes. The index is an `int` that is not negative.
use hlibc.Base.{ℕ, ◌-◌, ◌*◌, ◌%◌, ◌^◌, bit_and, bit_or, bit_xor, List, get_or, set}
use hlibc.Bits.{shr, bit_not}

unfoldable pub bit_test : List ℕ → ℕ → ℕ
bit_test base i = bit_and (shr (get_or base (shr i 3) 0) (7 - bit_and i 7)) 1

-- `((uint8_t *)base)[i >> 3] = …`; the value is computed as an `int` and cut to a byte.
store : List ℕ → ℕ → (ℕ → ℕ) → List ℕ
store base i change = set base (shr i 3) (change (get_or base (shr i 3) 0) % 256)

unfoldable pub bit_set : List ℕ → ℕ → List ℕ
unfolding store
bit_set base i = store base i (λ b. bit_or b (1 * 2 ^ (i % 8)))

unfoldable pub bit_clear : List ℕ → ℕ → List ℕ
unfolding store
bit_clear base i = store base i (λ b. bit_and b (bit_not 32 (1 * 2 ^ (i % 8))))

unfoldable pub bit_flip : List ℕ → ℕ → List ℕ
unfolding store
bit_flip base i = store base i (λ b. bit_xor b (1 * 2 ^ (i % 8)))

-- The old bit, and the buffer afterwards.
unfoldable pub bit_test_and_set : List ℕ → ℕ → ℕ × List ℕ
bit_test_and_set base i = (bit_test base i, bit_set base i)

unfoldable pub bit_test_and_clear : List ℕ → ℕ → ℕ × List ℕ
bit_test_and_clear base i = (bit_test base i, bit_clear base i)

unfoldable pub bit_test_and_flip : List ℕ → ℕ → ℕ × List ℕ
bit_test_and_flip base i = (bit_test base i, bit_flip base i)
