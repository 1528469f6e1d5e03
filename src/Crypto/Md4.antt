-- ===== src/Crypto/Md4.antt =====
-- hlibc/crypto/md4.c: the hash MD4.
mod Rounds
pub mod Laws
mod Examples
use Rounds.{Round, round, md4_f_rounds, md4_g_rounds, md4_h_rounds}
use hlibc.Base.{ℕ, ◌+◌, ◌*◌, ◌%◌, ◌^◌, bit_and, bit_or, bit_xor, List, [], ◌∷◌, drop}
use hlibc.Bits.{bit_not}
use hlibc.Bit.Bytes.{get_unaligned_le}
use hlibc.Bit.Rotate.{rotl}
use hlibc.Crypto.Stream.{Words, Context, init, update, finalize}

unfoldable pub md4_f : ℕ → ℕ → ℕ → ℕ
md4_f x y z = bit_or (bit_and x y) (bit_and (bit_not 32 x) z)

unfoldable pub md4_g : ℕ → ℕ → ℕ → ℕ
md4_g x y z = bit_or (bit_or (bit_and x y) (bit_and x z)) (bit_and y z)

unfoldable pub md4_h : ℕ → ℕ → ℕ → ℕ
md4_h x y z = bit_xor (bit_xor x y) z

unfoldable pub md4_get : List ℕ → ℕ → ℕ
md4_get src idx = get_unaligned_le 4 (drop (4 * idx) src)

-- One `MD4_ROUND`. The lines name the variables in turn as a, b, c, d and d, a, b, c and so on: the
-- words change places here instead, and are back after four rounds.
unfoldable pub md4_round : (ℕ → ℕ → ℕ → ℕ) → List ℕ → Words → Round → Words
md4_round fn src w (round idx constant shift) =
    let sum = (w.a + fn w.b w.c w.d + md4_get src idx + constant) % 2 ^ 32 in
    record { a = w.d; b = rotl 32 sum shift; c = w.b; d = w.c }

unfoldable pub md4_rounds : (ℕ → ℕ → ℕ → ℕ) → List ℕ → List Round → Words → Words
md4_rounds fn src [] w = w
md4_rounds fn src (r ∷ rs) w = md4_rounds fn src rs (md4_round fn src w r)

unfoldable pub md4_process_chunk : Words → List ℕ → Words
md4_process_chunk w src =
    let w1 = md4_rounds md4_f src md4_f_rounds w in
    let w2 = md4_rounds md4_g src md4_g_rounds w1 in
    let w3 = md4_rounds md4_h src md4_h_rounds w2 in
    record {
      a = (w.a + w3.a) % 2 ^ 32;
      b = (w.b + w3.b) % 2 ^ 32;
      c = (w.c + w3.c) % 2 ^ 32;
      d = (w.d + w3.d) % 2 ^ 32;
    }

unfoldable pub md4_init : Context → Context
md4_init ctx = init ctx

unfoldable pub md4_update : Context → List ℕ → Context
md4_update ctx src = update md4_process_chunk ctx src

unfoldable pub md4_finalize : Context → List ℕ
md4_finalize ctx = finalize md4_process_chunk ctx
