-- ===== src/Crypto/Md5.antt =====
-- hlibc/crypto/md5.c: the hash MD5.
mod Rounds
pub mod Laws
mod Examples
use Rounds.{Round, round, md5_f_rounds, md5_g_rounds, md5_h_rounds, md5_i_rounds}
use hlibc.Base.{ℕ, ◌+◌, ◌*◌, ◌%◌, ◌^◌, bit_and, bit_or, bit_xor, List, [], ◌∷◌, drop}
use hlibc.Bits.{bit_not}
use hlibc.Bit.Bytes.{get_unaligned_le}
use hlibc.Bit.Rotate.{rotl}
use hlibc.Crypto.Stream.{Words, Context, init, update, finalize}

unfoldable pub md5_f : ℕ → ℕ → ℕ → ℕ
md5_f x y z = bit_or (bit_and x y) (bit_and (bit_not 32 x) z)

unfoldable pub md5_g : ℕ → ℕ → ℕ → ℕ
md5_g x y z = bit_or (bit_and x z) (bit_and y (bit_not 32 z))

unfoldable pub md5_h : ℕ → ℕ → ℕ → ℕ
md5_h x y z = bit_xor (bit_xor x y) z

unfoldable pub md5_i : ℕ → ℕ → ℕ → ℕ
md5_i x y z = bit_xor y (bit_or x (bit_not 32 z))

unfoldable pub md5_get : List ℕ → ℕ → ℕ
md5_get src idx = get_unaligned_le 4 (drop (4 * idx) src)

-- One `MD5_ROUND`. The lines name the variables in turn as a, b, c, d and d, a, b, c and so on: the
-- words change places here instead, and are back after four rounds.
unfoldable pub md5_round : (ℕ → ℕ → ℕ → ℕ) → List ℕ → Words → Round → Words
md5_round fn src w (round idx constant shift) =
    let sum = (w.a + fn w.b w.c w.d + md5_get src idx + constant) % 2 ^ 32 in
    record { a = w.d; b = (w.b + rotl 32 sum shift) % 2 ^ 32; c = w.b; d = w.c }

unfoldable pub md5_rounds : (ℕ → ℕ → ℕ → ℕ) → List ℕ → List Round → Words → Words
md5_rounds fn src [] w = w
md5_rounds fn src (r ∷ rs) w = md5_rounds fn src rs (md5_round fn src w r)

unfoldable pub md5_process_chunk : Words → List ℕ → Words
md5_process_chunk w src =
    let w1 = md5_rounds md5_f src md5_f_rounds w in
    let w2 = md5_rounds md5_g src md5_g_rounds w1 in
    let w3 = md5_rounds md5_h src md5_h_rounds w2 in
    let w4 = md5_rounds md5_i src md5_i_rounds w3 in
    record {
      a = (w.a + w4.a) % 2 ^ 32;
      b = (w.b + w4.b) % 2 ^ 32;
      c = (w.c + w4.c) % 2 ^ 32;
      d = (w.d + w4.d) % 2 ^ 32;
    }

unfoldable pub md5_init : Context → Context
md5_init ctx = init ctx

unfoldable pub md5_update : Context → List ℕ → Context
md5_update ctx src = update md5_process_chunk ctx src

unfoldable pub md5_finalize : Context → List ℕ
md5_finalize ctx = finalize md5_process_chunk ctx
