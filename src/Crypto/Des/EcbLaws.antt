-- ===== src/Crypto/Des/EcbLaws.antt =====
-- hlibc/crypto/des.c: ECB mode over several blocks.
use mathlib.Core.List.{append_assoc, append-nil}
use native.Mathlib.Nat.{mod-eq_of_lt}
use hlibc.Base.{
  ℕ, zero, suc, ◌+◌, ◌*◌, ◌/◌, ◌%◌, ◌^◌, ◌≤◌, ◌<◌, bit_or, ◌≡◌, refl, sym, ap, ◌∙◌, List, [], ◌∷◌,
  ◌++◌, length, take, drop, drop-append, take_all, take-add, All-drop, length-drop, length-append,
  arith,
}
use hlibc.Bits.{shl, shr, bit_and_mask, bit_or_fields}
use hlibc.Bit.Bytes.{
  get_unaligned_le, put_unaligned_le, IsBytes, length-put_unaligned_le, get_unaligned_le-lt,
  get_unaligned_le-put_unaligned_le, put_unaligned_le-get_unaligned_le,
}
use hlibc.Crypto.Des.{DesContext, des_encrypt, des_decrypt}
use hlibc.Crypto.Des.Rounds.{des_encrypt-lt, des_decrypt-des_encrypt}
use hlibc.Crypto.Des.Ecb.{get_padded, put_padded, ecb_loop, des_ecb_encrypt, des_ecb_decrypt}

module _ (forth back : ℕ → ℕ) (forth-lt : (b : ℕ) → forth b < 2 ^ 64)
    (undo : (b : ℕ) → b < 2 ^ 64 → back (forth b) ≡ b) where
  length-ecb_loop : (n : ℕ) (src : List ℕ) → length (ecb_loop forth n src) ≡ 8 * n
  unfolding ecb_loop
  length-ecb_loop zero src = refl
  length-ecb_loop (suc n) src =
      let stored = put_unaligned_le 8 (forth (get_unaligned_le 8 src)) in
      omega (
        arith,
        length-append stored (ecb_loop forth n (drop 8 src)),
        length-put_unaligned_le 8 (forth (get_unaligned_le 8 src)),
        length-ecb_loop n (drop 8 src),
      )

  ecb_loop_undo :
      (n : ℕ) (src rest : List ℕ)
      → IsBytes src
      → 8 * n ≤ length src
      → ecb_loop back n (ecb_loop forth n src ++ rest) ≡ take (8 * n) src
  unfolding ecb_loop
  ecb_loop_undo zero src rest b h = refl
  ecb_loop_undo (suc n) src rest b h =
      let block = get_unaligned_le 8 src in
      let stored = put_unaligned_le 8 (forth block) in
      let others = ecb_loop forth n (drop 8 src) in
      let size : 8 * suc n ≡ 8 + 8 * n = omega arith in
      rw
        (
          append_assoc stored others rest,
          get_unaligned_le-put_unaligned_le 8 (forth block) (others ++ rest) (forth-lt block),
          undo block (get_unaligned_le-lt 8 src b),
          put_unaligned_le-get_unaligned_le 8 src b (omega arith),
          drop-append 8 stored (others ++ rest) (length-put_unaligned_le 8 (forth block)),
          ecb_loop_undo n (drop 8 src) rest (All-drop _ 8 src b) (omega (arith, length-drop 8 src)),
          size,
        )
        (take-add 8 (8 * n) src)

-- A buffer of whole blocks is decrypted to itself after encryption; `dest` is left alone behind it.
pub des_ecb_decrypt-des_ecb_encrypt :
    (ctx : DesContext) (n : ℕ) (src dest : List ℕ)
    → IsBytes src
    → length src ≡ 8 * n
    → des_ecb_decrypt ctx (des_ecb_encrypt ctx src (8 * n)) (8 * n) dest ≡ src ++ drop (8 * n) dest
unfolding des_ecb_decrypt des_ecb_encrypt put_padded
des_ecb_decrypt-des_ecb_encrypt ctx n src dest b h =
    let blocks : 8 * n / 8 ≡ n = omega arith in
    let no_rest : 8 * n % 8 ≡ 0 = omega arith in
    rw
      (
        blocks,
        ecb_loop_undo (des_encrypt ctx) (des_decrypt ctx) (des_encrypt-lt ctx)
            (des_decrypt-des_encrypt ctx) n src _ b (omega arith),
        take_all (8 * n) src (omega arith),
        bit_and_mask 3 (8 * n),
        no_rest,
      )
      refl

padded_block :
    (x : ℕ) → x < 256 → bit_or (shl 64 x 56) 0x07070707070707 ≡ x * 2 ^ 56 + 0x07070707070707
padded_block x h =
    rw (mod-eq_of_lt {n = x * 2 ^ 56} {m = 2 ^ 64} (omega arith))
      (bit_or_fields 56 x 0x07070707070707 (omega arith))

-- Of a one-byte buffer nothing comes back: whatever the byte was, decryption writes a byte of the
-- padding, 7.
pub des_ecb_decrypt_one_byte :
    (ctx : DesContext) (x d : ℕ)
    → x < 256
    → des_ecb_decrypt ctx (des_ecb_encrypt ctx (x ∷ []) 1) 1 (d ∷ []) ≡ 7 ∷ []
unfolding des_ecb_decrypt des_ecb_encrypt get_padded put_padded ecb_loop
des_ecb_decrypt_one_byte ctx x d h =
    let block : ℕ = bit_or (shl 64 x 56) 0x07070707070707 in
    let sum : block ≡ x * 2 ^ 56 + 0x07070707070707 = padded_block x h in
    let cipher = des_encrypt ctx block in
    let read : get_unaligned_le 8 (put_unaligned_le 8 cipher) ≡ cipher =
      ap (get_unaligned_le 8) (sym (append-nil (put_unaligned_le 8 cipher)))
      ∙ get_unaligned_le-put_unaligned_le 8 cipher [] (des_encrypt-lt ctx block) in
    rw (read, des_decrypt-des_encrypt ctx block (omega arith), bit_and_mask 8 (shr block 8), sum)
      (ap (λ t. t ∷ []) (omega arith))
