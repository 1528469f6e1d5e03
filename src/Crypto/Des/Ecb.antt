-- ===== src/Crypto/Des/Ecb.antt =====
-- hlibc/crypto/des.c: ECB mode over buffers of bytes.
use hlibc.Base.{ℕ, zero, suc, ◌*◌, bit_and, bit_or, List, [], ◌++◌, get_or, set, drop}
use hlibc.Bits.{shl, shr}
use hlibc.Bit.Bytes.{get_unaligned_le, put_unaligned_le}
use hlibc.Crypto.Des.{DesContext, des_encrypt, des_decrypt}

-- The cases of `get_padded`, by `size & 7`; `b i` is `(uint64_t)pos[i]`, and the masked size is at
-- most 7.
get_case : ℕ → (ℕ → ℕ) → ℕ
get_case zero b = 0x0808080808080808
get_case (suc zero) b = bit_or (shl 64 (b 0) 56) 0x07070707070707
get_case (suc (suc zero)) b = bit_or (bit_or (shl 64 (b 0) 56) (shl 64 (b 1) 48)) 0x060606060606
get_case (suc (suc (suc zero))) b =
    bit_or (bit_or (bit_or (shl 64 (b 0) 56) (shl 64 (b 1) 48)) (shl 64 (b 2) 40)) 0x0505050505
get_case (suc (suc (suc (suc zero)))) b =
    bit_or
      (bit_or (bit_or (bit_or (shl 64 (b 0) 56) (shl 64 (b 1) 48)) (shl 64 (b 2) 40))
        (shl 64 (b 3) 32))
      0x04040404
get_case (suc (suc (suc (suc (suc zero))))) b =
    bit_or
      (bit_or
        (bit_or (bit_or (bit_or (shl 64 (b 0) 56) (shl 64 (b 1) 48)) (shl 64 (b 2) 40))
          (shl 64 (b 3) 32))
        (shl 64 (b 4) 24))
      0x030303
get_case (suc (suc (suc (suc (suc (suc zero)))))) b =
    bit_or
      (bit_or
        (bit_or
          (bit_or (bit_or (bit_or (shl 64 (b 0) 56) (shl 64 (b 1) 48)) (shl 64 (b 2) 40))
            (shl 64 (b 3) 32))
          (shl 64 (b 4) 24))
        (shl 64 (b 5) 16))
      0x0202
get_case (suc (suc (suc (suc (suc (suc (suc zero))))))) b =
    bit_or
      (bit_or
        (bit_or
          (bit_or
            (bit_or (bit_or (bit_or (shl 64 (b 0) 56) (shl 64 (b 1) 48)) (shl 64 (b 2) 40))
              (shl 64 (b 3) 32))
            (shl 64 (b 4) 24))
          (shl 64 (b 5) 16))
        (shl 64 (b 6) 8))
      0x01
get_case (suc (suc (suc (suc (suc (suc (suc (suc n)))))))) b = 0

unfoldable pub get_padded : List ℕ → ℕ → ℕ
unfolding get_case
get_padded src size = get_case (bit_and size 7) (λ i. get_or src i 0)

-- The cases of `put_padded`, which fall through: case `i + 1` writes `out[i]`.
put_case : ℕ → ℕ → List ℕ → List ℕ
put_case zero value out = out
put_case (suc i) value out = put_case i value (set out i (bit_and (shr value (8 * suc i)) 0xff))

unfoldable pub put_padded : ℕ → ℕ → List ℕ → List ℕ
unfolding put_case
put_padded value size dest = put_case (bit_and size 7) value dest

-- The loop over whole blocks: the bytes that it stores.
unfoldable pub ecb_loop : (ℕ → ℕ) → ℕ → List ℕ → List ℕ
ecb_loop cipher zero pos = []
ecb_loop cipher (suc n) pos =
    put_unaligned_le 8 (cipher (get_unaligned_le 8 pos)) ++ ecb_loop cipher n (drop 8 pos)

-- The bytes stored at `dest`.
unfoldable pub des_ecb_encrypt : DesContext → List ℕ → ℕ → List ℕ
des_ecb_encrypt ctx src size =
    let n = shr size 3 in
    ecb_loop (des_encrypt ctx) n src
    ++ put_unaligned_le 8 (des_encrypt ctx (get_padded (drop (8 * n) src) size))

-- `dest` afterwards.
unfoldable pub des_ecb_decrypt : DesContext → List ℕ → ℕ → List ℕ → List ℕ
des_ecb_decrypt ctx src size dest =
    let n = shr size 3 in
    ecb_loop (des_decrypt ctx) n src
    ++ put_padded (des_decrypt ctx (get_unaligned_le 8 (drop (8 * n) src))) size (drop (8 * n) dest)
