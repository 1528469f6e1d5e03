-- ===== src/Crypto/Des/Examples.antt =====
-- Runs of DES at published and at simple inputs.
use hlibc.Base.{ℕ, ◌*◌, ◌≡◌, refl, List, [], ◌∷◌, ◌++◌, drop, arith}
use hlibc.Bits.{bit_not}
use hlibc.Crypto.Des.{
  DesContext, permute, move_bit, ip, ip_inv, f, des_init, mix_left, mix_right, rounds, split, join,
  des_encrypt, des_decrypt,
}
use hlibc.Crypto.Des.Rounds.{des_decrypt-des_encrypt}
use hlibc.Crypto.Des.Ecb.{des_ecb_encrypt, des_ecb_decrypt}
use hlibc.Crypto.Des.EcbLaws.{des_ecb_decrypt-des_ecb_encrypt}
use hlibc.Crypto.Des.Complement.{des_encrypt-bit_not}

abbrev context : DesContext
context = (des_init 0x133457799BBCDFF1).0

-- The worked example of the standard.
published : des_encrypt context 0x0123456789ABCDEF ≡ 0x85E813540F0AB405
unfolding des_encrypt ip ip_inv rounds split join mix_left mix_right f permute move_bit des_init
published = refl

des_decrypt-des_encrypt_example : des_decrypt context (des_encrypt context 5) ≡ 5
des_decrypt-des_encrypt_example = des_decrypt-des_encrypt context 5 (omega arith)

abbrev message : List ℕ
message = 104 ∷ 101 ∷ 108 ∷ 108 ∷ 111 ∷ 33 ∷ 33 ∷ 255 ∷ []

des_ecb_decrypt-des_ecb_encrypt_example :
    des_ecb_decrypt context (des_ecb_encrypt context message (8 * 1)) (8 * 1) (1 ∷ [])
    ≡ message ++ drop (8 * 1) (1 ∷ [])
des_ecb_decrypt-des_ecb_encrypt_example =
    des_ecb_decrypt-des_ecb_encrypt context 1 message (1 ∷ []) (omega arith) refl

des_encrypt-bit_not_example :
    des_encrypt (des_init (bit_not 64 77)).0 (bit_not 64 5)
    ≡ bit_not 64 (des_encrypt (des_init 77).0 5)
des_encrypt-bit_not_example = des_encrypt-bit_not 77 5
