-- ===== src/Strings/Examples.antt =====
-- Runs of the text functions.
use hlibc.Base.{ℕ, ◌≡◌, refl, List, [], ◌∷◌, ◌++◌, done, success, einval, read, arith}
use hlibc.Strings.Hex.{hex_encode, hex_decode, hex_loop, hex_pair, hex_val}
use hlibc.Strings.HexLaws.{fit, hex_decode-hex_encode}
use hlibc.Strings.Base64.{
  b64_encode, b64_decode, b64_val, b64_loop, b64_group, next_char, case_0, case_3, first_byte,
  second_byte,
}
use hlibc.Strings.Base64Laws.{fit_groups, b64_decode-b64_encode}

abbrev bytes : List ℕ
bytes = 0 ∷ 171 ∷ 255 ∷ 16 ∷ []

abbrev junk : List ℕ
junk = 61 ∷ 7 ∷ []

hex_decode-hex_encode_example : hex_decode (hex_encode bytes ++ junk) 3 ≡ fit 3 bytes
hex_decode-hex_encode_example = hex_decode-hex_encode 3 bytes junk (omega arith) (omega arith)

b64_decode-b64_encode_example : b64_decode (b64_encode bytes ++ junk) 9 ≡ fit_groups 9 bytes
unfolding b64_encode
b64_decode-b64_encode_example = b64_decode-b64_encode 9 bytes junk (omega arith) (omega arith)

-- "TWE" is the text of "Ma", without its padding; "=" alone is no text.
unpadded : b64_decode (b'T' ∷ b'W' ∷ b'E' ∷ 0 ∷ []) 2 ≡ done (success, b'M' ∷ b'a' ∷ [])
unfolding b64_decode b64_loop b64_group next_char b64_val case_3 first_byte second_byte read
unpadded = refl

lone_pad : b64_decode (b'=' ∷ 0 ∷ []) 2 ≡ done (einval, [])
unfolding b64_decode b64_loop b64_group next_char b64_val case_0 read
lone_pad = refl

odd_digit : hex_decode (b'A' ∷ b'b' ∷ b'1' ∷ 0 ∷ []) 9 ≡ done (einval, 171 ∷ [])
unfolding hex_decode hex_loop hex_pair hex_val
odd_digit = refl
