-- ===== src/Inet/Examples.antt =====
-- Addresses as text.
use mathlib.Core.Path.{◌≡◌, refl}
use hlibc.Base.{ℕ, List, [], ◌∷◌, ◌++◌, length, done, success, arith}
use hlibc.Bit.Bytes.{IsBytes}
use hlibc.Inet.Ipv4.{
  octet_to_str, octets_loop, ipv4_to_str, third_digit, second_digit, octet_to_bin, ipv4_to_bin,
  bin_loop, at_end, at_dot, last_round, middle_round,
}
use hlibc.Inet.Ipv4Laws.{ipv4_to_bin-ipv4_to_str, ipv4_to_bin_inv}

abbrev text : List ℕ
text = b'1' ∷ b'0' ∷ b'.' ∷ b'0' ∷ b'.' ∷ b'2' ∷ b'5' ∷ b'5' ∷ b'.' ∷ b'3' ∷ 0 ∷ []

local_host :
    ipv4_to_str (127 ∷ 0 ∷ 0 ∷ 1 ∷ [])
    ≡ b'1' ∷ b'2' ∷ b'7' ∷ b'.' ∷ b'0' ∷ b'.' ∷ b'0' ∷ b'.' ∷ b'1' ∷ 0 ∷ []
unfolding ipv4_to_str octets_loop octet_to_str
local_host = refl

ipv4_to_bin-ipv4_to_str_example :
    ipv4_to_bin (ipv4_to_str (192 ∷ 168 ∷ 0 ∷ 19 ∷ 7 ∷ []) ++ (b'/' ∷ b'x' ∷ []))
    ≡ done (success, 192 ∷ 168 ∷ 0 ∷ 19 ∷ [])
ipv4_to_bin-ipv4_to_str_example =
    ipv4_to_bin-ipv4_to_str 192 168 0 19 (7 ∷ []) (b'/' ∷ b'x' ∷ [])
      (omega arith, (omega arith, (omega arith, (omega arith, tt))))

parsed : ipv4_to_bin text ≡ done (success, 10 ∷ 0 ∷ 255 ∷ 3 ∷ [])
unfolding ipv4_to_bin bin_loop octet_to_bin second_digit third_digit at_end at_dot last_round
    middle_round
parsed = refl

ipv4_to_bin_inv_example :
    IsBytes (10 ∷ 0 ∷ 255 ∷ 3 ∷ [])
    × (length {A = ℕ} (10 ∷ 0 ∷ 255 ∷ 3 ∷ []) ≡ 4)
    × ((rest : List ℕ) × (text ≡ ipv4_to_str (10 ∷ 0 ∷ 255 ∷ 3 ∷ []) ++ rest))
ipv4_to_bin_inv_example = ipv4_to_bin_inv text (10 ∷ 0 ∷ 255 ∷ 3 ∷ []) parsed
