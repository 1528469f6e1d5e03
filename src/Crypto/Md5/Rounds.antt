-- ===== src/Crypto/Md5/Rounds.antt =====
-- hlibc/crypto/md5.c: what the lines of `md5_process_chunk` name, in their order. The constants and
-- the shifts are those of RFC 1321.
use hlibc.Base.{ℕ, List, [], ◌∷◌}

-- The index of the word of data, the constant and the shift.
pub data Round : Type 0 where
  round : ℕ → ℕ → ℕ → Round

abbrev pub md5_f_rounds : List Round
md5_f_rounds =
    round 0 0xD76AA478 7
    ∷ round 1 0xE8C7B756 12
    ∷ round 2 0x242070DB 17
    ∷ round 3 0xC1BDCEEE 22
    ∷ round 4 0xF57C0FAF 7
    ∷ round 5 0x4787C62A 12
    ∷ round 6 0xA8304613 17
    ∷ round 7 0xFD469501 22
    ∷ round 8 0x698098D8 7
    ∷ round 9 0x8B44F7AF 12
    ∷ round 10 0xFFFF5BB1 17
    ∷ round 11 0x895CD7BE 22
    ∷ round 12 0x6B901122 7
    ∷ round 13 0xFD987193 12
    ∷ round 14 0xA679438E 17
    ∷ round 15 0x49B40821 22
    ∷ []

abbrev pub md5_g_rounds : List Round
md5_g_rounds =
    round 1 0xF61E2562 5
    ∷ round 6 0xC040B340 9
    ∷ round 11 0x265E5A51 14
    ∷ round 0 0xE9B6C7AA 20
    ∷ round 5 0xD62F105D 5
    ∷ round 10 0x2441453 9
    ∷ round 15 0xD8A1E681 14
    ∷ round 4 0xE7D3FBC8 20
    ∷ round 9 0x21E1CDE6 5
    ∷ round 14 0xC33707D6 9
    ∷ round 3 0xF4D50D87 14
    ∷ round 8 0x455A14ED 20
    ∷ round 13 0xA9E3E905 5
    ∷ round 2 0xFCEFA3F8 9
    ∷ round 7 0x676F02D9 14
    ∷ round 12 0x8D2A4C8A 20
    ∷ []

abbrev pub md5_h_rounds : List Round
md5_h_rounds =
    round 5 0xFFFA3942 4
    ∷ round 8 0x8771F681 11
    ∷ round 11 0x6D9D6122 16
    ∷ round 14 0xFDE5380C 23
    ∷ round 1 0xA4BEEA44 4
    ∷ round 4 0x4BDECFA9 11
    ∷ round 7 0xF6BB4B60 16
    ∷ round 10 0xBEBFBC70 23
    ∷ round 13 0x289B7EC6 4
    ∷ round 0 0xEAA127FA 11
    ∷ round 3 0xD4EF3085 16
    ∷ round 6 0x4881D05 23
    ∷ round 9 0xD9D4D039 4
    ∷ round 12 0xE6DB99E5 11
    ∷ round 15 0x1FA27CF8 16
    ∷ round 2 0xC4AC5665 23
    ∷ []

abbrev pub md5_i_rounds : List Round
md5_i_rounds =
    round 0 0xF4292244 6
    ∷ round 7 0x432AFF97 10
    ∷ round 14 0xAB9423A7 15
    ∷ round 5 0xFC93A039 21
    ∷ round 12 0x655B59C3 6
    ∷ round 3 0x8F0CCC92 10
    ∷ round 10 0xFFEFF47D 15
    ∷ round 1 0x85845DD1 21
    ∷ round 8 0x6FA87E4F 6
    ∷ round 15 0xFE2CE6E0 10
    ∷ round 6 0xA3014314 15
    ∷ round 13 0x4E0811A1 21
    ∷ round 4 0xF7537E82 6
    ∷ round 11 0xBD3AF235 10
    ∷ round 2 0x2AD7D2BB 15
    ∷ round 9 0xEB86D391 21
    ∷ []
