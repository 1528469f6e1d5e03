-- ===== src/Crypto/Md4/Rounds.antt =====
-- hlibc/crypto/md4.c: what the lines of `md4_process_chunk` name, in their order. The constants and
-- the shifts are those of RFC 1320.
use hlibc.Base.{ℕ, List, [], ◌∷◌}

-- The index of the word of data, the constant and the shift.
pub data Round : Type 0 where
  round : ℕ → ℕ → ℕ → Round

abbrev pub md4_f_rounds : List Round
md4_f_rounds =
    round 0 0 3
    ∷ round 1 0 7
    ∷ round 2 0 11
    ∷ round 3 0 19
    ∷ round 4 0 3
    ∷ round 5 0 7
    ∷ round 6 0 11
    ∷ round 7 0 19
    ∷ round 8 0 3
    ∷ round 9 0 7
    ∷ round 10 0 11
    ∷ round 11 0 19
    ∷ round 12 0 3
    ∷ round 13 0 7
    ∷ round 14 0 11
    ∷ round 15 0 19
    ∷ []

abbrev pub md4_g_rounds : List Round
md4_g_rounds =
    round 0 0x5A827999 3
    ∷ round 4 0x5A827999 5
    ∷ round 8 0x5A827999 9
    ∷ round 12 0x5A827999 13
    ∷ round 1 0x5A827999 3
    ∷ round 5 0x5A827999 5
    ∷ round 9 0x5A827999 9
    ∷ round 13 0x5A827999 13
    ∷ round 2 0x5A827999 3
    ∷ round 6 0x5A827999 5
    ∷ round 10 0x5A827999 9
    ∷ round 14 0x5A827999 13
    ∷ round 3 0x5A827999 3
    ∷ round 7 0x5A827999 5
    ∷ round 11 0x5A827999 9
    ∷ round 15 0x5A827999 13
    ∷ []

abbrev pub md4_h_rounds : List Round
md4_h_rounds =
    round 0 0x6ED9EBA1 3
    ∷ round 8 0x6ED9EBA1 9
    ∷ round 4 0x6ED9EBA1 11
    ∷ round 12 0x6ED9EBA1 15
    ∷ round 2 0x6ED9EBA1 3
    ∷ round 10 0x6ED9EBA1 9
    ∷ round 6 0x6ED9EBA1 11
    ∷ round 14 0x6ED9EBA1 15
    ∷ round 1 0x6ED9EBA1 3
    ∷ round 9 0x6ED9EBA1 9
    ∷ round 5 0x6ED9EBA1 11
    ∷ round 13 0x6ED9EBA1 15
    ∷ round 3 0x6ED9EBA1 3
    ∷ round 11 0x6ED9EBA1 9
    ∷ round 7 0x6ED9EBA1 11
    ∷ round 15 0x6ED9EBA1 15
    ∷ []
