-- ===== src/Crypto/Des/Permutations.antt =====
-- The bit permutations of hlibc/crypto/des.c, as the lists of their `MOVE_BIT` calls: an entry
-- `(start, end)` is `MOVE_BIT(input, start, end)`.
use hlibc.Base.{ℕ, List, [], ◌∷◌}

-- The calls of `IP`.
abbrev pub ip_moves : List (ℕ × ℕ)
ip_moves =
    (6, 63)
    ∷ (14, 62)
    ∷ (22, 61)
    ∷ (30, 60)
    ∷ (38, 59)
    ∷ (46, 58)
    ∷ (54, 57)
    ∷ (62, 56)
    ∷ (4, 55)
    ∷ (12, 54)
    ∷ (20, 53)
    ∷ (28, 52)
    ∷ (36, 51)
    ∷ (44, 50)
    ∷ (52, 49)
    ∷ (60, 48)
    ∷ (2, 47)
    ∷ (10, 46)
    ∷ (18, 45)
    ∷ (26, 44)
    ∷ (34, 43)
    ∷ (42, 42)
    ∷ (50, 41)
    ∷ (58, 40)
    ∷ (0, 39)
    ∷ (8, 38)
    ∷ (16, 37)
    ∷ (24, 36)
    ∷ (32, 35)
    ∷ (40, 34)
    ∷ (48, 33)
    ∷ (56, 32)
    ∷ (7, 31)
    ∷ (15, 30)
    ∷ (23, 29)
    ∷ (31, 28)
    ∷ (39, 27)
    ∷ (47, 26)
    ∷ (55, 25)
    ∷ (63, 24)
    ∷ (5, 23)
    ∷ (13, 22)
    ∷ (21, 21)
    ∷ (29, 20)
    ∷ (37, 19)
    ∷ (45, 18)
    ∷ (53, 17)
    ∷ (61, 16)
    ∷ (3, 15)
    ∷ (11, 14)
    ∷ (19, 13)
    ∷ (27, 12)
    ∷ (35, 11)
    ∷ (43, 10)
    ∷ (51, 9)
    ∷ (59, 8)
    ∷ (1, 7)
    ∷ (9, 6)
    ∷ (17, 5)
    ∷ (25, 4)
    ∷ (33, 3)
    ∷ (41, 2)
    ∷ (49, 1)
    ∷ (57, 0)
    ∷ []

-- The calls of `IP_inv`.
abbrev pub ip_inv_moves : List (ℕ × ℕ)
ip_inv_moves =
    (24, 63)
    ∷ (56, 62)
    ∷ (16, 61)
    ∷ (48, 60)
    ∷ (8, 59)
    ∷ (40, 58)
    ∷ (0, 57)
    ∷ (32, 56)
    ∷ (25, 55)
    ∷ (57, 54)
    ∷ (17, 53)
    ∷ (49, 52)
    ∷ (9, 51)
    ∷ (41, 50)
    ∷ (1, 49)
    ∷ (33, 48)
    ∷ (26, 47)
    ∷ (58, 46)
    ∷ (18, 45)
    ∷ (50, 44)
    ∷ (10, 43)
    ∷ (42, 42)
    ∷ (2, 41)
    ∷ (34, 40)
    ∷ (27, 39)
    ∷ (59, 38)
    ∷ (19, 37)
    ∷ (51, 36)
    ∷ (11, 35)
    ∷ (43, 34)
    ∷ (3, 33)
    ∷ (35, 32)
    ∷ (28, 31)
    ∷ (60, 30)
    ∷ (20, 29)
    ∷ (52, 28)
    ∷ (12, 27)
    ∷ (44, 26)
    ∷ (4, 25)
    ∷ (36, 24)
    ∷ (29, 23)
    ∷ (61, 22)
    ∷ (21, 21)
    ∷ (53, 20)
    ∷ (13, 19)
    ∷ (45, 18)
    ∷ (5, 17)
    ∷ (37, 16)
    ∷ (30, 15)
    ∷ (62, 14)
    ∷ (22, 13)
    ∷ (54, 12)
    ∷ (14, 11)
    ∷ (46, 10)
    ∷ (6, 9)
    ∷ (38, 8)
    ∷ (31, 7)
    ∷ (63, 6)
    ∷ (23, 5)
    ∷ (55, 4)
    ∷ (15, 3)
    ∷ (47, 2)
    ∷ (7, 1)
    ∷ (39, 0)
    ∷ []

-- The calls of `P`.
abbrev pub p_moves : List (ℕ × ℕ)
p_moves =
    (16, 31)
    ∷ (25, 30)
    ∷ (12, 29)
    ∷ (11, 28)
    ∷ (3, 27)
    ∷ (20, 26)
    ∷ (4, 25)
    ∷ (15, 24)
    ∷ (31, 23)
    ∷ (17, 22)
    ∷ (9, 21)
    ∷ (6, 20)
    ∷ (27, 19)
    ∷ (14, 18)
    ∷ (1, 17)
    ∷ (22, 16)
    ∷ (30, 15)
    ∷ (24, 14)
    ∷ (8, 13)
    ∷ (18, 12)
    ∷ (0, 11)
    ∷ (5, 10)
    ∷ (29, 9)
    ∷ (23, 8)
    ∷ (13, 7)
    ∷ (19, 6)
    ∷ (2, 5)
    ∷ (26, 4)
    ∷ (10, 3)
    ∷ (21, 2)
    ∷ (28, 1)
    ∷ (7, 0)
    ∷ []

-- The calls of `E`.
abbrev pub e_moves : List (ℕ × ℕ)
e_moves =
    (0, 47)
    ∷ (31, 46)
    ∷ (30, 45)
    ∷ (29, 44)
    ∷ (28, 43)
    ∷ (27, 42)
    ∷ (28, 41)
    ∷ (27, 40)
    ∷ (26, 39)
    ∷ (25, 38)
    ∷ (24, 37)
    ∷ (23, 36)
    ∷ (24, 35)
    ∷ (23, 34)
    ∷ (22, 33)
    ∷ (21, 32)
    ∷ (20, 31)
    ∷ (19, 30)
    ∷ (20, 29)
    ∷ (19, 28)
    ∷ (18, 27)
    ∷ (17, 26)
    ∷ (16, 25)
    ∷ (15, 24)
    ∷ (16, 23)
    ∷ (15, 22)
    ∷ (14, 21)
    ∷ (13, 20)
    ∷ (12, 19)
    ∷ (11, 18)
    ∷ (12, 17)
    ∷ (11, 16)
    ∷ (10, 15)
    ∷ (9, 14)
    ∷ (8, 13)
    ∷ (7, 12)
    ∷ (8, 11)
    ∷ (7, 10)
    ∷ (6, 9)
    ∷ (5, 8)
    ∷ (4, 7)
    ∷ (3, 6)
    ∷ (4, 5)
    ∷ (3, 4)
    ∷ (2, 3)
    ∷ (1, 2)
    ∷ (0, 1)
    ∷ (31, 0)
    ∷ []
