-- ===== src/Crypto/Des/KeyTables.antt =====
-- The key schedule tables of hlibc/crypto/des.c, as the lists of the `MOVE_BIT` calls of `KS_0` to
-- `KS_15`.
use hlibc.Base.{ℕ, List, [], ◌∷◌}

abbrev pub ks_0_moves : List (ℕ × ℕ)
ks_0_moves =
    (54, 47)
    ∷ (13, 46)
    ∷ (30, 45)
    ∷ (4, 44)
    ∷ (15, 43)
    ∷ (47, 42)
    ∷ (31, 41)
    ∷ (7, 40)
    ∷ (62, 39)
    ∷ (55, 38)
    ∷ (45, 37)
    ∷ (22, 36)
    ∷ (61, 35)
    ∷ (29, 34)
    ∷ (38, 33)
    ∷ (39, 32)
    ∷ (20, 31)
    ∷ (6, 30)
    ∷ (5, 29)
    ∷ (63, 28)
    ∷ (28, 27)
    ∷ (37, 26)
    ∷ (46, 25)
    ∷ (23, 24)
    ∷ (42, 23)
    ∷ (36, 22)
    ∷ (25, 21)
    ∷ (10, 20)
    ∷ (27, 19)
    ∷ (60, 18)
    ∷ (17, 17)
    ∷ (34, 16)
    ∷ (59, 15)
    ∷ (11, 14)
    ∷ (41, 13)
    ∷ (35, 12)
    ∷ (3, 11)
    ∷ (43, 10)
    ∷ (26, 9)
    ∷ (1, 8)
    ∷ (49, 7)
    ∷ (44, 6)
    ∷ (19, 5)
    ∷ (50, 4)
    ∷ (51, 3)
    ∷ (2, 2)
    ∷ (9, 1)
    ∷ (33, 0)
    ∷ []

abbrev pub ks_1_moves : List (ℕ × ℕ)
ks_1_moves =
    (62, 47)
    ∷ (21, 46)
    ∷ (38, 45)
    ∷ (12, 44)
    ∷ (23, 43)
    ∷ (55, 42)
    ∷ (39, 41)
    ∷ (15, 40)
    ∷ (5, 39)
    ∷ (63, 38)
    ∷ (53, 37)
    ∷ (30, 36)
    ∷ (4, 35)
    ∷ (37, 34)
    ∷ (46, 33)
    ∷ (47, 32)
    ∷ (28, 31)
    ∷ (14, 30)
    ∷ (13, 29)
    ∷ (6, 28)
    ∷ (7, 27)
    ∷ (45, 26)
    ∷ (54, 25)
    ∷ (31, 24)
    ∷ (50, 23)
    ∷ (44, 22)
    ∷ (33, 21)
    ∷ (18, 20)
    ∷ (35, 19)
    ∷ (1, 18)
    ∷ (25, 17)
    ∷ (42, 16)
    ∷ (36, 15)
    ∷ (19, 14)
    ∷ (49, 13)
    ∷ (43, 12)
    ∷ (11, 11)
    ∷ (51, 10)
    ∷ (34, 9)
    ∷ (9, 8)
    ∷ (57, 7)
    ∷ (52, 6)
    ∷ (27, 5)
    ∷ (58, 4)
    ∷ (59, 3)
    ∷ (10, 2)
    ∷ (17, 1)
    ∷ (41, 0)
    ∷ []

abbrev pub ks_2_moves : List (ℕ × ℕ)
ks_2_moves =
    (13, 47)
    ∷ (37, 46)
    ∷ (54, 45)
    ∷ (28, 44)
    ∷ (39, 43)
    ∷ (6, 42)
    ∷ (55, 41)
    ∷ (31, 40)
    ∷ (21, 39)
    ∷ (14, 38)
    ∷ (4, 37)
    ∷ (46, 36)
    ∷ (20, 35)
    ∷ (53, 34)
    ∷ (62, 33)
    ∷ (63, 32)
    ∷ (15, 31)
    ∷ (30, 30)
    ∷ (29, 29)
    ∷ (22, 28)
    ∷ (23, 27)
    ∷ (61, 26)
    ∷ (5, 25)
    ∷ (47, 24)
    ∷ (3, 23)
    ∷ (60, 22)
    ∷ (49, 21)
    ∷ (34, 20)
    ∷ (51, 19)
    ∷ (17, 18)
    ∷ (41, 17)
    ∷ (58, 16)
    ∷ (52, 15)
    ∷ (35, 14)
    ∷ (2, 13)
    ∷ (59, 12)
    ∷ (27, 11)
    ∷ (36, 10)
    ∷ (50, 9)
    ∷ (25, 8)
    ∷ (10, 7)
    ∷ (1, 6)
    ∷ (43, 5)
    ∷ (11, 4)
    ∷ (44, 3)
    ∷ (26, 2)
    ∷ (33, 1)
    ∷ (57, 0)
    ∷ []

abbrev pub ks_3_moves : List (ℕ × ℕ)
ks_3_moves =
    (29, 47)
    ∷ (53, 46)
    ∷ (5, 45)
    ∷ (15, 44)
    ∷ (55, 43)
    ∷ (22, 42)
    ∷ (6, 41)
    ∷ (47, 40)
    ∷ (37, 39)
    ∷ (30, 38)
    ∷ (20, 37)
    ∷ (62, 36)
    ∷ (7, 35)
    ∷ (4, 34)
    ∷ (13, 33)
    ∷ (14, 32)
    ∷ (31, 31)
    ∷ (46, 30)
    ∷ (45, 29)
    ∷ (38, 28)
    ∷ (39, 27)
    ∷ (12, 26)
    ∷ (21, 25)
    ∷ (63, 24)
    ∷ (19, 23)
    ∷ (9, 22)
    ∷ (2, 21)
    ∷ (50, 20)
    ∷ (36, 19)
    ∷ (33, 18)
    ∷ (57, 17)
    ∷ (11, 16)
    ∷ (1, 15)
    ∷ (51, 14)
    ∷ (18, 13)
    ∷ (44, 12)
    ∷ (43, 11)
    ∷ (52, 10)
    ∷ (3, 9)
    ∷ (41, 8)
    ∷ (26, 7)
    ∷ (17, 6)
    ∷ (59, 5)
    ∷ (27, 4)
    ∷ (60, 3)
    ∷ (42, 2)
    ∷ (49, 1)
    ∷ (10, 0)
    ∷ []

abbrev pub ks_4_moves : List (ℕ × ℕ)
ks_4_moves =
    (45, 47)
    ∷ (4, 46)
    ∷ (21, 45)
    ∷ (31, 44)
    ∷ (6, 43)
    ∷ (38, 42)
    ∷ (22, 41)
    ∷ (63, 40)
    ∷ (53, 39)
    ∷ (46, 38)
    ∷ (7, 37)
    ∷ (13, 36)
    ∷ (23, 35)
    ∷ (20, 34)
    ∷ (29, 33)
    ∷ (30, 32)
    ∷ (47, 31)
    ∷ (62, 30)
    ∷ (61, 29)
    ∷ (54, 28)
    ∷ (55, 27)
    ∷ (28, 26)
    ∷ (37, 25)
    ∷ (14, 24)
    ∷ (35, 23)
    ∷ (25, 22)
    ∷ (18, 21)
    ∷ (3, 20)
    ∷ (52, 19)
    ∷ (49, 18)
    ∷ (10, 17)
    ∷ (27, 16)
    ∷ (17, 15)
    ∷ (36, 14)
    ∷ (34, 13)
    ∷ (60, 12)
    ∷ (59, 11)
    ∷ (1, 10)
    ∷ (19, 9)
    ∷ (57, 8)
    ∷ (42, 7)
    ∷ (33, 6)
    ∷ (44, 5)
    ∷ (43, 4)
    ∷ (9, 3)
    ∷ (58, 2)
    ∷ (2, 1)
    ∷ (26, 0)
    ∷ []

abbrev pub ks_5_moves : List (ℕ × ℕ)
ks_5_moves =
    (61, 47)
    ∷ (20, 46)
    ∷ (37, 45)
    ∷ (47, 44)
    ∷ (22, 43)
    ∷ (54, 42)
    ∷ (38, 41)
    ∷ (14, 40)
    ∷ (4, 39)
    ∷ (62, 38)
    ∷ (23, 37)
    ∷ (29, 36)
    ∷ (39, 35)
    ∷ (7, 34)
    ∷ (45, 33)
    ∷ (46, 32)
    ∷ (63, 31)
    ∷ (13, 30)
    ∷ (12, 29)
    ∷ (5, 28)
    ∷ (6, 27)
    ∷ (15, 26)
    ∷ (53, 25)
    ∷ (30, 24)
    ∷ (51, 23)
    ∷ (41, 22)
    ∷ (34, 21)
    ∷ (19, 20)
    ∷ (1, 19)
    ∷ (2, 18)
    ∷ (26, 17)
    ∷ (43, 16)
    ∷ (33, 15)
    ∷ (52, 14)
    ∷ (50, 13)
    ∷ (9, 12)
    ∷ (44, 11)
    ∷ (17, 10)
    ∷ (35, 9)
    ∷ (10, 8)
    ∷ (58, 7)
    ∷ (49, 6)
    ∷ (60, 5)
    ∷ (59, 4)
    ∷ (25, 3)
    ∷ (11, 2)
    ∷ (18, 1)
    ∷ (42, 0)
    ∷ []

abbrev pub ks_6_moves : List (ℕ × ℕ)
ks_6_moves =
    (12, 47)
    ∷ (7, 46)
    ∷ (53, 45)
    ∷ (63, 44)
    ∷ (38, 43)
    ∷ (5, 42)
    ∷ (54, 41)
    ∷ (30, 40)
    ∷ (20, 39)
    ∷ (13, 38)
    ∷ (39, 37)
    ∷ (45, 36)
    ∷ (55, 35)
    ∷ (23, 34)
    ∷ (61, 33)
    ∷ (62, 32)
    ∷ (14, 31)
    ∷ (29, 30)
    ∷ (28, 29)
    ∷ (21, 28)
    ∷ (22, 27)
    ∷ (31, 26)
    ∷ (4, 25)
    ∷ (46, 24)
    ∷ (36, 23)
    ∷ (57, 22)
    ∷ (50, 21)
    ∷ (35, 20)
    ∷ (17, 19)
    ∷ (18, 18)
    ∷ (42, 17)
    ∷ (59, 16)
    ∷ (49, 15)
    ∷ (1, 14)
    ∷ (3, 13)
    ∷ (25, 12)
    ∷ (60, 11)
    ∷ (33, 10)
    ∷ (51, 9)
    ∷ (26, 8)
    ∷ (11, 7)
    ∷ (2, 6)
    ∷ (9, 5)
    ∷ (44, 4)
    ∷ (41, 3)
    ∷ (27, 2)
    ∷ (34, 1)
    ∷ (58, 0)
    ∷ []

abbrev pub ks_7_moves : List (ℕ × ℕ)
ks_7_moves =
    (28, 47)
    ∷ (23, 46)
    ∷ (4, 45)
    ∷ (14, 44)
    ∷ (54, 43)
    ∷ (21, 42)
    ∷ (5, 41)
    ∷ (46, 40)
    ∷ (7, 39)
    ∷ (29, 38)
    ∷ (55, 37)
    ∷ (61, 36)
    ∷ (6, 35)
    ∷ (39, 34)
    ∷ (12, 33)
    ∷ (13, 32)
    ∷ (30, 31)
    ∷ (45, 30)
    ∷ (15, 29)
    ∷ (37, 28)
    ∷ (38, 27)
    ∷ (47, 26)
    ∷ (20, 25)
    ∷ (62, 24)
    ∷ (52, 23)
    ∷ (10, 22)
    ∷ (3, 21)
    ∷ (51, 20)
    ∷ (33, 19)
    ∷ (34, 18)
    ∷ (58, 17)
    ∷ (44, 16)
    ∷ (2, 15)
    ∷ (17, 14)
    ∷ (19, 13)
    ∷ (41, 12)
    ∷ (9, 11)
    ∷ (49, 10)
    ∷ (36, 9)
    ∷ (42, 8)
    ∷ (27, 7)
    ∷ (18, 6)
    ∷ (25, 5)
    ∷ (60, 4)
    ∷ (57, 3)
    ∷ (43, 2)
    ∷ (50, 1)
    ∷ (11, 0)
    ∷ []

abbrev pub ks_8_moves : List (ℕ × ℕ)
ks_8_moves =
    (7, 47)
    ∷ (31, 46)
    ∷ (12, 45)
    ∷ (22, 44)
    ∷ (62, 43)
    ∷ (29, 42)
    ∷ (13, 41)
    ∷ (54, 40)
    ∷ (15, 39)
    ∷ (37, 38)
    ∷ (63, 37)
    ∷ (4, 36)
    ∷ (14, 35)
    ∷ (47, 34)
    ∷ (20, 33)
    ∷ (21, 32)
    ∷ (38, 31)
    ∷ (53, 30)
    ∷ (23, 29)
    ∷ (45, 28)
    ∷ (46, 27)
    ∷ (55, 26)
    ∷ (28, 25)
    ∷ (5, 24)
    ∷ (60, 23)
    ∷ (18, 22)
    ∷ (11, 21)
    ∷ (59, 20)
    ∷ (41, 19)
    ∷ (42, 18)
    ∷ (3, 17)
    ∷ (52, 16)
    ∷ (10, 15)
    ∷ (25, 14)
    ∷ (27, 13)
    ∷ (49, 12)
    ∷ (17, 11)
    ∷ (57, 10)
    ∷ (44, 9)
    ∷ (50, 8)
    ∷ (35, 7)
    ∷ (26, 6)
    ∷ (33, 5)
    ∷ (1, 4)
    ∷ (2, 3)
    ∷ (51, 2)
    ∷ (58, 1)
    ∷ (19, 0)
    ∷ []

abbrev pub ks_9_moves : List (ℕ × ℕ)
ks_9_moves =
    (23, 47)
    ∷ (47, 46)
    ∷ (28, 45)
    ∷ (38, 44)
    ∷ (13, 43)
    ∷ (45, 42)
    ∷ (29, 41)
    ∷ (5, 40)
    ∷ (31, 39)
    ∷ (53, 38)
    ∷ (14, 37)
    ∷ (20, 36)
    ∷ (30, 35)
    ∷ (63, 34)
    ∷ (7, 33)
    ∷ (37, 32)
    ∷ (54, 31)
    ∷ (4, 30)
    ∷ (39, 29)
    ∷ (61, 28)
    ∷ (62, 27)
    ∷ (6, 26)
    ∷ (15, 25)
    ∷ (21, 24)
    ∷ (9, 23)
    ∷ (34, 22)
    ∷ (27, 21)
    ∷ (44, 20)
    ∷ (57, 19)
    ∷ (58, 18)
    ∷ (19, 17)
    ∷ (1, 16)
    ∷ (26, 15)
    ∷ (41, 14)
    ∷ (43, 13)
    ∷ (2, 12)
    ∷ (33, 11)
    ∷ (10, 10)
    ∷ (60, 9)
    ∷ (3, 8)
    ∷ (51, 7)
    ∷ (42, 6)
    ∷ (49, 5)
    ∷ (17, 4)
    ∷ (18, 3)
    ∷ (36, 2)
    ∷ (11, 1)
    ∷ (35, 0)
    ∷ []

abbrev pub ks_10_moves : List (ℕ × ℕ)
ks_10_moves =
    (39, 47)
    ∷ (63, 46)
    ∷ (15, 45)
    ∷ (54, 44)
    ∷ (29, 43)
    ∷ (61, 42)
    ∷ (45, 41)
    ∷ (21, 40)
    ∷ (47, 39)
    ∷ (4, 38)
    ∷ (30, 37)
    ∷ (7, 36)
    ∷ (46, 35)
    ∷ (14, 34)
    ∷ (23, 33)
    ∷ (53, 32)
    ∷ (5, 31)
    ∷ (20, 30)
    ∷ (55, 29)
    ∷ (12, 28)
    ∷ (13, 27)
    ∷ (22, 26)
    ∷ (31, 25)
    ∷ (37, 24)
    ∷ (25, 23)
    ∷ (50, 22)
    ∷ (43, 21)
    ∷ (60, 20)
    ∷ (10, 19)
    ∷ (11, 18)
    ∷ (35, 17)
    ∷ (17, 16)
    ∷ (42, 15)
    ∷ (57, 14)
    ∷ (59, 13)
    ∷ (18, 12)
    ∷ (49, 11)
    ∷ (26, 10)
    ∷ (9, 9)
    ∷ (19, 8)
    ∷ (36, 7)
    ∷ (58, 6)
    ∷ (2, 5)
    ∷ (33, 4)
    ∷ (34, 3)
    ∷ (52, 2)
    ∷ (27, 1)
    ∷ (51, 0)
    ∷ []

abbrev pub ks_11_moves : List (ℕ × ℕ)
ks_11_moves =
    (55, 47)
    ∷ (14, 46)
    ∷ (31, 45)
    ∷ (5, 44)
    ∷ (45, 43)
    ∷ (12, 42)
    ∷ (61, 41)
    ∷ (37, 40)
    ∷ (63, 39)
    ∷ (20, 38)
    ∷ (46, 37)
    ∷ (23, 36)
    ∷ (62, 35)
    ∷ (30, 34)
    ∷ (39, 33)
    ∷ (4, 32)
    ∷ (21, 31)
    ∷ (7, 30)
    ∷ (6, 29)
    ∷ (28, 28)
    ∷ (29, 27)
    ∷ (38, 26)
    ∷ (47, 25)
    ∷ (53, 24)
    ∷ (41, 23)
    ∷ (3, 22)
    ∷ (59, 21)
    ∷ (9, 20)
    ∷ (26, 19)
    ∷ (27, 18)
    ∷ (51, 17)
    ∷ (33, 16)
    ∷ (58, 15)
    ∷ (10, 14)
    ∷ (44, 13)
    ∷ (34, 12)
    ∷ (2, 11)
    ∷ (42, 10)
    ∷ (25, 9)
    ∷ (35, 8)
    ∷ (52, 7)
    ∷ (11, 6)
    ∷ (18, 5)
    ∷ (49, 4)
    ∷ (50, 3)
    ∷ (1, 2)
    ∷ (43, 1)
    ∷ (36, 0)
    ∷ []

abbrev pub ks_12_moves : List (ℕ × ℕ)
ks_12_moves =
    (6, 47)
    ∷ (30, 46)
    ∷ (47, 45)
    ∷ (21, 44)
    ∷ (61, 43)
    ∷ (28, 42)
    ∷ (12, 41)
    ∷ (53, 40)
    ∷ (14, 39)
    ∷ (7, 38)
    ∷ (62, 37)
    ∷ (39, 36)
    ∷ (13, 35)
    ∷ (46, 34)
    ∷ (55, 33)
    ∷ (20, 32)
    ∷ (37, 31)
    ∷ (23, 30)
    ∷ (22, 29)
    ∷ (15, 28)
    ∷ (45, 27)
    ∷ (54, 26)
    ∷ (63, 25)
    ∷ (4, 24)
    ∷ (57, 23)
    ∷ (19, 22)
    ∷ (44, 21)
    ∷ (25, 20)
    ∷ (42, 19)
    ∷ (43, 18)
    ∷ (36, 17)
    ∷ (49, 16)
    ∷ (11, 15)
    ∷ (26, 14)
    ∷ (60, 13)
    ∷ (50, 12)
    ∷ (18, 11)
    ∷ (58, 10)
    ∷ (41, 9)
    ∷ (51, 8)
    ∷ (1, 7)
    ∷ (27, 6)
    ∷ (34, 5)
    ∷ (2, 4)
    ∷ (3, 3)
    ∷ (17, 2)
    ∷ (59, 1)
    ∷ (52, 0)
    ∷ []

abbrev pub ks_13_moves : List (ℕ × ℕ)
ks_13_moves =
    (22, 47)
    ∷ (46, 46)
    ∷ (63, 45)
    ∷ (37, 44)
    ∷ (12, 43)
    ∷ (15, 42)
    ∷ (28, 41)
    ∷ (4, 40)
    ∷ (30, 39)
    ∷ (23, 38)
    ∷ (13, 37)
    ∷ (55, 36)
    ∷ (29, 35)
    ∷ (62, 34)
    ∷ (6, 33)
    ∷ (7, 32)
    ∷ (53, 31)
    ∷ (39, 30)
    ∷ (38, 29)
    ∷ (31, 28)
    ∷ (61, 27)
    ∷ (5, 26)
    ∷ (14, 25)
    ∷ (20, 24)
    ∷ (10, 23)
    ∷ (35, 22)
    ∷ (60, 21)
    ∷ (41, 20)
    ∷ (58, 19)
    ∷ (59, 18)
    ∷ (52, 17)
    ∷ (2, 16)
    ∷ (27, 15)
    ∷ (42, 14)
    ∷ (9, 13)
    ∷ (3, 12)
    ∷ (34, 11)
    ∷ (11, 10)
    ∷ (57, 9)
    ∷ (36, 8)
    ∷ (17, 7)
    ∷ (43, 6)
    ∷ (50, 5)
    ∷ (18, 4)
    ∷ (19, 3)
    ∷ (33, 2)
    ∷ (44, 1)
    ∷ (1, 0)
    ∷ []

abbrev pub ks_14_moves : List (ℕ × ℕ)
ks_14_moves =
    (38, 47)
    ∷ (62, 46)
    ∷ (14, 45)
    ∷ (53, 44)
    ∷ (28, 43)
    ∷ (31, 42)
    ∷ (15, 41)
    ∷ (20, 40)
    ∷ (46, 39)
    ∷ (39, 38)
    ∷ (29, 37)
    ∷ (6, 36)
    ∷ (45, 35)
    ∷ (13, 34)
    ∷ (22, 33)
    ∷ (23, 32)
    ∷ (4, 31)
    ∷ (55, 30)
    ∷ (54, 29)
    ∷ (47, 28)
    ∷ (12, 27)
    ∷ (21, 26)
    ∷ (30, 25)
    ∷ (7, 24)
    ∷ (26, 23)
    ∷ (51, 22)
    ∷ (9, 21)
    ∷ (57, 20)
    ∷ (11, 19)
    ∷ (44, 18)
    ∷ (1, 17)
    ∷ (18, 16)
    ∷ (43, 15)
    ∷ (58, 14)
    ∷ (25, 13)
    ∷ (19, 12)
    ∷ (50, 11)
    ∷ (27, 10)
    ∷ (10, 9)
    ∷ (52, 8)
    ∷ (33, 7)
    ∷ (59, 6)
    ∷ (3, 5)
    ∷ (34, 4)
    ∷ (35, 3)
    ∷ (49, 2)
    ∷ (60, 1)
    ∷ (17, 0)
    ∷ []

abbrev pub ks_15_moves : List (ℕ × ℕ)
ks_15_moves =
    (46, 47)
    ∷ (5, 46)
    ∷ (22, 45)
    ∷ (61, 44)
    ∷ (7, 43)
    ∷ (39, 42)
    ∷ (23, 41)
    ∷ (28, 40)
    ∷ (54, 39)
    ∷ (47, 38)
    ∷ (37, 37)
    ∷ (14, 36)
    ∷ (53, 35)
    ∷ (21, 34)
    ∷ (30, 33)
    ∷ (31, 32)
    ∷ (12, 31)
    ∷ (63, 30)
    ∷ (62, 29)
    ∷ (55, 28)
    ∷ (20, 27)
    ∷ (29, 26)
    ∷ (38, 25)
    ∷ (15, 24)
    ∷ (34, 23)
    ∷ (59, 22)
    ∷ (17, 21)
    ∷ (2, 20)
    ∷ (19, 19)
    ∷ (52, 18)
    ∷ (9, 17)
    ∷ (26, 16)
    ∷ (51, 15)
    ∷ (3, 14)
    ∷ (33, 13)
    ∷ (27, 12)
    ∷ (58, 11)
    ∷ (35, 10)
    ∷ (18, 9)
    ∷ (60, 8)
    ∷ (41, 7)
    ∷ (36, 6)
    ∷ (11, 5)
    ∷ (42, 4)
    ∷ (43, 3)
    ∷ (57, 2)
    ∷ (1, 1)
    ∷ (25, 0)
    ∷ []
