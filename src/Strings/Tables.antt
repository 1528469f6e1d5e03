-- ===== src/Strings/Tables.antt =====
-- The tables of hlibc/string.c, entry by entry.
use hlibc.Base.{ℕ, List, [], ◌∷◌, ℤ, pos, negsuc}

-- The entry -1.
abbrev m1 : ℤ
m1 = negsuc 0

abbrev pub hex_val_table : List ℤ
hex_val_table =
    m1
    ∷ m1
    ∷ m1
    ∷ m1
    ∷ m1
    ∷ m1
    ∷ m1
    ∷ m1
    ∷ m1
    ∷ m1
    ∷ m1
    ∷ m1
    ∷ m1
    ∷ m1
    ∷ m1
    ∷ m1
    ∷ m1
    ∷ m1
    ∷ m1
    ∷ m1
    ∷ m1
    ∷ m1
    ∷ m1
    ∷ m1
    ∷ m1
    ∷ m1
    ∷ m1
    ∷ m1
    ∷ m1
    ∷ m1
    ∷ m1
    ∷ m1
    ∷ m1
    ∷ m1
    ∷ m1
    ∷ m1
    ∷ m1
    ∷ m1
    ∷ m1
    ∷ m1
    ∷ m1
    ∷ m1
    ∷ m1
    ∷ m1
    ∷ m1
    ∷ m1
    ∷ m1
    ∷ m1
    ∷ pos 0
    ∷ pos 1
    ∷ pos 2
    ∷ pos 3
    ∷ pos 4
    ∷ pos 5
    ∷ pos 6
    ∷ pos 7
    ∷ pos 8
    ∷ pos 9
    ∷ m1
    ∷ m1
    ∷ m1
    ∷ m1
    ∷ m1
    ∷ m1
    ∷ m1
    ∷ pos 10
    ∷ pos 11
    ∷ pos 12
    ∷ pos 13
    ∷ pos 14
    ∷ pos 15
    ∷ m1
    ∷ m1
    ∷ m1
    ∷ m1
    ∷ m1
    ∷ m1
    ∷ m1
    ∷ m1
    ∷ m1
    ∷ m1
    ∷ m1
    ∷ m1
    ∷ m1
    ∷ m1
    ∷ m1
    ∷ m1
    ∷ m1
    ∷ m1
    ∷ m1
    ∷ m1
    ∷ m1
    ∷ m1
    ∷ m1
    ∷ m1
    ∷ m1
    ∷ m1
    ∷ pos 10
    ∷ pos 11
    ∷ pos 12
    ∷ pos 13
    ∷ pos 14
    ∷ pos 15
    ∷ m1
    ∷ m1
    ∷ m1
    ∷ m1
    ∷ m1
    ∷ m1
    ∷ m1
    ∷ m1
    ∷ m1
    ∷ m1
    ∷ m1
    ∷ m1
    ∷ m1
    ∷ m1
    ∷ m1
    ∷ m1
    ∷ m1
    ∷ m1
    ∷ m1
    ∷ m1
    ∷ m1
    ∷ m1
    ∷ m1
    ∷ m1
    ∷ m1
    ∷ m1
    ∷ m1
    ∷ m1
    ∷ m1
    ∷ m1
    ∷ m1
    ∷ m1
    ∷ m1
    ∷ m1
    ∷ m1
    ∷ m1
    ∷ m1
    ∷ m1
    ∷ m1
    ∷ m1
    ∷ m1
    ∷ m1
    ∷ m1
    ∷ m1
    ∷ m1
    ∷ m1
    ∷ m1
    ∷ m1
    ∷ m1
    ∷ m1
    ∷ m1
    ∷ m1
    ∷ m1
    ∷ m1
    ∷ m1
    ∷ m1
    ∷ m1
    ∷ m1
    ∷ m1
    ∷ m1
    ∷ m1
    ∷ m1
    ∷ m1
    ∷ m1
    ∷ m1
    ∷ m1
    ∷ m1
    ∷ m1
    ∷ m1
    ∷ m1
    ∷ m1
    ∷ m1
    ∷ m1
    ∷ m1
    ∷ m1
    ∷ m1
    ∷ m1
    ∷ m1
    ∷ m1
    ∷ m1
    ∷ m1
    ∷ m1
    ∷ m1
    ∷ m1
    ∷ m1
    ∷ m1
    ∷ m1
    ∷ m1
    ∷ m1
    ∷ m1
    ∷ m1
    ∷ m1
    ∷ m1
    ∷ m1
    ∷ m1
    ∷ m1
    ∷ m1
    ∷ m1
    ∷ m1
    ∷ m1
    ∷ m1
    ∷ m1
    ∷ m1
    ∷ m1
    ∷ m1
    ∷ m1
    ∷ m1
    ∷ m1
    ∷ m1
    ∷ m1
    ∷ m1
    ∷ m1
    ∷ m1
    ∷ m1
    ∷ m1
    ∷ m1
    ∷ m1
    ∷ m1
    ∷ m1
    ∷ m1
    ∷ m1
    ∷ m1
    ∷ m1
    ∷ m1
    ∷ m1
    ∷ m1
    ∷ m1
    ∷ m1
    ∷ m1
    ∷ m1
    ∷ m1
    ∷ m1
    ∷ m1
    ∷ m1
    ∷ m1
    ∷ m1
    ∷ m1
    ∷ m1
    ∷ m1
    ∷ m1
    ∷ m1
    ∷ m1
    ∷ m1
    ∷ m1
    ∷ m1
    ∷ m1
    ∷ m1
    ∷ m1
    ∷ m1
    ∷ m1
    ∷ m1
    ∷ m1
    ∷ m1
    ∷ []

-- `"0123456789ABCDEF"`, by the codes of its characters.
abbrev pub hex_cset : List ℕ
hex_cset = 48 ∷ 49 ∷ 50 ∷ 51 ∷ 52 ∷ 53 ∷ 54 ∷ 55 ∷ 56 ∷ 57 ∷ 65 ∷ 66 ∷ 67 ∷ 68 ∷ 69 ∷ 70 ∷ []

-- The designated initialisers, over `[0 ... 255] = -1`.
abbrev pub b64_table : List ℤ
b64_table =
    m1
    ∷ m1
    ∷ m1
    ∷ m1
    ∷ m1
    ∷ m1
    ∷ m1
    ∷ m1
    ∷ m1
    ∷ m1
    ∷ m1
    ∷ m1
    ∷ m1
    ∷ m1
    ∷ m1
    ∷ m1
    ∷ m1
    ∷ m1
    ∷ m1
    ∷ m1
    ∷ m1
    ∷ m1
    ∷ m1
    ∷ m1
    ∷ m1
    ∷ m1
    ∷ m1
    ∷ m1
    ∷ m1
    ∷ m1
    ∷ m1
    ∷ m1
    ∷ m1
    ∷ m1
    ∷ m1
    ∷ m1
    ∷ m1
    ∷ m1
    ∷ m1
    ∷ m1
    ∷ m1
    ∷ m1
    ∷ m1
    ∷ pos 62
    ∷ m1
    ∷ m1
    ∷ m1
    ∷ pos 63
    ∷ pos 52
    ∷ pos 53
    ∷ pos 54
    ∷ pos 55
    ∷ pos 56
    ∷ pos 57
    ∷ pos 58
    ∷ pos 59
    ∷ pos 60
    ∷ pos 61
    ∷ m1
    ∷ m1
    ∷ m1
    ∷ m1
    ∷ m1
    ∷ m1
    ∷ m1
    ∷ pos 0
    ∷ pos 1
    ∷ pos 2
    ∷ pos 3
    ∷ pos 4
    ∷ pos 5
    ∷ pos 6
    ∷ pos 7
    ∷ pos 8
    ∷ pos 9
    ∷ pos 10
    ∷ pos 11
    ∷ pos 12
    ∷ pos 13
    ∷ pos 14
    ∷ pos 15
    ∷ pos 16
    ∷ pos 17
    ∷ pos 18
    ∷ pos 19
    ∷ pos 20
    ∷ pos 21
    ∷ pos 22
    ∷ pos 23
    ∷ pos 24
    ∷ pos 25
    ∷ m1
    ∷ m1
    ∷ m1
    ∷ m1
    ∷ m1
    ∷ m1
    ∷ pos 26
    ∷ pos 27
    ∷ pos 28
    ∷ pos 29
    ∷ pos 30
    ∷ pos 31
    ∷ pos 32
    ∷ pos 33
    ∷ pos 34
    ∷ pos 35
    ∷ pos 36
    ∷ pos 37
    ∷ pos 38
    ∷ pos 39
    ∷ pos 40
    ∷ pos 41
    ∷ pos 42
    ∷ pos 43
    ∷ pos 44
    ∷ pos 45
    ∷ pos 46
    ∷ pos 47
    ∷ pos 48
    ∷ pos 49
    ∷ pos 50
    ∷ pos 51
    ∷ m1
    ∷ m1
    ∷ m1
    ∷ m1
    ∷ m1
    ∷ m1
    ∷ m1
    ∷ m1
    ∷ m1
    ∷ m1
    ∷ m1
    ∷ m1
    ∷ m1
    ∷ m1
    ∷ m1
    ∷ m1
    ∷ m1
    ∷ m1
    ∷ m1
    ∷ m1
    ∷ m1
    ∷ m1
    ∷ m1
    ∷ m1
    ∷ m1
    ∷ m1
    ∷ m1
    ∷ m1
    ∷ m1
    ∷ m1
    ∷ m1
    ∷ m1
    ∷ m1
    ∷ m1
    ∷ m1
    ∷ m1
    ∷ m1
    ∷ m1
    ∷ m1
    ∷ m1
    ∷ m1
    ∷ m1
    ∷ m1
    ∷ m1
    ∷ m1
    ∷ m1
    ∷ m1
    ∷ m1
    ∷ m1
    ∷ m1
    ∷ m1
    ∷ m1
    ∷ m1
    ∷ m1
    ∷ m1
    ∷ m1
    ∷ m1
    ∷ m1
    ∷ m1
    ∷ m1
    ∷ m1
    ∷ m1
    ∷ m1
    ∷ m1
    ∷ m1
    ∷ m1
    ∷ m1
    ∷ m1
    ∷ m1
    ∷ m1
    ∷ m1
    ∷ m1
    ∷ m1
    ∷ m1
    ∷ m1
    ∷ m1
    ∷ m1
    ∷ m1
    ∷ m1
    ∷ m1
    ∷ m1
    ∷ m1
    ∷ m1
    ∷ m1
    ∷ m1
    ∷ m1
    ∷ m1
    ∷ m1
    ∷ m1
    ∷ m1
    ∷ m1
    ∷ m1
    ∷ m1
    ∷ m1
    ∷ m1
    ∷ m1
    ∷ m1
    ∷ m1
    ∷ m1
    ∷ m1
    ∷ m1
    ∷ m1
    ∷ m1
    ∷ m1
    ∷ m1
    ∷ m1
    ∷ m1
    ∷ m1
    ∷ m1
    ∷ m1
    ∷ m1
    ∷ m1
    ∷ m1
    ∷ m1
    ∷ m1
    ∷ m1
    ∷ m1
    ∷ m1
    ∷ m1
    ∷ m1
    ∷ m1
    ∷ m1
    ∷ m1
    ∷ m1
    ∷ m1
    ∷ m1
    ∷ m1
    ∷ m1
    ∷ m1
    ∷ m1
    ∷ m1
    ∷ m1
    ∷ m1
    ∷ []

-- `"ABCDEFGHIJKLMNOPQRSTUVWXYZabcdefghijklmnopqrstuvwxyz0123456789+/"`, by the codes of its
-- characters.
abbrev pub b64_charset : List ℕ
b64_charset =
    65 ∷ 66 ∷ 67 ∷ 68 ∷ 69 ∷ 70 ∷ 71 ∷ 72 ∷ 73 ∷ 74 ∷ 75 ∷ 76 ∷ 77 ∷ 78 ∷ 79 ∷ 80 ∷ 81 ∷ 82 ∷ 83
    ∷ 84 ∷ 85 ∷ 86 ∷ 87 ∷ 88 ∷ 89 ∷ 90 ∷ 97 ∷ 98 ∷ 99 ∷ 100 ∷ 101 ∷ 102 ∷ 103 ∷ 104 ∷ 105 ∷ 106
    ∷ 107 ∷ 108 ∷ 109 ∷ 110 ∷ 111 ∷ 112 ∷ 113 ∷ 114 ∷ 115 ∷ 116 ∷ 117 ∷ 118 ∷ 119 ∷ 120 ∷ 121 ∷ 122
    ∷ 48 ∷ 49 ∷ 50 ∷ 51 ∷ 52 ∷ 53 ∷ 54 ∷ 55 ∷ 56 ∷ 57 ∷ 43 ∷ 47 ∷ []
