-- ===== src/Ctype/Examples.antt =====
-- The classes at single characters.
use hlibc.Base.{◌≡◌, not, ◌||◌, ◌==◌, arith}
use hlibc.Ctype.{
  hlib_isalpha, hlib_isalnum, hlib_isdigit, hlib_isxdigit, hlib_toupper, hlib_tolower,
}
use hlibc.Ctype.Ranges.{between, classes-between}

classes-between_example :
    (hlib_isalpha b'q' ≡ (between b'A' b'Z' b'q' || between b'a' b'z' b'q'))
    × (hlib_isdigit b'q' ≡ between b'0' b'9' b'q')
    × (hlib_isalnum b'q' ≡ (hlib_isalpha b'q' || hlib_isdigit b'q'))
    × (hlib_isxdigit b'q'
        ≡ (between b'0' b'9' b'q' || (between b'A' b'F' b'q' || between b'a' b'f' b'q')))
    × (hlib_toupper b'q' ≡ not (b'q' == 0))
    × (hlib_tolower b'q' ≡ not (b'q' == 0))
classes-between_example = classes-between b'q' (omega arith)
