-- ===== src/Ctype/Ranges.antt =====
-- hlibc/ctype.c and include/hlibc/ctype.h: the tables and the ranges of ASCII.
use hlibc.Base.{
  ℕ, ◌<◌, ◌≡◌, refl, Bool, true, false, ◌&&◌, ◌||◌, not, leb, ◌==◌, all_below, all_below_sound,
  arith,
}
use hlibc.Ctype.{
  hlib_isalpha, hlib_isalnum, hlib_isdigit, hlib_isxdigit, hlib_toupper, hlib_tolower,
}

abbrev pub between : ℕ → ℕ → ℕ → Bool
between lo hi c = leb lo c && leb c hi

same : Bool → Bool → Bool
same true b = b
same false b = not b

eq_of_same : (a b : Bool) → same a b ≡ true → a ≡ b
unfolding same
eq_of_same true true h = refl
eq_of_same true false h = ground arith
eq_of_same false true h = ground arith
eq_of_same false false h = refl

module _ (test spec : ℕ → Bool) (checked : all_below 256 (λ c. same (test c) (spec c)) ≡ true) where
  agree : (c : ℕ) → c < 256 → test c ≡ spec c
  agree c h =
      eq_of_same (test c) (spec c) (all_below_sound 256 (λ x. same (test x) (spec x)) c checked h)

-- The conversion of a character of the table to `bool`.
hlib_toupper-hlib_tolower_bool :
    (c : ℕ) → c < 256 → (hlib_toupper c ≡ not (c == 0)) × (hlib_tolower c ≡ not (c == 0))
unfolding all_below same hlib_toupper hlib_tolower
hlib_toupper-hlib_tolower_bool c h = (
  agree hlib_toupper (λ x. not (x == 0)) refl c h,
  agree hlib_tolower (λ x. not (x == 0)) refl c h,
)

-- The four classes are the ASCII ranges, over all bytes. `hlib_toupper` and `hlib_tolower` return no
-- character: they return whether the byte is not zero.
pub classes-between :
    (c : ℕ)
    → c < 256
    → (hlib_isalpha c ≡ (between b'A' b'Z' c || between b'a' b'z' c))
      × (hlib_isdigit c ≡ between b'0' b'9' c)
      × (hlib_isalnum c ≡ (hlib_isalpha c || hlib_isdigit c))
      × (hlib_isxdigit c ≡ (between b'0' b'9' c || (between b'A' b'F' c || between b'a' b'f' c)))
      × (hlib_toupper c ≡ not (c == 0))
      × (hlib_tolower c ≡ not (c == 0))
unfolding all_below same hlib_isalpha hlib_isalnum hlib_isdigit hlib_isxdigit
classes-between c h = (
  agree hlib_isalpha (λ x. between b'A' b'Z' x || between b'a' b'z' x) refl c h,
  agree hlib_isdigit (between b'0' b'9') refl c h,
  agree hlib_isalnum (λ x. hlib_isalpha x || hlib_isdigit x) refl c h,
  agree hlib_isxdigit (λ x. between b'0' b'9' x || (between b'A' b'F' x || between b'a' b'f' x))
      refl c h,
  (hlib_toupper-hlib_tolower_bool c h).0,
  (hlib_toupper-hlib_tolower_bool c h).1,
)
