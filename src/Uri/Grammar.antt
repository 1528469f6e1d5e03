-- ===== src/Uri/Grammar.antt =====
-- hlibc/uri.c: the characters of RFC 3986, and those of the tables of uri.c.
use hlibc.Base.{
  ℕ, ◌<◌, ◌≡◌, refl, Bool, true, false, not, ◌&&◌, ◌||◌, List, [], ◌∷◌, Option, none, some, get_or,
  All, ltb, leb, ◌==◌, all_below, all_below_sound, arith,
}
use hlibc.Ctype.{hlib_isalpha}
use hlibc.Uri.Tables.{scheme_cset, userinfo_cset, query_cset, fragment_cset, path_cset}
use hlibc.Uri.Accepts.{Chars, ends, plain, encoded, Part?}
use hlibc.Uri.Whole.{IsScheme}

-- The classes of characters.
abbrev alpha : ℕ → Bool
alpha c = leb b'A' c && leb c b'Z' || leb b'a' c && leb c b'z'

abbrev pub digit : ℕ → Bool
digit c = leb b'0' c && leb c b'9'

abbrev hexdig : ℕ → Bool
hexdig c = digit c || (leb b'A' c && leb c b'F' || leb b'a' c && leb c b'f')

abbrev unreserved : ℕ → Bool
unreserved c = alpha c || digit c || c == b'-' || c == b'.' || c == b'_' || c == b'~'

-- 39 is the apostrophe.
abbrev sub_delims : ℕ → Bool
sub_delims c =
    (c == b'!' || c == b'$' || c == b'&' || c == 39 || c == b'(' || c == b')')
    || (c == b'*' || c == b'+' || c == b',' || c == b';' || c == b'=')

-- The characters of the parts of a URI.
abbrev of_scheme : ℕ → Bool
of_scheme c = alpha c || digit c || c == b'+' || c == b'-' || c == b'.'

abbrev pub of_userinfo : ℕ → Bool
of_userinfo c = unreserved c || sub_delims c || c == b':'

abbrev pchar : ℕ → Bool
pchar c = unreserved c || sub_delims c || c == b':' || c == b'@'

abbrev pub of_path : ℕ → Bool
of_path c = pchar c || c == b'/'

abbrev pub of_query : ℕ → Bool
of_query c = pchar c || c == b'/' || c == b'?'

-- Characters of a class but the apostrophe, and `%` with two digits.
pub data Spelled (class : ℕ → Bool) : List ℕ → Type 0 where
  spelled : Spelled class []
  char :
      {c : ℕ} {t : List ℕ}
      → class c ≡ true
      → (c == 39) ≡ false
      → Spelled class t
      → Spelled class (c ∷ t)
  pct_encoded :
      {a b : ℕ} {t : List ℕ}
      → hexdig a ≡ true
      → hexdig b ≡ true
      → Spelled class t
      → Spelled class (b'%' ∷ a ∷ b ∷ t)

abbrev pub Spelled? : (ℕ → Bool) → Option (List ℕ) → Type 0
Spelled? class none = Unit
Spelled? class (some t) = Spelled class t

abbrev pub Scheme : List ℕ → Type 0
Scheme [] = ⊥
Scheme (c ∷ t) = (alpha c ≡ true) × All (λ x. of_scheme x ≡ true) t

-- ASCII characters of the class, the apostrophe aside, are in the table.
abbrev within : (ℕ → Bool) → List ℕ → ℕ → Bool
within class cset c = not (class c) || (c == 39 || not (get_or cset c 0 == 0))

abbrev Within : (ℕ → Bool) → List ℕ → Type 0
Within class cset = all_below 128 (within class cset) ≡ true

userinfo_Within : Within of_userinfo userinfo_cset
unfolding all_below
userinfo_Within = refl

path_Within : Within of_path path_cset
unfolding all_below
path_Within = refl

query_Within : Within of_query query_cset
unfolding all_below
query_Within = refl

fragment_Within : Within of_query fragment_cset
unfolding all_below
fragment_Within = refl

scheme_Within : Within of_scheme scheme_cset
unfolding all_below
scheme_Within = refl

-- A class of ASCII characters.
abbrev Ascii : (ℕ → Bool) → Type 0
Ascii class = (c : ℕ) → class c ≡ true → c < 128

query_Ascii : Ascii of_query
query_Ascii c h = ground (arith, h)

in_table :
    (class : ℕ → Bool) (cset : List ℕ) (c : ℕ)
    → Within class cset
    → c < 128
    → class c ≡ true
    → (c == 39) ≡ false
    → (get_or cset c 0 == 0) ≡ false
in_table class cset c w small h n =
    let k = all_below_sound 128 (within class cset) c w small in ground (arith, h, n, k)

Spelled-Chars :
    (class : ℕ → Bool) (cset t : List ℕ)
    → Ascii class
    → Within class cset
    → Spelled class t
    → Chars cset t
Spelled-Chars class cset [] small w s = ends
Spelled-Chars class cset (c ∷ t) small w (char h n s) =
    plain (ground (arith, small c h)) (in_table class cset c w (small c h) h n)
      (Spelled-Chars class cset t small w s)
Spelled-Chars class cset (_ ∷ a ∷ b ∷ t) small w (pct_encoded p q s) =
    encoded p q (Spelled-Chars class cset t small w s)

part_Chars :
    (class : ℕ → Bool) (cset : List ℕ) (o : Option (List ℕ))
    → Ascii class
    → Within class cset
    → Spelled? class o
    → Part? cset o
part_Chars class cset none small w s = tt
part_Chars class cset (some t) small w s = Spelled-Chars class cset t small w s

pub userinfo_Chars : (o : Option (List ℕ)) → Spelled? of_userinfo o → Part? userinfo_cset o
userinfo_Chars o = part_Chars of_userinfo userinfo_cset o (λ c h. ground (arith, h)) userinfo_Within

pub path_Chars : (t : List ℕ) → Spelled of_path t → Chars path_cset t
path_Chars t = Spelled-Chars of_path path_cset t (λ c h. ground (arith, h)) path_Within

pub query_Chars : (o : Option (List ℕ)) → Spelled? of_query o → Part? query_cset o
query_Chars o = part_Chars of_query query_cset o query_Ascii query_Within

pub fragment_Chars : (o : Option (List ℕ)) → Spelled? of_query o → Part? fragment_cset o
fragment_Chars o = part_Chars of_query fragment_cset o query_Ascii fragment_Within

alpha_table : all_below 128 (λ c. not (alpha c) || hlib_isalpha c) ≡ true
unfolding all_below hlib_isalpha
alpha_table = refl

scheme_char :
    (c : ℕ) → of_scheme c ≡ true → (ltb c 128 ≡ true) × ((get_or scheme_cset c 0 == 0) ≡ false)
scheme_char c h =
    let small : c < 128 = ground (arith, h) in
    let other : (c == 39) ≡ false = ground (arith, h) in
    (ground (arith, small), in_table of_scheme scheme_cset c scheme_Within small h other)

scheme_chars :
    (t : List ℕ)
    → All (λ x. of_scheme x ≡ true) t
    → All (λ x. (ltb x 128 ≡ true) × ((get_or scheme_cset x 0 == 0) ≡ false)) t
scheme_chars [] h = tt
scheme_chars (c ∷ t) (h, hs) = (scheme_char c h, scheme_chars t hs)

pub Scheme-IsScheme : (t : List ℕ) → Scheme t → IsScheme t
Scheme-IsScheme [] h = absurd h
Scheme-IsScheme (c ∷ t) (h, hs) =
    let small : c < 128 = ground (arith, h) in
    let k = all_below_sound 128 (λ c. not (alpha c) || hlib_isalpha c) c alpha_table small in
    (ground (arith, h, k), (scheme_char c (ground (arith, h)), scheme_chars t hs))
