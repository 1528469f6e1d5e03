-- ===== src/Uri/Accepts.antt =====
-- hlibc/uri.c: the loops and the functions for one part, on characters of the tables.
use hlibc.Base.Parsed.{accepted}
use hlibc.Base.{
  ℕ, ◌<◌, ◌≡◌, refl, Bool, true, false, not, ◌||◌, List, [], ◌∷◌, ◌++◌, Option, none, some, get_or,
  ltb, ◌==◌, if◌then◌else◌, all_below, all_below_sound, arith,
}
use hlibc.Inet.Ipv6.{isxdigit}
use hlibc.Uri.Tables.{query_cset, fragment_cset, path_cset}
use hlibc.Uri.Parts.{
  Test, Taken, cset_at, is_pct_enc, in_cset, span, parse_query, parse_fragment, path_start,
  parse_path,
}
use hlibc.Uri.Segments.{is_some, part_behind, Authority, parse_behind}
use hlibc.Uri.Text.{Tried}
use hlibc.Uri.Laws.{opened}

-- Characters of a set, and `%` with two digits.
pub data Chars (cset : List ℕ) : List ℕ → Type 0 where
  ends : Chars cset []
  plain :
      {c : ℕ} {t : List ℕ}
      → ltb c 128 ≡ true
      → (get_or cset c 0 == 0) ≡ false
      → Chars cset t
      → Chars cset (c ∷ t)
  encoded :
      {a b : ℕ} {t : List ℕ}
      → isxdigit a ≡ true
      → isxdigit b ≡ true
      → Chars cset t
      → Chars cset (b'%' ∷ a ∷ b ∷ t)

-- A text that goes on with a character that is not of the set.
abbrev pub Stops : List ℕ → List ℕ → Type 0
Stops cset [] = ⊥
Stops cset (c ∷ r) = (ltb c 128 ≡ true) × ((get_or cset c 0 == 0) ≡ true) × ((c == b'%') ≡ false)

-- A set with the hexadecimal digits and without `%`.
abbrev pub HasDigits : List ℕ → Type 0
HasDigits cset =
    (get_or cset b'%' 0 ≡ 0)
    × (all_below 128 (λ a. not (isxdigit a) || not (get_or cset a 0 == 0)) ≡ true)

pub in_cset-plain :
    (cset pos : List ℕ) (c : ℕ)
    → ltb c 128 ≡ true
    → (get_or cset c 0 == 0) ≡ false
    → in_cset cset (c ∷ pos) ≡ accepted true
unfolding in_cset cset_at
in_cset-plain cset pos c l h = rw (l, h) refl

in_cset-digit :
    (cset pos : List ℕ) (c : ℕ)
    → HasDigits cset
    → isxdigit c ≡ true
    → in_cset cset (c ∷ pos) ≡ accepted true
in_cset-digit cset pos c (z, d) h =
    let small : c < 128 = ground (arith, h) in
    let k = all_below_sound 128 (λ a. not (isxdigit a) || not (get_or cset a 0 == 0)) c d small in
    in_cset-plain cset pos c (ground (arith, h)) (ground (arith, h, k))

in_cset-encoded :
    (cset pos : List ℕ) (a b : ℕ)
    → HasDigits cset
    → isxdigit a ≡ true
    → isxdigit b ≡ true
    → in_cset cset (b'%' ∷ a ∷ b ∷ pos) ≡ accepted true
unfolding in_cset cset_at is_pct_enc
in_cset-encoded cset pos a b d p q = rw (d.0, p, q) refl

pub in_cset-stop :
    (cset r : List ℕ) (c : ℕ) → Stops cset (c ∷ r) → in_cset cset (c ∷ r) ≡ accepted false
unfolding in_cset cset_at is_pct_enc
in_cset-stop cset r c (l, h, p) = rw (l, h, p) refl

pub span_step :
    (test : Test) (c : ℕ) (pos t r : List ℕ)
    → test (c ∷ pos) ≡ accepted true
    → span test pos ≡ accepted (t, r)
    → span test (c ∷ pos) ≡ accepted (c ∷ t, r)
unfolding span
span_step test c pos t r h s = rw (h, s) refl

-- The loop takes the whole part.
pub span-Chars :
    (cset t r : List ℕ)
    → HasDigits cset
    → Chars cset t
    → Stops cset r
    → span (in_cset cset) (t ++ r) ≡ accepted (t, r)
unfolding span
span-Chars cset [] [] d ends s = absurd s
span-Chars cset [] (c ∷ r) d ends s = rw (in_cset-stop cset r c s) refl
span-Chars cset (c ∷ t) r d (plain l h ts) s =
    span_step (in_cset cset) c (t ++ r) t r (in_cset-plain cset (t ++ r) c l h)
      (span-Chars cset t r d ts s)
span-Chars cset (c ∷ a ∷ b ∷ t) r d (encoded p q ts) s =
    span_step (in_cset cset) b'%' (a ∷ b ∷ (t ++ r)) (a ∷ b ∷ t) r
      (in_cset-encoded cset (t ++ r) a b d p q)
      (span_step (in_cset cset) a (b ∷ (t ++ r)) (b ∷ t) r (in_cset-digit cset (b ∷ (t ++ r)) a d p)
        (span_step (in_cset cset) b (t ++ r) t r (in_cset-digit cset (t ++ r) b d q)
          (span-Chars cset t r d ts s)))

path_cset-HasDigits : HasDigits path_cset
unfolding all_below
path_cset-HasDigits = (refl, refl)

query_cset-HasDigits : HasDigits query_cset
unfolding all_below
query_cset-HasDigits = (refl, refl)

fragment_cset-HasDigits : HasDigits fragment_cset
unfolding all_below
fragment_cset-HasDigits = (refl, refl)

-- A part that may be missing.
abbrev pub Part? : List ℕ → Option (List ℕ) → Type 0
Part? cset none = Unit
Part? cset (some t) = Chars cset t

-- The path behind an authority is empty or begins with a slash.
abbrev pub Rooted : Bool → List ℕ → Type 0
Rooted false path = Unit
Rooted true [] = Unit
Rooted true (c ∷ path) = (c == b'/') ≡ true

if_same : {A : Type 0} {x y z : A} (b : Bool) → x ≡ z → y ≡ z → (if b then x else y) ≡ z
if_same true p q = p
if_same false p q = q

path_start_lem :
    (authority : Bool) (path r : List ℕ)
    → Rooted authority path
    → Stops path_cset r
    → path_start (path ++ r) true authority ≡ accepted ([], path ++ r)
unfolding path_start
path_start_lem false path r h s = refl
path_start_lem true [] [] h s = absurd s
path_start_lem true [] (c ∷ r) h s =
    if_same (c == b'/') refl (rw (in_cset-stop path_cset r c s) refl)
path_start_lem true (c ∷ path) r h s = rw h refl

parse_path_lem :
    (authority : Bool) (path r : List ℕ)
    → Rooted authority path
    → Chars path_cset path
    → Stops path_cset r
    → parse_path (path ++ r) true authority ≡ accepted (path, r)
unfolding parse_path
parse_path_lem authority path r h p s =
    rw (path_start_lem authority path r h s, span-Chars path_cset path r path_cset-HasDigits p s)
      refl

-- A part that begins with `c`, and a text behind it that does not.
abbrev pub Begins : ℕ → List ℕ → Type 0
Begins c [] = ⊥
Begins c (x ∷ r) = (x == c) ≡ false

pub part_behind_lem :
    (c : ℕ) (parse : List ℕ → Taken) (o : Option (List ℕ)) (r : List ℕ)
    → Begins c r
    → Tried (λ t. parse (t ++ r) ≡ accepted (t, r)) o
    → part_behind c parse (opened c o ++ r) ≡ accepted (o, r)
unfolding part_behind
part_behind_lem c parse none [] b h = absurd b
part_behind_lem c parse none (x ∷ r) b h = rw b refl
part_behind_lem c parse (some t) r b h =
    let same : (c == c) ≡ true = ground arith in rw (same, h) refl

parse_part :
    (cset : List ℕ) (o : Option (List ℕ)) (r : List ℕ)
    → HasDigits cset
    → Part? cset o
    → Stops cset r
    → Tried (λ t. span (in_cset cset) (t ++ r) ≡ accepted (t, r)) o
parse_part cset none r d p s = tt
parse_part cset (some t) r d p s = span-Chars cset t r d p s

-- What the path, the query and the fragment end at.
hash-Stops : (f : Option (List ℕ)) (rest : List ℕ) → Stops query_cset (opened b'#' f ++ 0 ∷ rest)
hash-Stops none rest = (refl, refl, refl)
hash-Stops (some t) rest = (refl, refl, refl)

hash-Begins : (f : Option (List ℕ)) (rest : List ℕ) → Begins b'?' (opened b'#' f ++ 0 ∷ rest)
hash-Begins none rest = refl
hash-Begins (some t) rest = refl

mark-Stops :
    (q f : Option (List ℕ)) (rest : List ℕ)
    → Stops path_cset (opened b'?' q ++ (opened b'#' f ++ 0 ∷ rest))
mark-Stops none none rest = (refl, refl, refl)
mark-Stops none (some t) rest = (refl, refl, refl)
mark-Stops (some t) f rest = (refl, refl, refl)

-- The parts behind the authority, which has an empty path or one that begins with a slash.
pub parse_behind_lem :
    (s : List ℕ) (a : Authority) (path : List ℕ) (q f : Option (List ℕ)) (rest : List ℕ)
    → Rooted (is_some a.host) path
    → Chars path_cset path
    → Part? query_cset q
    → Part? fragment_cset f
    → parse_behind (some s) a (path ++ (opened b'?' q ++ (opened b'#' f ++ 0 ∷ rest)))
      ≡ accepted (record {
        scheme = some s;
        userinfo = a.userinfo;
        host = a.host;
        port = a.port;
        path = path;
        query = q;
        fragment = f;
        host_type = a.host_type;
      })
unfolding parse_behind parse_query parse_fragment
parse_behind_lem s a path q f rest h p u v =
    rw
      (
        parse_path_lem (is_some a.host) path (opened b'?' q ++ (opened b'#' f ++ 0 ∷ rest)) h p
            (mark-Stops q f rest),
        part_behind_lem b'?' (span (in_cset query_cset)) q (opened b'#' f ++ 0 ∷ rest)
            (hash-Begins f rest)
            (parse_part query_cset q (opened b'#' f ++ 0 ∷ rest) query_cset-HasDigits u
              (hash-Stops f rest)),
        part_behind_lem b'#' (span (in_cset fragment_cset)) f (0 ∷ rest) refl
            (parse_part fragment_cset f (0 ∷ rest) fragment_cset-HasDigits v (refl, refl, refl)),
      )
      refl
