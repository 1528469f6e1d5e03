-- ===== src/Uri/Normalize.antt =====
-- hlibc/uri.c: `normalize_with_cset` and the functions `uri_normalize_...`. A result is what is written
-- to `dest`. `toupper` and `tolower` are those of the C locale.
use hlibc.Base.Parsed.{Parsed, accepted, refused, undefined, ◌>>=◌, peek}
use hlibc.Base.{
  ℕ, zero, suc, ◌+◌, ◌-◌, ◌*◌, not, ◌&&◌, List, [], ◌∷◌, ◌++◌, length, drop, get_or, map, replicate,
  leb, ◌==◌, if◌then◌else◌, ℤ, pos, negsuc,
}
use hlibc.Ctype.{hlib_isalpha}
use hlibc.Strings.Hex.{hex_val}
use hlibc.Inet.Ipv6.{ipv6_norm}
use hlibc.Uri.Tables.{
  scheme_cset, userinfo_cset, name_cset, query_cset, fragment_cset, ipvf_cset, path_cset,
}
use hlibc.Uri.Parts.{
  ipv4, ipv6, ipvf, name, Host, cset_at, isxdigit_at, span, expect, expect_test, parse_host,
}

abbrev pub toupper : ℕ → ℕ
toupper c = if leb b'a' c && leb c b'z' then c - 32 else c

abbrev pub tolower : ℕ → ℕ
tolower c = if leb b'A' c && leb c b'Z' then c + 32 else c

-- `if (hex_val(c) < 0) return EINVAL`.
abbrev pub nibble : ℤ → Parsed ℕ
nibble (pos n) = accepted n
nibble (negsuc n) = refused

-- What is written for the characters `%`, `a` and `b` with the value `v`.
abbrev pub written : List ℕ → ℕ → ℕ → ℕ → List ℕ → List ℕ
written cset v a b dest =
    if not (get_or cset v 0 == 0) then v ∷ dest else b'%' ∷ toupper a ∷ toupper b ∷ dest

-- The two characters behind `%`, and the rest of the loop.
unfoldable pub escaped : (List ℕ → Parsed (List ℕ)) → List ℕ → List ℕ → Parsed (List ℕ)
escaped next cset src = peek src >>= λ a. nibble (hex_val a) >>= λ x. peek (drop 1 src) >>= λ b.
    nibble (hex_val b) >>= λ y.
    next (drop 2 src) >>= λ dest. accepted (written cset (16 * x + y) a b dest)

-- A round of the loop, which `next` goes on with.
unfoldable pub normalize_round : (List ℕ → Parsed (List ℕ)) → List ℕ → List ℕ → Parsed (List ℕ)
normalize_round next cset [] = undefined
normalize_round next cset (c ∷ src) =
    if c == 0
    then accepted (0 ∷ [])
    else if c == b'%'
    then escaped next cset src
    else cset_at cset (c ∷ src) >>= λ b.
        if b then (next src >>= λ dest. accepted (c ∷ dest)) else refused

-- The loop, on fuel: a round without any is one behind the end of the text.
unfoldable pub normalize_loop : ℕ → List ℕ → List ℕ → Parsed (List ℕ)
normalize_loop zero cset src = undefined
normalize_loop (suc fuel) cset src = normalize_round (normalize_loop fuel cset) cset src

unfoldable pub normalize_with_cset : List ℕ → List ℕ → Parsed (List ℕ)
normalize_with_cset src cset = normalize_loop (length src) cset src

-- The characters behind the first one; no terminator is written.
unfoldable pub scheme_loop : List ℕ → Parsed (List ℕ)
scheme_loop [] = undefined
scheme_loop (c ∷ src) =
    if c == 0
    then accepted []
    else cset_at scheme_cset (c ∷ src) >>= λ b.
        if b then (scheme_loop src >>= λ dest. accepted (tolower c ∷ dest)) else refused

unfoldable pub uri_normalize_scheme : List ℕ → Parsed (List ℕ)
uri_normalize_scheme src = peek src >>= λ c.
    if not (hlib_isalpha c)
    then refused
    else scheme_loop (drop 1 src) >>= λ dest. accepted (tolower c ∷ dest)

unfoldable pub uri_normalize_userinfo : List ℕ → Parsed (List ℕ)
uri_normalize_userinfo src = normalize_with_cset src userinfo_cset

unfoldable pub uri_normalize_path : List ℕ → Parsed (List ℕ)
uri_normalize_path src = normalize_with_cset src path_cset

unfoldable pub uri_normalize_query : List ℕ → Parsed (List ℕ)
uri_normalize_query src = normalize_with_cset src query_cset

unfoldable pub uri_normalize_fragment : List ℕ → Parsed (List ℕ)
uri_normalize_fragment src = normalize_with_cset src fragment_cset

-- The loop that copies an IPv6 host, with `left` rounds left.
unfoldable pub copy_host : ℕ → List ℕ → Parsed (List ℕ)
copy_host zero src = refused
copy_host (suc left) [] = undefined
copy_host (suc left) (c ∷ src) =
    if c == 0
    then refused
    else if c == b']'
    then (peek src >>= λ d. if d == 0 then accepted (0 ∷ []) else refused)
    else copy_host left src >>= λ host. accepted (c ∷ host)

-- `strcat(dest, "]")` on a text with its terminator last.
abbrev pub close_bracket : List ℕ → List ℕ
close_bracket [] = []
close_bracket (c ∷ []) = b']' ∷ 0 ∷ []
close_bracket (c ∷ d ∷ text) = c ∷ close_bracket (d ∷ text)

-- `fuel` is that of `ipv6_to_str`.
unfoldable pub normalize_ipv6 : ℕ → List ℕ → Parsed (List ℕ)
normalize_ipv6 fuel src = expect b'[' src >>= λ p1. copy_host 40 p1 >>= λ host.
    ipv6_norm fuel host (replicate 16 0) >>= λ text. accepted (close_bracket (b'[' ∷ text))

unfoldable pub normalize_ipvf : List ℕ → Parsed (List ℕ)
normalize_ipvf src = expect b'[' src >>= λ p1. expect b'v' p1 >>= λ p2.
    expect_test isxdigit_at p2 >>= λ p3. span isxdigit_at p3 >>= λ (version, p4). peek p4 >>= λ c.
    if not (c == b'.')
    then refused
    else (peek p2 >>= λ first. normalize_with_cset p4 ipvf_cset >>= λ dest.
        accepted (b'[' ∷ b'v' ∷ tolower first ∷ map tolower version ++ dest))

-- Of an IPv4 host nothing is written.
unfoldable pub normalize_host : ℕ → Host → List ℕ → Parsed (List ℕ)
normalize_host fuel (ipv4, host, rest) src = accepted []
normalize_host fuel (ipv6, host, rest) src = normalize_ipv6 fuel src
normalize_host fuel (ipvf, host, rest) src = normalize_ipvf src
normalize_host fuel (name, host, rest) src = normalize_with_cset src name_cset

unfoldable pub uri_normalize_host : ℕ → List ℕ → Parsed (List ℕ)
uri_normalize_host fuel src = parse_host src >>= λ host. normalize_host fuel host src
