-- ===== src/Uri/Parts.antt =====
-- hlibc/uri.c: the tests on characters and the functions for one part of a URI. `char` is signed, so
-- that a byte from 128 on is an index outside a table of characters. Where a function moves `pos`, its
-- result has the text that is left; `isxdigit` and `isdigit` are those of the C locale.
use hlibc.Base.Parsed.{Parsed, accepted, refused, undefined, ◌>>=◌, peek}
use hlibc.Base.{
  ℕ, zero, suc, Bool, true, false, not, ◌&&◌, ◌||◌, List, [], ◌∷◌, ◌++◌, Option, none, some, drop,
  get_or, replicate, ltb, ◌==◌, if◌then◌else◌, Outcome, done, fault, Status, success, einval,
  enomem,
}
use hlibc.Ctype.{hlib_isalpha}
use hlibc.Inet.Ipv4.{isdigit, ipv4_to_bin}
use hlibc.Inet.Ipv6.{isxdigit, ipv6_to_bin}
use hlibc.Uri.Tables.{
  scheme_cset, userinfo_cset, name_cset, query_cset, fragment_cset, ipvf_cset, path_cset,
}

-- A test at a position, and a function that moves the position behind the text that it takes.
abbrev pub Test : Type 0
Test = List ℕ → Parsed Bool

abbrev pub Taken : Type 0
Taken = Parsed (List ℕ × List ℕ)

-- A function that fails leaves the position where it was.
abbrev pub attempt : {A : Type 0} → Parsed A → Parsed (Option A)
attempt (accepted a) = accepted (some a)
attempt refused = accepted none
attempt undefined = undefined

unfoldable pub cset_at : List ℕ → Test
cset_at cset [] = undefined
cset_at cset (c ∷ pos) = if ltb c 128 then accepted (not (get_or cset c 0 == 0)) else undefined

unfoldable pub is_pct_enc : Test
is_pct_enc [] = undefined
is_pct_enc (c ∷ pos) =
    if c == b'%'
    then (peek pos >>= λ a.
        if isxdigit a then (peek (drop 1 pos) >>= λ b. accepted (isxdigit b)) else accepted false)
    else accepted false

-- `is_userinfo_cset`, `is_query_cset`, `is_fragment_cset`, `is_name_cset` and `is_path_cset`.
unfoldable pub in_cset : List ℕ → Test
in_cset cset pos = cset_at cset pos >>= λ b. if b then accepted true else is_pct_enc pos

unfoldable pub isdigit_at : Test
isdigit_at pos = peek pos >>= λ c. accepted (isdigit c)

unfoldable pub isxdigit_at : Test
isxdigit_at pos = peek pos >>= λ c. accepted (isxdigit c)

-- `while (test(pos)) pos++`.
unfoldable pub span : Test → List ℕ → Taken
span test [] = undefined
span test (c ∷ pos) = test (c ∷ pos) >>= λ b.
    if b
    then (span test pos >>= λ (taken, rest). accepted (c ∷ taken, rest))
    else accepted ([], c ∷ pos)

-- `if (*pos++ != c) return EINVAL`, and the same with a test.
unfoldable pub expect : ℕ → List ℕ → Parsed (List ℕ)
expect c [] = undefined
expect c (x ∷ pos) = if x == c then accepted pos else refused

unfoldable pub expect_test : Test → List ℕ → Parsed (List ℕ)
expect_test test pos = test pos >>= λ b. if b then accepted (drop 1 pos) else refused

unfoldable pub parse_scheme : List ℕ → Taken
parse_scheme src = peek src >>= λ c.
    if not (hlib_isalpha c)
    then refused
    else (span (cset_at scheme_cset) src >>= λ (scheme, pos).
        expect b':' pos >>= λ rest. accepted (scheme, rest))

unfoldable pub parse_userinfo : List ℕ → Taken
parse_userinfo src = span (in_cset userinfo_cset) src >>= λ (userinfo, pos).
    expect b'@' pos >>= λ rest. accepted (userinfo, rest)

unfoldable pub parse_query : List ℕ → Taken
parse_query src = span (in_cset query_cset) src

unfoldable pub parse_fragment : List ℕ → Taken
parse_fragment src = span (in_cset fragment_cset) src

unfoldable pub parse_ipvf : List ℕ → Parsed (List ℕ)
parse_ipvf src = expect b'[' src >>= λ p1. expect b'v' p1 >>= λ p2.
    expect_test isxdigit_at p2 >>= λ p3. span isxdigit_at p3 >>= λ (version, p4).
    expect b'.' p4 >>= λ p5. expect_test (cset_at ipvf_cset) p5 >>= λ p6.
    span (cset_at ipvf_cset) p6 >>= λ (address, p7). expect b']' p7

pub data HostType : Type 0 where
  ipv4 ipv6 ipvf name : HostType

-- The copy of an IPv6 host into a buffer of 40 bytes, with `left` rounds left.
unfoldable pub ipv6_host : ℕ → List ℕ → Parsed (List ℕ)
ipv6_host zero pos = accepted []
ipv6_host (suc left) [] = undefined
ipv6_host (suc left) (c ∷ pos) =
    if c == 0
    then refused
    else if c == b']'
    then accepted (0 ∷ [])
    else ipv6_host left pos >>= λ host. accepted (c ∷ host)

abbrev pub digit_before : ℕ → Option (List ℕ × List ℕ) → Option (List ℕ × List ℕ)
digit_before c none = none
digit_before c (some (host, rest)) = some (c ∷ host, rest)

-- The digits and dots of an IPv4 host, if they end within 16 rounds, and the text behind them.
unfoldable pub ipv4_host : ℕ → List ℕ → Parsed (Option (List ℕ × List ℕ))
ipv4_host zero pos = accepted none
ipv4_host (suc left) [] = undefined
ipv4_host (suc left) (c ∷ pos) =
    if isdigit c || c == b'.'
    then (ipv4_host left pos >>= λ o. accepted (digit_before c o))
    else accepted (some ([], c ∷ pos))

-- The type of a host, and what `*src_pos` has moved over: only an IPv4 host is moved over.
abbrev pub Host : Type 0
Host = HostType × List ℕ × List ℕ

unfoldable pub name_host : List ℕ → Parsed Host
name_host src = span (in_cset name_cset) src >>= λ moved. accepted (name, [], src)

-- What becomes of the reply of `ipv4_to_bin`.
unfoldable pub number_reply : List ℕ → List ℕ → List ℕ → Outcome (Status × List ℕ) → Parsed Host
number_reply src host rest fault = undefined
number_reply src host rest (done (success, bin)) = accepted (ipv4, host, rest)
number_reply src host rest (done (einval, bin)) = name_host src
number_reply src host rest (done (enomem, bin)) = name_host src

unfoldable pub number_host : List ℕ → Option (List ℕ × List ℕ) → Parsed Host
number_host src none = name_host src
number_host src (some (host, rest)) = number_reply src host rest (ipv4_to_bin (host ++ 0 ∷ []))

-- A host that is no IPvFuture one. The bytes of `bin` are stored before `ipv6_to_bin` reads them.
unfoldable pub other_host : List ℕ → Parsed Host
other_host src = peek src >>= λ c.
    if c == b'['
    then (ipv6_host 40 (drop 1 src) >>= λ host.
        ipv6_to_bin host (replicate 16 0) >>= λ bin. accepted (ipv6, [], src))
    else ipv4_host 16 src >>= number_host src

-- What comes after the attempt at an IPvFuture host.
unfoldable pub host_or : List ℕ → Option (List ℕ) → Parsed Host
host_or src (some rest) = accepted (ipvf, [], src)
host_or src none = other_host src

unfoldable pub parse_host : List ℕ → Parsed Host
parse_host src = attempt (parse_ipvf src) >>= host_or src

unfoldable pub parse_port : List ℕ → Taken
parse_port src = span isdigit_at src

-- The loop that refuses a colon in the first segment of a relative path.
unfoldable pub first_segment : List ℕ → Taken
first_segment [] = undefined
first_segment (c ∷ pos) = in_cset path_cset (c ∷ pos) >>= λ b.
    if b && not (c == b'/')
    then (if c == b':'
        then refused
        else first_segment pos >>= λ (taken, rest). accepted (c ∷ taken, rest))
    else accepted ([], c ∷ pos)

-- What `parse_path` does before its last loop.
unfoldable pub path_start : List ℕ → Bool → Bool → Taken
path_start src scheme true = peek src >>= λ c.
    if c == b'/'
    then accepted ([], src)
    else in_cset path_cset src >>= λ b. if b then refused else accepted ([], src)
path_start src false false = first_segment src
path_start src true false = accepted ([], src)

unfoldable pub parse_path : List ℕ → Bool → Bool → Taken
parse_path src scheme authority = path_start src scheme authority >>= λ (front, pos).
    span (in_cset path_cset) pos >>= λ (back, rest). accepted (front ++ back, rest)
