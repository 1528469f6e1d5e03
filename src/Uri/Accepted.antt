-- ===== src/Uri/Accepted.antt =====
-- hlibc/uri.c: `uri_parse_segments` on URIs in the form of RFC 3986.
use hlibc.Base.Parsed.{accepted}
use hlibc.Base.{
  ℕ, ◌+◌, ◌-◌, ◌*◌, ◌<◌, ◌≤◌, ◌≡◌, refl, sym, true, false, ◌||◌, List, [], ◌∷◌, ◌++◌, Option, none,
  some, All, All-append, length, length-append, ◌==◌, arith,
}
use mathlib.Core.List.{append_assoc}
use hlibc.Inet.Ipv4.{octet_to_str, isdigit}
use hlibc.Inet.Ipv4Laws.{ipv4_to_bin-octet_to_str}
use hlibc.Uri.Segments.{Segments, is_some, uri_parse_segments}
use hlibc.Uri.Parts.{ipv4}
use hlibc.Uri.Laws.{recompose}
use hlibc.Uri.Accepts.{Rooted}
use hlibc.Uri.Whole.{IsHost, Port?, IsAuthority, OneSlash}
use hlibc.Uri.Tabled.{uri_parse_segments-IsTabled}
use hlibc.Uri.Grammar.{
  digit, of_userinfo, of_path, of_query, Spelled, Spelled?, Scheme, userinfo_Chars, path_Chars,
  query_Chars, fragment_Chars, Scheme-IsScheme,
}

-- A number up to 255 without a leading zero.
pub data DecOctet : List ℕ → Type 0 where
  one_digit : {a : ℕ} → digit a ≡ true → DecOctet (a ∷ [])
  two_digits :
      {a b : ℕ} → digit a ≡ true → (a == b'0') ≡ false → digit b ≡ true → DecOctet (a ∷ b ∷ [])
  three_digits :
      {a b c : ℕ}
      → digit a ≡ true
      → (a == b'0') ≡ false
      → digit b ≡ true
      → digit c ≡ true
      → 100 * (a - b'0') + 10 * (b - b'0') + (c - b'0') < 256
      → DecOctet (a ∷ b ∷ c ∷ [])

pub data Ipv4Address : List ℕ → Type 0 where
  four_octets :
      {a b c d : List ℕ}
      → DecOctet a
      → DecOctet b
      → DecOctet c
      → DecOctet d
      → Ipv4Address (a ++ b'.' ∷ (b ++ b'.' ∷ (c ++ b'.' ∷ d)))

-- Userinfo, host and port, where the host is missing or an IPv4 address.
abbrev pub HasAuthority : Option (List ℕ) → Option (List ℕ) → Option (List ℕ) → Type 0
HasAuthority userinfo none port = (userinfo ≡ none) × (port ≡ none)
HasAuthority userinfo (some host) port =
    Spelled? of_userinfo userinfo × Ipv4Address host × Port? port

-- A URI with a scheme, without an apostrophe, and with an IPv4 address if it has a host. Its path begins
-- with a slash or is empty behind an authority, and does not begin with two slashes without one.
abbrev pub IsUri : List ℕ → Segments → Type 0
IsUri scheme s =
    (s.scheme ≡ some scheme)
    × (s.host_type ≡ ipv4)
    × Scheme scheme
    × HasAuthority s.userinfo s.host s.port
    × Rooted (is_some s.host) s.path
    × OneSlash s.host s.path
    × Spelled of_path s.path
    × Spelled? of_query s.query
    × Spelled? of_query s.fragment

-- A number, as `ipv4_to_str` writes it.
abbrev Written : List ℕ → Type 0
Written t =
    (v : ℕ) × (v < 256)
    × (octet_to_str v ≡ t)
    × (length t ≤ 3)
    × All (λ c. (isdigit c || c == b'.') ≡ true) t

DecOctet-Written : (t : List ℕ) → DecOctet t → Written t
unfolding octet_to_str
DecOctet-Written [] h = elim h [ ]
DecOctet-Written (a ∷ b ∷ c ∷ d ∷ t) h = elim h [ ]
DecOctet-Written (a ∷ []) (one_digit h) =
    (a - b'0', ground (arith, h), ground (arith, h), omega arith, (ground (arith, h), tt))
DecOctet-Written (a ∷ b ∷ []) (two_digits h n k) = (
  10 * (a - b'0') + (b - b'0'),
  ground (arith, h, k),
  ground (arith, h, n, k),
  omega arith,
  (ground (arith, h), (ground (arith, k), tt)),
)
DecOctet-Written (a ∷ b ∷ c ∷ []) (three_digits h n k l small) = (
  100 * (a - b'0') + 10 * (b - b'0') + (c - b'0'),
  small,
  ground (arith, h, n, k, l, small),
  omega arith,
  (ground (arith, h), (ground (arith, k), (ground (arith, l), tt))),
)

-- Two texts with a dot between them.
joined_digits :
    (t r : List ℕ)
    → All (λ c. (isdigit c || c == b'.') ≡ true) t
    → All (λ c. (isdigit c || c == b'.') ≡ true) r
    → All (λ c. (isdigit c || c == b'.') ≡ true) (t ++ b'.' ∷ r)
joined_digits t r h k = All-append (λ c. (isdigit c || c == b'.') ≡ true) t (b'.' ∷ r) h (refl, k)

Ipv4Address-IsHost : (host : List ℕ) → Ipv4Address host → IsHost host
Ipv4Address-IsHost host (four_octets {a = a} {b = b} {c = c} {d = d} p q r s) =
    let (i, i_small, i_text, i_short, i_digits) = DecOctet-Written a p in
    let (j, j_small, j_text, j_short, j_digits) = DecOctet-Written b q in
    let (k, k_small, k_text, k_short, k_digits) = DecOctet-Written c r in
    let (l, l_small, l_text, l_short, l_digits) = DecOctet-Written d s in
    (
      omega (
        arith,
        length-append a (b'.' ∷ (b ++ b'.' ∷ (c ++ b'.' ∷ d))),
        length-append b (b'.' ∷ (c ++ b'.' ∷ d)),
        length-append c (b'.' ∷ d),
        i_short,
        j_short,
        k_short,
        l_short,
      ),
      joined_digits a (b ++ b'.' ∷ (c ++ b'.' ∷ d)) i_digits
          (joined_digits b (c ++ b'.' ∷ d) j_digits (joined_digits c d k_digits l_digits)),
      (
        i ∷ j ∷ k ∷ l ∷ [],
        rw
            (
              append_assoc a (b'.' ∷ (b ++ b'.' ∷ (c ++ b'.' ∷ d))) (0 ∷ []),
              append_assoc b (b'.' ∷ (c ++ b'.' ∷ d)) (0 ∷ []),
              append_assoc c (b'.' ∷ d) (0 ∷ []),
              sym i_text,
              sym j_text,
              sym k_text,
              sym l_text,
            )
            (ipv4_to_bin-octet_to_str i j k l (i_small, (j_small, (k_small, (l_small, tt))))),
      ),
    )

HasAuthority-IsAuthority :
    (userinfo host port : Option (List ℕ))
    → HasAuthority userinfo host port
    → IsAuthority userinfo host port
HasAuthority-IsAuthority userinfo none port h = h
HasAuthority-IsAuthority userinfo (some host) port (u, h, p) =
    (userinfo_Chars userinfo u, Ipv4Address-IsHost host h, p)

-- The text of a URI in the form of RFC 3986 with a scheme, without an apostrophe, and with an IPv4 address
-- if it has a host, is taken apart into its parts, whatever is behind its terminator.
pub uri_parse_segments_accepts :
    (scheme : List ℕ) (s : Segments) (rest : List ℕ)
    → IsUri scheme s
    → uri_parse_segments (recompose s ++ 0 ∷ rest) ≡ accepted s
uri_parse_segments_accepts scheme s rest (sc, ty, h, a, ro, o, p, u, v) =
    uri_parse_segments-IsTabled scheme s rest (
      sc,
      ty,
      Scheme-IsScheme scheme h,
      HasAuthority-IsAuthority s.userinfo s.host s.port a,
      ro,
      o,
      path_Chars s.path p,
      query_Chars s.query u,
      fragment_Chars s.fragment v,
    )
