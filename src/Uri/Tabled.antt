-- ===== src/Uri/Tabled.antt =====
-- hlibc/uri.c: `uri_parse_segments` on URIs with a scheme whose characters are those of the tables of uri.c.
use mathlib.Core.Path.{subst}
use mathlib.Core.List.{append_assoc}
use hlibc.Base.Parsed.{Parsed, accepted}
use hlibc.Base.{
  ℕ, ◌≡◌, refl, sym, ap, ◌∙◌, Bool, true, false, List, [], ◌∷◌, ◌++◌, Option, none, some,
  All-append, all_below, ◌==◌, if◌then◌else◌, arith,
}
use hlibc.Uri.Tables.{userinfo_cset, query_cset, fragment_cset, path_cset}
use hlibc.Uri.Parts.{in_cset, expect, parse_userinfo, HostType, ipv4}
use hlibc.Uri.Segments.{
  Segments, is_some, two_slashes, Authority, parse_authority, maybe_authority, uri_parse_segments,
}
use hlibc.Uri.Laws.{closed, opened, authority_text, recompose, three}
use hlibc.Uri.Accepts.{Chars, HasDigits, span-Chars, Part?, Rooted, parse_behind_lem}
use hlibc.Uri.Whole.{
  AtEnd, Takes, IsScheme, parse_scheme_lem, IsHost, parse_host_lem, Port?, IsAuthority, OneSlash,
  port_After, port_lem, no_userinfo, host_Takes, port_Takes,
}

userinfo_cset-HasDigits : HasDigits userinfo_cset
unfolding all_below
userinfo_cset-HasDigits = (refl, refl)

parse_userinfo_lem :
    (t r : List ℕ) → Chars userinfo_cset t → parse_userinfo (t ++ b'@' ∷ r) ≡ accepted (t, r)
unfolding parse_userinfo expect
parse_userinfo_lem t r h =
    rw (span-Chars userinfo_cset t (b'@' ∷ r) userinfo_cset-HasDigits h (refl, refl, refl)) refl

-- The record for a part behind two slashes.
abbrev authority : Option (List ℕ) → Option (List ℕ) → Option (List ℕ) → Authority
authority userinfo host port = record {
  userinfo = userinfo;
  host = host;
  port = port;
  host_type = ipv4;
}

parse_authority-none :
    (host : List ℕ) (port : Option (List ℕ)) (r : List ℕ)
    → IsHost host
    → Port? port
    → AtEnd r
    → parse_authority (host ++ (opened b':' port ++ r))
      ≡ accepted (authority none (some host) port, r)
unfolding parse_authority
parse_authority-none host port r h p e =
    let whole = sym (append_assoc host (opened b':' port) r) in
    let taken =
      All-append (Takes (in_cset userinfo_cset)) host (opened b':' port) (host_Takes host h.1)
        (port_Takes port p) in
    let no = ap parse_userinfo whole ∙ no_userinfo (host ++ opened b':' port) r taken e in
    rw
      (no, parse_host_lem host (opened b':' port ++ r) h (port_After port r e), port_lem port r p e)
      refl

parse_authority-some :
    (t host : List ℕ) (port : Option (List ℕ)) (r : List ℕ)
    → Chars userinfo_cset t
    → IsHost host
    → Port? port
    → AtEnd r
    → parse_authority (t ++ b'@' ∷ (host ++ (opened b':' port ++ r)))
      ≡ accepted (authority (some t) (some host) port, r)
unfolding parse_authority
parse_authority-some t host port r u h p e =
    rw
      (
        parse_userinfo_lem t (host ++ (opened b':' port ++ r)) u,
        parse_host_lem host (opened b':' port ++ r) h (port_After port r e),
        port_lem port r p e,
      )
      refl

parse_authority_lem :
    (userinfo : Option (List ℕ)) (host : List ℕ) (port : Option (List ℕ)) (r : List ℕ)
    → Part? userinfo_cset userinfo
    → IsHost host
    → Port? port
    → AtEnd r
    → parse_authority (closed b'@' userinfo ++ host ++ opened b':' port ++ r)
      ≡ accepted (authority userinfo (some host) port, r)
parse_authority_lem none host port r u h p e =
    ap parse_authority (append_assoc host (opened b':' port) r)
    ∙ parse_authority-none host port r h p e
parse_authority_lem (some t) host port r u h p e =
    ap parse_authority (
      sym (
        three (t ++ b'@' ∷ []) host (opened b':' port) r
          (sym (append_assoc t (b'@' ∷ []) (host ++ (opened b':' port ++ r)))) refl refl))
    ∙ parse_authority-some t host port r u h p e

-- A text that does not begin with a slash.
abbrev NoSlash : List ℕ → Type 0
NoSlash [] = ⊥
NoSlash (c ∷ r) = (c == b'/') ≡ false

slash_then :
    (b : Bool) {m : Parsed Bool}
    → (b ≡ true → m ≡ accepted false)
    → (if b then m else accepted false) ≡ accepted false
slash_then true h = h refl
slash_then false h = refl

two_slashes_lem :
    (path r : List ℕ) → OneSlash none path → NoSlash r → two_slashes (path ++ r) ≡ accepted false
unfolding two_slashes
two_slashes_lem path [] o s = absurd s
two_slashes_lem [] (x ∷ r) o s = slash_then (x == b'/') (λ h. absurd (ground (arith, h, s)))
two_slashes_lem (c ∷ []) (x ∷ r) o s = slash_then (c == b'/') (λ h. ap accepted s)
two_slashes_lem (c ∷ d ∷ path) (x ∷ r) o s =
    slash_then (c == b'/') (λ h. ap accepted (ground (arith, h, o)))

-- What comes behind the path.
abbrev tail : Option (List ℕ) → Option (List ℕ) → List ℕ → List ℕ
tail q f rest = opened b'?' q ++ (opened b'#' f ++ 0 ∷ rest)

tail_NoSlash : (q f : Option (List ℕ)) (rest : List ℕ) → NoSlash (tail q f rest)
tail_NoSlash none none rest = refl
tail_NoSlash none (some f) rest = refl
tail_NoSlash (some q) f rest = refl

tail_AtEnd : (q f : Option (List ℕ)) (rest : List ℕ) → AtEnd (tail q f rest)
tail_AtEnd none none rest = refl
tail_AtEnd none (some f) rest = refl
tail_AtEnd (some q) f rest = refl

path_AtEnd : (path r : List ℕ) → Rooted true path → AtEnd r → AtEnd (path ++ r)
path_AtEnd [] r h e = e
path_AtEnd (c ∷ path) r h e = ground (arith, h)

maybe_authority_lem :
    (userinfo host port : Option (List ℕ)) (path : List ℕ) (q f : Option (List ℕ)) (rest : List ℕ)
    → IsAuthority userinfo host port
    → OneSlash host path
    → Rooted (is_some host) path
    → maybe_authority (authority_text userinfo host port ++ (path ++ tail q f rest))
      ≡ accepted (authority userinfo host port, path ++ tail q f rest)
unfolding maybe_authority two_slashes
maybe_authority_lem userinfo none port path q f rest (u, p) o h =
    rw (two_slashes_lem path (tail q f rest) o (tail_NoSlash q f rest), u, p) refl
maybe_authority_lem userinfo (some host) port path q f rest (u, k, p) o h =
    parse_authority_lem userinfo host port (path ++ tail q f rest) u k p
      (path_AtEnd path (tail q f rest) h (tail_AtEnd q f rest))

-- The parts of a URI.
abbrev parts : Option (List ℕ) → Authority → List ℕ → Option (List ℕ) → Option (List ℕ) → Segments
parts scheme a path q f = record {
  scheme = scheme;
  userinfo = a.userinfo;
  host = a.host;
  port = a.port;
  path = path;
  query = q;
  fragment = f;
  host_type = a.host_type;
}

-- The text of the parts, read from the left.
recompose_lem :
    (scheme : List ℕ) (userinfo host port : Option (List ℕ)) (path : List ℕ) (q f : Option (List ℕ))
    (rest : List ℕ)
    → recompose (parts (some scheme) (authority userinfo host port) path q f) ++ 0 ∷ rest
      ≡ scheme ++ b':' ∷ (authority_text userinfo host port ++ (path ++ tail q f rest))
recompose_lem scheme userinfo host port path q f rest =
    let end = sym (three path (opened b'?' q) (opened b'#' f) (0 ∷ rest) refl refl refl) in
    sym (
      three (scheme ++ b':' ∷ []) (authority_text userinfo host port)
        (path ++ opened b'?' q ++ opened b'#' f) (0 ∷ rest) refl refl refl)
    ∙ append_assoc scheme (b':' ∷ []) _
    ∙ ap (λ t. scheme ++ b':' ∷ (authority_text userinfo host port ++ t)) end

parts_lem :
    (scheme : List ℕ) (userinfo host port : Option (List ℕ)) (path : List ℕ) (q f : Option (List ℕ))
    (rest : List ℕ)
    → IsScheme scheme
    → IsAuthority userinfo host port
    → Rooted (is_some host) path
    → OneSlash host path
    → Chars path_cset path
    → Part? query_cset q
    → Part? fragment_cset f
    → uri_parse_segments
        (scheme ++ b':' ∷ (authority_text userinfo host port ++ (path ++ tail q f rest)))
      ≡ accepted (parts (some scheme) (authority userinfo host port) path q f)
unfolding uri_parse_segments
parts_lem scheme userinfo host port path q f rest h a ro o p u v =
    rw
      (
        parse_scheme_lem scheme (authority_text userinfo host port ++ (path ++ tail q f rest)) h,
        maybe_authority_lem userinfo host port path q f rest a o ro,
      )
      (parse_behind_lem scheme (authority userinfo host port) path q f rest ro p u v)

-- A URI with a scheme, and with an IPv4 address if it has a host.
abbrev pub IsTabled : List ℕ → Segments → Type 0
IsTabled scheme s =
    (s.scheme ≡ some scheme)
    × (s.host_type ≡ ipv4)
    × IsScheme scheme
    × IsAuthority s.userinfo s.host s.port
    × Rooted (is_some s.host) s.path
    × OneSlash s.host s.path
    × Chars path_cset s.path
    × Part? query_cset s.query
    × Part? fragment_cset s.fragment

-- The text of a URI of characters of the tables, with a scheme, and with an IPv4 address if it has a host, is
-- taken apart into its parts, whatever is behind its terminator.
pub uri_parse_segments-IsTabled :
    (scheme : List ℕ) (s : Segments) (rest : List ℕ)
    → IsTabled scheme s
    → uri_parse_segments (recompose s ++ 0 ∷ rest) ≡ accepted s
uri_parse_segments-IsTabled scheme s rest (sc, ty, h, a, ro, o, p, u, v) =
    let made : Option (List ℕ) → HostType → Segments =
      λ x y. record s { scheme = x; host_type = y } in
    subst
      (λ x.
        uri_parse_segments (recompose (made x s.host_type) ++ 0 ∷ rest)
        ≡ accepted (made x s.host_type))
      (sym sc)
      (subst
        (λ y.
          uri_parse_segments (recompose (made (some scheme) y) ++ 0 ∷ rest)
          ≡ accepted (made (some scheme) y))
        (sym ty)
        (ap uri_parse_segments
            (recompose_lem scheme s.userinfo s.host s.port s.path s.query s.fragment rest)
          ∙ parts_lem scheme s.userinfo s.host s.port s.path s.query s.fragment rest h a ro o p u
              v))
