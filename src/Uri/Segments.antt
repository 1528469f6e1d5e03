-- ===== src/Uri/Segments.antt =====
-- hlibc/uri.c: `uri_parse_segments`. A `string_view` is `none` for a null pointer, and else the text that
-- it shows.
use hlibc.Base.Parsed.{Parsed, accepted, refused, ◌>>=◌, peek}
use hlibc.Base.{ℕ, Bool, true, false, List, Option, none, some, drop, ◌==◌, if◌then◌else◌}
use hlibc.Uri.Parts.{
  Taken, attempt, HostType, ipv4, parse_scheme, parse_userinfo, parse_host, parse_port, parse_path,
  parse_query, parse_fragment,
}

pub record Segments : Type 0 where
  pub scheme : Option (List ℕ)
  pub userinfo : Option (List ℕ)
  pub host : Option (List ℕ)
  pub port : Option (List ℕ)
  pub path : List ℕ
  pub query : Option (List ℕ)
  pub fragment : Option (List ℕ)
  pub host_type : HostType

abbrev pub is_some : Option (List ℕ) → Bool
is_some none = false
is_some (some text) = true

-- A part and the text behind it; no part, and the text as it is.
abbrev pub Part : Type 0
Part = Option (List ℕ) × List ℕ

abbrev pub or_here : List ℕ → Option (List ℕ × List ℕ) → Part
or_here src none = (none, src)
or_here src (some (text, rest)) = (some text, rest)

-- `*pos++ == '/' && *pos++ == '/'`.
unfoldable pub two_slashes : List ℕ → Parsed Bool
two_slashes src = peek src >>= λ c.
    if c == b'/' then (peek (drop 1 src) >>= λ d. accepted (d == b'/')) else accepted false

-- A part that begins with the character `c`: the port, the query and the fragment.
unfoldable pub part_behind : ℕ → (List ℕ → Taken) → List ℕ → Parsed Part
part_behind c parse src = peek src >>= λ x.
    if x == c
    then (parse (drop 1 src) >>= λ (text, rest). accepted (some text, rest))
    else accepted (none, src)

-- The part behind two slashes: the userinfo, the host with its type, the port.
pub record Authority : Type 0 where
  pub userinfo : Option (List ℕ)
  pub host : Option (List ℕ)
  pub port : Option (List ℕ)
  pub host_type : HostType

unfoldable pub parse_authority : List ℕ → Parsed (Authority × List ℕ)
parse_authority src = attempt (parse_userinfo src) >>= λ o.
    let (userinfo, p1) = or_here src o in
    parse_host p1 >>= λ (type, host, p2). part_behind b':' parse_port p2 >>= λ (port, p3).
    accepted (record { userinfo = userinfo; host = some host; port = port; host_type = type }, p3)

-- `memzero` has set `host_type` to 0, which is `URI_HOST_IPV4`.
abbrev pub no_authority : Authority
no_authority = record { userinfo = none; host = none; port = none; host_type = ipv4 }

unfoldable pub maybe_authority : List ℕ → Parsed (Authority × List ℕ)
maybe_authority src = two_slashes src >>= λ b.
    if b then parse_authority (drop 2 src) else accepted (no_authority, src)

-- The path, the query, the fragment and the terminator.
unfoldable pub parse_behind : Option (List ℕ) → Authority → List ℕ → Parsed Segments
parse_behind scheme a src = parse_path src (is_some scheme) (is_some a.host) >>= λ (path, p1).
    part_behind b'?' parse_query p1 >>= λ (query, p2).
    part_behind b'#' parse_fragment p2 >>= λ (fragment, p3). peek p3 >>= λ c.
    if c == 0
    then accepted (record {
      scheme = scheme;
      userinfo = a.userinfo;
      host = a.host;
      port = a.port;
      path = path;
      query = query;
      fragment = fragment;
      host_type = a.host_type;
    })
    else refused

unfoldable pub uri_parse_segments : List ℕ → Parsed Segments
uri_parse_segments src = attempt (parse_scheme src) >>= λ o.
    let (scheme, p1) = or_here src o in maybe_authority p1 >>= λ (a, p2). parse_behind scheme a p2
