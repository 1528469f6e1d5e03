-- ===== src/Uri/Examples.antt =====
-- URIs, and the properties at concrete ones.
use mathlib.Core.Path.{refl}
use mathlib.Core.Logic.{◌≢◌}
use hlibc.Base.Parsed.{accepted, refused, undefined}
use hlibc.Base.{
  ℕ, ◌≤◌, length, all_below, ◌≡◌, Bool, true, false, not, ◌&&◌, ◌||◌, List, [], ◌∷◌, ◌++◌, some,
  ltb, ◌==◌, arith,
}
use hlibc.Ctype.{hlib_isalpha}
use hlibc.Inet.Ipv4.{
  ipv4_to_bin, bin_loop, octet_to_bin, second_digit, third_digit, at_end, at_dot, last_round,
  middle_round,
}
use hlibc.Uri.Parts.{
  ipv4, cset_at, is_pct_enc, in_cset, isdigit_at, isxdigit_at, span, expect, expect_test,
  parse_scheme, parse_userinfo, parse_query, parse_fragment, parse_ipvf, ipv6_host, ipv4_host,
  name_host, number_reply, number_host, other_host, host_or, parse_host, parse_port, first_segment,
  path_start, parse_path,
}
use hlibc.Uri.Segments.{
  Segments, two_slashes, part_behind, parse_authority, maybe_authority, parse_behind,
  uri_parse_segments,
}
use hlibc.Uri.Text.{Text}
use hlibc.Uri.Laws.{recompose}
use hlibc.Uri.Recompose.{uri_parse_segments-recompose, uri_parse_segments_defined}
use hlibc.Uri.Tables.{path_cset}
use hlibc.Uri.Grammar.{spelled, char}
use hlibc.Uri.Accepted.{one_digit, two_digits, four_octets, IsUri, uri_parse_segments_accepts}
use hlibc.Uri.Normalize.{escaped, normalize_round, normalize_loop, normalize_with_cset}
use hlibc.Uri.Stable.{IsCset, normalize_with_cset_idempotent}
use hlibc.Uri.HostLaws.{HasNumbers, uri_parse_segments-ipv4_to_bin}

-- "ftp://u@10.0.0.1:21/a?b#c".
abbrev segments : Segments
segments = record {
  scheme = some (b'f' ∷ b't' ∷ b'p' ∷ []);
  userinfo = some (b'u' ∷ []);
  host = some (b'1' ∷ b'0' ∷ b'.' ∷ b'0' ∷ b'.' ∷ b'0' ∷ b'.' ∷ b'1' ∷ []);
  port = some (b'2' ∷ b'1' ∷ []);
  path = b'/' ∷ b'a' ∷ [];
  query = some (b'b' ∷ []);
  fragment = some (b'c' ∷ []);
  host_type = ipv4;
}

abbrev source : List ℕ
source = recompose segments ++ 0 ∷ []

parsed : uri_parse_segments source ≡ accepted segments
unfolding uri_parse_segments parse_behind maybe_authority parse_authority part_behind two_slashes
    parse_path path_start first_segment parse_port parse_host host_or other_host number_host
    number_reply name_host ipv4_host ipv6_host parse_ipvf parse_fragment parse_query parse_userinfo
    parse_scheme expect_test expect span isxdigit_at isdigit_at in_cset is_pct_enc cset_at
    hlib_isalpha ipv4_to_bin bin_loop octet_to_bin second_digit third_digit at_end at_dot last_round
    middle_round
parsed = refl

-- "http://a/".
named : uri_parse_segments (b'h' ∷ b':' ∷ b'/' ∷ b'/' ∷ b'a' ∷ b'/' ∷ 0 ∷ []) ≡ refused
unfolding uri_parse_segments parse_behind maybe_authority parse_authority part_behind two_slashes
    parse_path path_start first_segment parse_port parse_host host_or other_host number_host
    number_reply name_host ipv4_host parse_ipvf parse_fragment parse_query parse_userinfo
    parse_scheme expect_test expect span isxdigit_at isdigit_at in_cset is_pct_enc cset_at
    hlib_isalpha ipv4_to_bin bin_loop octet_to_bin middle_round
named = refl

uri_parse_segments-recompose_example : (rest : List ℕ) × (source ≡ recompose segments ++ 0 ∷ rest)
uri_parse_segments-recompose_example = uri_parse_segments-recompose source segments parsed

uri_parse_segments-ipv4_to_bin_example :
    HasNumbers (some (b'1' ∷ b'0' ∷ b'.' ∷ b'0' ∷ b'.' ∷ b'0' ∷ b'.' ∷ b'1' ∷ []))
uri_parse_segments-ipv4_to_bin_example = uri_parse_segments-ipv4_to_bin source segments parsed

is_text : List ℕ → Bool
is_text [] = false
is_text (c ∷ src) = ltb c 128 && (not (c == b'[') && (c == 0 || is_text src))

is_text-Text : (src : List ℕ) → is_text src ≡ true → Text src
unfolding is_text
is_text-Text [] h = absurd (ground (arith, h))
is_text-Text (c ∷ src) h =
    (ground (arith, h), ground (arith, h), λ e. is_text-Text src (ground (arith, h, e)))

uri_parse_segments_defined_example : uri_parse_segments source ≢ undefined
unfolding is_text
uri_parse_segments_defined_example = uri_parse_segments_defined source (is_text-Text source refl)

-- "%41%2f%e9".
abbrev encoded : List ℕ
encoded = b'%' ∷ b'4' ∷ b'1' ∷ b'%' ∷ b'2' ∷ b'f' ∷ b'%' ∷ b'e' ∷ b'9' ∷ 0 ∷ []

-- "A/%E9".
abbrev decoded : List ℕ
decoded = b'A' ∷ b'/' ∷ b'%' ∷ b'E' ∷ b'9' ∷ 0 ∷ []

normalized : normalize_with_cset encoded path_cset ≡ accepted decoded
unfolding normalize_with_cset normalize_loop normalize_round escaped cset_at
    hlibc.Strings.Hex.hex_val
normalized = refl

path_cset-IsCset : IsCset path_cset
unfolding all_below
path_cset-IsCset = refl

normalize_with_cset_idempotent_example :
    (length decoded ≤ length encoded) × (normalize_with_cset decoded path_cset ≡ accepted decoded)
normalize_with_cset_idempotent_example =
    normalize_with_cset_idempotent encoded path_cset decoded path_cset-IsCset normalized

-- "ftp" and the other parts of `segments` have the form of RFC 3986.
segments-IsUri : IsUri (b'f' ∷ b't' ∷ b'p' ∷ []) segments
segments-IsUri = (
  refl,
  refl,
  (refl, (refl, (refl, tt))),
  (
    char refl refl spelled,
    four_octets (two_digits refl refl refl) (one_digit refl) (one_digit refl) (one_digit refl),
    (refl, (refl, tt)),
  ),
  refl,
  tt,
  char refl refl (char refl refl spelled),
  char refl refl spelled,
  char refl refl spelled,
)

-- "a:'b" is a URI of RFC 3986, and it is refused.
apostrophe : uri_parse_segments (b'a' ∷ b':' ∷ 39 ∷ b'b' ∷ 0 ∷ []) ≡ refused
unfolding uri_parse_segments parse_behind maybe_authority parse_authority part_behind two_slashes
    parse_path path_start first_segment parse_port parse_host host_or other_host number_host
    number_reply name_host ipv4_host parse_ipvf parse_fragment parse_query parse_userinfo
    parse_scheme expect_test expect span isxdigit_at isdigit_at in_cset is_pct_enc cset_at
    hlib_isalpha ipv4_to_bin bin_loop octet_to_bin middle_round
apostrophe = refl

uri_parse_segments_accepts_example :
    uri_parse_segments (recompose segments ++ 0 ∷ b'x' ∷ []) ≡ accepted segments
uri_parse_segments_accepts_example =
    uri_parse_segments_accepts (b'f' ∷ b't' ∷ b'p' ∷ []) segments (b'x' ∷ []) segments-IsUri
