-- ===== src/Uri/Recompose.antt =====
-- hlibc/uri.c: `uri_parse_segments` on any text.
use hlibc.Base.Parsed.{accepted, undefined, accepted-Ensures, undefined-Ensures}
use hlibc.Base.{ℕ, ◌≡◌, ◌≢◌, List, ◌∷◌, ◌++◌}
use hlibc.Uri.Segments.{Segments, uri_parse_segments}
use hlibc.Uri.Text.{Text}
use hlibc.Uri.Laws.{recompose, uri_parse_segments-On}

-- An accepted text is its parts put together again, as RFC 3986 does it, up to its terminator.
pub uri_parse_segments-recompose :
    (src : List ℕ) (s : Segments)
    → uri_parse_segments src ≡ accepted s
    → (rest : List ℕ) × (src ≡ recompose s ++ 0 ∷ rest)
uri_parse_segments-recompose src s h = accepted-Ensures (uri_parse_segments-On src) h

-- On a terminated text of ASCII characters without `[`, every loop ends and every read is inside the
-- text: the result is a value or `EINVAL`.
pub uri_parse_segments_defined : (src : List ℕ) → Text src → uri_parse_segments src ≢ undefined
uri_parse_segments_defined src t = λ h. undefined-Ensures (uri_parse_segments-On src) h t
