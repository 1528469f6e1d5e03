-- ===== src/Inet/Ipv6/Laws.antt =====
-- hlibc/inet.c: `ipv6_to_bin` on groups of hexadecimal digits.
use mathlib.Core.List.{append-nil}
use hlibc.Base.Parsed.{accepted, ◌>>=◌}
use hlibc.Base.{
  ℕ, suc, ◌+◌, ◌*◌, ◌≡◌, refl, ap, ◌∙◌, false, List, [], ◌∷◌, ◌++◌, none, length, drop, drop_all,
  All, ltb, ◌==◌, arith,
}
use hlibc.Inet.Ipv6.{scan, expand, finish, ipv6_to_bin}
use hlibc.Inet.Ipv6.Groups.{IsGroup, bytes, joined, at, length-bytes, scan-joined}

-- Eight groups of one to four digits, with colons between, are accepted, whatever is behind the
-- terminator; of a group with value `v` the bytes `v >> 4` and `v` are stored, cut to eight bits.
pub ipv6_to_bin-joined :
    (gs : List (List ℕ)) (rest dest : List ℕ)
    → All IsGroup gs
    → length gs ≡ 8
    → length dest ≡ 16
    → ipv6_to_bin (joined gs (0 ∷ rest)) dest ≡ accepted (bytes gs)
unfolding ipv6_to_bin finish expand scan
ipv6_to_bin-joined [] rest dest h n l = absurd (omega arith)
ipv6_to_bin-joined ([] ∷ gs) rest dest h n l = absurd (omega (arith, h.0.0))
ipv6_to_bin-joined ((d ∷ g) ∷ gs) rest dest h n l =
    let no_colon : (d == b':') ≡ false = ground (arith, h.0.2.0) in
    let fuel : 8 ≡ suc (length gs + 0) = omega arith in
    let full : ltb (length (bytes ((d ∷ g) ∷ gs))) 16 ≡ false =
      ground (arith, length-bytes ((d ∷ g) ∷ gs)) in
    let nothing : drop (2 * suc (length gs)) dest ≡ [] =
      drop_all (2 * suc (length gs)) dest (omega arith) in
    let src = joined ((d ∷ g) ∷ gs) (0 ∷ rest) in
    let run = scan-joined (d ∷ g) gs 0 (0 ∷ rest) dest h (refl, refl) (omega arith) l in
    rw (no_colon) (
      ap (λ t. scan t (at src [] dest none) >>= finish) fuel
      ∙ ap (λ t. t >>= finish) run
      ∙ rw full
          (ap accepted (ap (bytes ((d ∷ g) ∷ gs) ++◌) nothing ∙ append-nil (bytes ((d ∷ g) ∷ gs)))))
