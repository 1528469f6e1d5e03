-- ===== src/Uri/HostLaws.antt =====
-- hlibc/uri.c: the hosts that `parse_host` moves over.
use hlibc.Base.Parsed.{
  Parsed, accepted, Ensures, holds, refusal, blame, Ensures-bind, Ensures-any, accepted-Ensures,
  peek,
}
use hlibc.Base.{
  ℕ, ◌≡◌, ◌⊎◌, inl, inr, refl, sym, List, [], ◌∷◌, ◌++◌, Option, none, some, drop, ◌==◌, Outcome,
  done, fault, Status, success, einval, enomem, replicate,
}
use hlibc.Inet.Ipv4.{ipv4_to_bin}
use hlibc.Inet.Ipv6.{ipv6_to_bin}
use hlibc.Uri.Parts.{
  Host, attempt, parse_ipvf, parse_userinfo, ipv6_host, ipv4_host, span, in_cset, name_host,
  number_reply, number_host, other_host, host_or, parse_host, parse_port, parse_scheme, parse_path,
  parse_query, parse_fragment,
}
use hlibc.Uri.Tables.{name_cset}
use hlibc.Uri.Segments.{
  Segments, is_some, Authority, or_here, two_slashes, part_behind, parse_authority, maybe_authority,
  parse_behind, uri_parse_segments,
}
use hlibc.Uri.Text.{Ensures-if}

-- Nothing, or the text of an IPv4 address.
abbrev pub IsNumbers : List ℕ → Type 0
IsNumbers host =
    (host ≡ []) ⊎ ((bin : List ℕ) × (ipv4_to_bin (host ++ 0 ∷ []) ≡ done (success, bin)))

abbrev OnHost : Host → Type 0
OnHost (type, host, rest) = IsNumbers host

abbrev pub HasNumbers : Option (List ℕ) → Type 0
HasNumbers none = Unit
HasNumbers (some host) = IsNumbers host

abbrev Sure : {A : Type 0} → (A → Type 0) → Parsed A → Type 0
Sure P = Ensures Unit P

name_host-Sure : (src : List ℕ) → Sure OnHost (name_host src)
unfolding name_host
name_host-Sure src =
    Ensures-bind (Ensures-any (span (in_cset name_cset) src)) (λ moved u. holds (inl refl))

number_reply-Sure :
    (src host rest : List ℕ) (m : Outcome (Status × List ℕ))
    → m ≡ ipv4_to_bin (host ++ 0 ∷ [])
    → Sure OnHost (number_reply src host rest m)
unfolding number_reply
number_reply-Sure src host rest fault e = blame tt
number_reply-Sure src host rest (done (success, bin)) e = holds (inr (bin, sym e))
number_reply-Sure src host rest (done (einval, bin)) e = name_host-Sure src
number_reply-Sure src host rest (done (enomem, bin)) e = name_host-Sure src

number_host-Sure : (src : List ℕ) (o : Option (List ℕ × List ℕ)) → Sure OnHost (number_host src o)
unfolding number_host
number_host-Sure src none = name_host-Sure src
number_host-Sure src (some (host, rest)) =
    number_reply-Sure src host rest (ipv4_to_bin (host ++ 0 ∷ [])) refl

other_host-Sure : (src : List ℕ) → Sure OnHost (other_host src)
unfolding other_host
other_host-Sure [] = blame tt
other_host-Sure (c ∷ src) =
    Ensures-if (c == b'[')
      (λ h. Ensures-bind (Ensures-any (ipv6_host 40 src)) (λ host u.
        Ensures-bind (Ensures-any (ipv6_to_bin host (replicate 16 0))) (λ bin v. holds (inl refl))))
      (λ h.
        Ensures-bind (Ensures-any (ipv4_host 16 (c ∷ src))) (λ o u. number_host-Sure (c ∷ src) o))

host_or-Sure : (src : List ℕ) (o : Option (List ℕ)) → Sure OnHost (host_or src o)
unfolding host_or
host_or-Sure src (some rest) = holds (inl refl)
host_or-Sure src none = other_host-Sure src

parse_host-Sure : (src : List ℕ) → Sure OnHost (parse_host src)
unfolding parse_host
parse_host-Sure src =
    Ensures-bind (Ensures-any (attempt (parse_ipvf src))) (λ o u. host_or-Sure src o)

parse_authority-Sure : (src : List ℕ) → Sure (λ (a, r). HasNumbers a.host) (parse_authority src)
unfolding parse_authority
parse_authority-Sure src = Ensures-bind (Ensures-any (attempt (parse_userinfo src))) (λ o u.
    Ensures-bind (parse_host-Sure (or_here src o).1) (λ (type, host, p2) h.
      Ensures-bind (Ensures-any (part_behind b':' parse_port p2)) (λ port v. holds h)))

maybe_authority-Sure : (src : List ℕ) → Sure (λ (a, r). HasNumbers a.host) (maybe_authority src)
unfolding maybe_authority
maybe_authority-Sure src =
    Ensures-bind (Ensures-any (two_slashes src))
      (λ b u. Ensures-if b (λ h. parse_authority-Sure (drop 2 src)) (λ h. holds tt))

parse_behind-Sure :
    (scheme : Option (List ℕ)) (a : Authority) (src : List ℕ)
    → HasNumbers a.host
    → Sure (λ s. HasNumbers s.host) (parse_behind scheme a src)
unfolding parse_behind
parse_behind-Sure scheme a src h =
    Ensures-bind (Ensures-any (parse_path src (is_some scheme) (is_some a.host))) (λ (path, p1) u.
      Ensures-bind (Ensures-any (part_behind b'?' parse_query p1)) (λ (query, p2) v.
        Ensures-bind (Ensures-any (part_behind b'#' parse_fragment p2)) (λ (fragment, p3) w.
          Ensures-bind (Ensures-any (peek p3))
            (λ c x. Ensures-if (c == 0) (λ e. holds h) (λ e. refusal)))))

-- The host of an accepted text is empty or the text of an IPv4 address: no name, and no address in
-- brackets, is ever found to be a host.
pub uri_parse_segments-ipv4_to_bin :
    (src : List ℕ) (s : Segments) → uri_parse_segments src ≡ accepted s → HasNumbers s.host
unfolding uri_parse_segments
uri_parse_segments-ipv4_to_bin src s e =
    accepted-Ensures
      (Ensures-bind (Ensures-any (attempt (parse_scheme src))) (λ o u.
        Ensures-bind (maybe_authority-Sure (or_here src o).1)
          (λ (a, p2) h. parse_behind-Sure (or_here src o).0 a p2 h)))
      e
