-- ===== src/Uri/Whole.antt =====
-- hlibc/uri.c: `uri_parse_segments` on URIs with a scheme: scheme, authority and port.
use hlibc.Base.Parsed.{accepted, refused, ◌>>=◌}
use hlibc.Base.{
  ℕ, zero, suc, ◌<◌, ◌≡◌, refl, ap, ◌∙◌, Bool, true, false, not, ◌&&◌, ◌||◌, List, [], ◌∷◌, ◌++◌,
  length, Option, none, some, get_or, All, ltb, ◌==◌, all_below, all_below_sound, done, success,
  arith,
}
use hlibc.Ctype.{hlib_isalpha}
use hlibc.Inet.Ipv4.{isdigit, ipv4_to_bin}
use hlibc.Uri.Tables.{scheme_cset, userinfo_cset}
use hlibc.Uri.Parts.{
  Test, attempt, cset_at, in_cset, isdigit_at, span, expect, parse_scheme, parse_userinfo,
  parse_ipvf, ipv4, ipv4_host, number_reply, number_host, other_host, host_or, parse_host,
  parse_port,
}
use hlibc.Uri.Segments.{part_behind}
use hlibc.Uri.Laws.{opened}
use hlibc.Uri.Accepts.{Stops, span_step, Part?, part_behind_lem, in_cset-plain, in_cset-stop}

-- The end of an authority: a slash, a question mark, a number sign or the terminator.
abbrev pub is_end : ℕ → Bool
is_end c = (c == b'/' || c == b'?') || (c == b'#' || c == 0)

abbrev pub AtEnd : List ℕ → Type 0
AtEnd [] = ⊥
AtEnd (c ∷ r) = is_end c ≡ true

-- A character that the loop with `test` takes.
abbrev pub Takes : Test → ℕ → Type 0
Takes test c = (pos : List ℕ) → test (c ∷ pos) ≡ accepted true

span-All :
    (test : Test) (t r : List ℕ) (c : ℕ)
    → All (Takes test) t
    → test (c ∷ r) ≡ accepted false
    → span test (t ++ c ∷ r) ≡ accepted (t, c ∷ r)
unfolding span
span-All test [] r c h s = rw s refl
span-All test (x ∷ t) r c (h, hs) s =
    span_step test x (t ++ c ∷ r) t (c ∷ r) (h (t ++ c ∷ r)) (span-All test t r c hs s)

-- A scheme: a letter, and characters of the set behind it.
abbrev pub IsScheme : List ℕ → Type 0
IsScheme [] = ⊥
IsScheme (c ∷ t) =
    (hlib_isalpha c ≡ true)
    × All (λ x. (ltb x 128 ≡ true) × ((get_or scheme_cset x 0 == 0) ≡ false)) (c ∷ t)

scheme_Takes :
    (t : List ℕ)
    → All (λ x. (ltb x 128 ≡ true) × ((get_or scheme_cset x 0 == 0) ≡ false)) t
    → All (Takes (cset_at scheme_cset)) t
unfolding cset_at
scheme_Takes [] h = tt
scheme_Takes (x ∷ t) ((l, k), hs) = (λ pos. rw (l, k) refl, scheme_Takes t hs)

pub parse_scheme_lem : (t r : List ℕ) → IsScheme t → parse_scheme (t ++ b':' ∷ r) ≡ accepted (t, r)
unfolding parse_scheme expect cset_at
parse_scheme_lem [] r h = absurd h
parse_scheme_lem (c ∷ t) r (a, hs) =
    rw (a, span-All (cset_at scheme_cset) (c ∷ t) r b':' (scheme_Takes (c ∷ t) hs) refl) refl

-- A port.
abbrev pub Digits : List ℕ → Type 0
Digits = All (λ c. isdigit c ≡ true)

Digits-Takes : (t : List ℕ) → Digits t → All (Takes isdigit_at) t
unfolding isdigit_at
Digits-Takes [] h = tt
Digits-Takes (c ∷ t) (h, hs) = (λ pos. rw h refl, Digits-Takes t hs)

parse_port_lem : (t r : List ℕ) → Digits t → AtEnd r → parse_port (t ++ r) ≡ accepted (t, r)
unfolding parse_port isdigit_at
parse_port_lem t [] h e = absurd e
parse_port_lem t (c ∷ r) h e =
    let no : isdigit c ≡ false = ground (arith, e) in
    span-All isdigit_at t r c (Digits-Takes t h) (ap accepted no)

-- The text of an IPv4 address.
abbrev pub IsHost : List ℕ → Type 0
IsHost host =
    (length host < 16)
    × All (λ c. (isdigit c || c == b'.') ≡ true) host
    × ((bin : List ℕ) × (ipv4_to_bin (host ++ 0 ∷ []) ≡ done (success, bin)))

ipv4_host_lem :
    (left : ℕ) (host r : List ℕ) (c : ℕ)
    → length host < left
    → All (λ c. (isdigit c || c == b'.') ≡ true) host
    → (isdigit c || c == b'.') ≡ false
    → ipv4_host left (host ++ c ∷ r) ≡ accepted (some (host, c ∷ r))
unfolding ipv4_host
ipv4_host_lem zero host r c l h s = absurd (omega arith)
ipv4_host_lem (suc left) [] r c l h s = rw s refl
ipv4_host_lem (suc left) (x ∷ host) r c l (h, hs) s =
    rw (h, ipv4_host_lem left host r c (omega arith) hs s) refl

no_ipvf : (r : List ℕ) (c : ℕ) → (c == b'[') ≡ false → parse_ipvf (c ∷ r) ≡ refused
unfolding parse_ipvf expect
no_ipvf r c s = rw s refl

no_bracket :
    (r : List ℕ) (c : ℕ)
    → (c == b'[') ≡ false
    → parse_host (c ∷ r) ≡ (ipv4_host 16 (c ∷ r) >>= number_host (c ∷ r))
unfolding parse_host host_or other_host
no_bracket r c s = ap (λ m. attempt m >>= host_or (c ∷ r)) (no_ipvf r c s) ∙ rw s refl

first_not_bracket :
    (host r : List ℕ) (c : ℕ)
    → All (λ c. (isdigit c || c == b'.') ≡ true) host
    → (c == b'[') ≡ false
    → parse_host (host ++ c ∷ r) ≡ (ipv4_host 16 (host ++ c ∷ r) >>= number_host (host ++ c ∷ r))
first_not_bracket [] r c h s = no_bracket r c s
first_not_bracket (x ∷ host) r c (h, hs) s = no_bracket (host ++ c ∷ r) x (ground (arith, h))

-- What ends a host of numbers.
abbrev After : List ℕ → Type 0
After [] = ⊥
After (c ∷ r) = ((isdigit c || c == b'.') ≡ false) × ((c == b'[') ≡ false)

pub parse_host_lem :
    (host r : List ℕ) → IsHost host → After r → parse_host (host ++ r) ≡ accepted (ipv4, host, r)
unfolding number_host number_reply
parse_host_lem host [] h a = absurd a
parse_host_lem host (c ∷ r) (l, h, (bin, e)) (s, b) =
    first_not_bracket host r c h b ∙ rw (ipv4_host_lem 16 host r c l h s, e) refl

-- What may stand behind two slashes: userinfo, a host of numbers, a port.
abbrev pub Port? : Option (List ℕ) → Type 0
Port? none = Unit
Port? (some port) = Digits port

abbrev pub IsAuthority : Option (List ℕ) → Option (List ℕ) → Option (List ℕ) → Type 0
IsAuthority userinfo none port = (userinfo ≡ none) × (port ≡ none)
IsAuthority userinfo (some host) port = Part? userinfo_cset userinfo × IsHost host × Port? port

-- The path of a URI without an authority does not begin with two slashes.
abbrev pub OneSlash : Option (List ℕ) → List ℕ → Type 0
OneSlash (some host) path = Unit
OneSlash none [] = Unit
OneSlash none (c ∷ []) = Unit
OneSlash none (c ∷ d ∷ path) = (c == b'/' && d == b'/') ≡ false

pub port_After : (port : Option (List ℕ)) (r : List ℕ) → AtEnd r → After (opened b':' port ++ r)
port_After none [] e = absurd e
port_After none (c ∷ r) e = (ground (arith, e), ground (arith, e))
port_After (some port) r e = (refl, refl)

pub port_lem :
    (port : Option (List ℕ)) (r : List ℕ)
    → Port? port
    → AtEnd r
    → part_behind b':' parse_port (opened b':' port ++ r) ≡ accepted (port, r)
port_lem port [] p e = absurd e
port_lem none (c ∷ r) p e = part_behind_lem b':' parse_port none (c ∷ r) (ground (arith, e)) tt
port_lem (some port) (c ∷ r) p e =
    part_behind_lem b':' parse_port (some port) (c ∷ r) (ground (arith, e))
      (parse_port_lem port (c ∷ r) p e)

-- A character that ends an authority is not one of the userinfo.
end_table : all_below 64 (λ c. not (is_end c) || get_or userinfo_cset c 0 == 0) ≡ true
unfolding all_below
end_table = refl

AtEnd-Stops : (r : List ℕ) → AtEnd r → Stops userinfo_cset r
AtEnd-Stops [] e = e
AtEnd-Stops (c ∷ r) e =
    let small : c < 64 = ground (arith, e) in
    let k =
      all_below_sound 64 (λ c. not (is_end c) || get_or userinfo_cset c 0 == 0) c end_table small in
    (ground (arith, e), ground (arith, e, k), ground (arith, e))

-- Without userinfo, no `@` is found behind the characters of the host and the port.
pub no_userinfo :
    (t r : List ℕ)
    → All (Takes (in_cset userinfo_cset)) t
    → AtEnd r
    → parse_userinfo (t ++ r) ≡ refused
unfolding parse_userinfo expect
no_userinfo t [] h e = absurd e
no_userinfo t (c ∷ r) h e =
    let at : (c == b'@') ≡ false = ground (arith, e) in
    let stop = in_cset-stop userinfo_cset r c (AtEnd-Stops (c ∷ r) e) in
    rw (span-All (in_cset userinfo_cset) t r c h stop, at) refl

-- The characters of a host of numbers and of a port may be those of the userinfo.
digit_table :
    all_below 64 (λ c. not (isdigit c || c == b'.') || not (get_or userinfo_cset c 0 == 0)) ≡ true
unfolding all_below
digit_table = refl

digit_Takes : (c : ℕ) → (isdigit c || c == b'.') ≡ true → Takes (in_cset userinfo_cset) c
digit_Takes c h pos =
    let small : c < 64 = ground (arith, h) in
    let k =
      all_below_sound 64 (λ c. not (isdigit c || c == b'.') || not (get_or userinfo_cset c 0 == 0))
        c digit_table small in
    in_cset-plain userinfo_cset pos c (ground (arith, h)) (ground (arith, h, k))

pub host_Takes :
    (host : List ℕ)
    → All (λ c. (isdigit c || c == b'.') ≡ true) host
    → All (Takes (in_cset userinfo_cset)) host
host_Takes [] h = tt
host_Takes (c ∷ host) (h, hs) = (digit_Takes c h, host_Takes host hs)

pub port_Takes :
    (port : Option (List ℕ)) → Port? port → All (Takes (in_cset userinfo_cset)) (opened b':' port)
port_Takes none p = tt
port_Takes (some port) p = (λ pos. in_cset-plain userinfo_cset pos b':' refl refl, digits port p)
  where
    digits : (t : List ℕ) → Digits t → All (Takes (in_cset userinfo_cset)) t
    digits [] h = tt
    digits (c ∷ t) (h, hs) = (digit_Takes c (ground (arith, h)), digits t hs)
