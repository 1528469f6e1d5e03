-- ===== src/Uri/Moves.antt =====
-- The functions of hlibc/uri.c for one part: what each takes from the front of a text.
use mathlib.Core.List.{append_assoc}
use hlibc.Base.Parsed.{
  Parsed, accepted, refused, undefined, ◌>>=◌, holds, refusal, blame, Ensures-bind,
}
use hlibc.Base.{
  ℕ, zero, suc, ◌≡◌, refl, sym, ap, ◌∙◌, Bool, true, false, not, ◌&&◌, ◌||◌, List, [], ◌∷◌, ◌++◌,
  Option, none, some, get_or, replicate, ◌==◌, Outcome, Status, success, einval, enomem, arith,
}
use hlibc.Ctype.{hlib_isalpha}
use hlibc.Inet.Ipv4.{isdigit}
use hlibc.Inet.Ipv6.{ipv6_to_bin}
use hlibc.Inet.Total.{Terminated-append, Done, is_done, ipv4_to_bin-Done}
use hlibc.Uri.Tables.{scheme_cset, userinfo_cset, name_cset, query_cset, fragment_cset, path_cset}
use hlibc.Uri.Parts.{
  Test, cset_at, in_cset, isdigit_at, span, expect, parse_scheme, parse_userinfo, parse_query,
  parse_fragment, parse_ipvf, ipv6_host, ipv4_host, Host, name_host, number_reply, number_host,
  other_host, host_or, digit_before, parse_host, parse_port, first_segment, path_start, parse_path,
}
use hlibc.Uri.Text.{
  Text, On, Moved, Passed, Ensures-if, Tried, Ensures-attempt, On-behind, Ends, isdigit_at-On,
  cset_at-On, in_cset-On, span-Moved, expect-Moved,
}

-- `t` is taken from the front of `src`, and the character `c` behind it.
abbrev pub Cut : ℕ → List ℕ → List ℕ × List ℕ → Type 0
Cut c src (t, r) = (src ≡ t ++ c ∷ r) × Passed src r

-- `while (test(pos)) pos++; if (*pos++ != c) return EINVAL`.
span-Cut :
    (test : Test) (c : ℕ) (src : List ℕ)
    → (c == 0) ≡ false
    → ((pos : List ℕ) → On pos (Ends pos) (test pos))
    → On src (Cut c src) (span test src >>= λ (t, pos). expect c pos >>= λ rest. accepted (t, rest))
span-Cut test c src z h = Ensures-bind (span-Moved test src h) (λ (t, pos) (q, n).
    Ensures-bind (On-behind src pos n (λ a p. p) (expect-Moved c pos z))
      (λ rest (e, p). holds (q ∙ ap (t ++◌) e, λ x. p (n x))))

pub parse_scheme-Cut : (src : List ℕ) → On src (Cut b':' src) (parse_scheme src)
unfolding parse_scheme
parse_scheme-Cut [] = blame (λ t. t)
parse_scheme-Cut (c ∷ src) =
    Ensures-if (not (hlib_isalpha c)) (λ h. refusal)
      (λ h.
        span-Cut (cset_at scheme_cset) b':' (c ∷ src) refl (λ pos. cset_at-On scheme_cset pos refl))

pub parse_userinfo-Cut : (src : List ℕ) → On src (Cut b'@' src) (parse_userinfo src)
unfolding parse_userinfo
parse_userinfo-Cut src =
    span-Cut (in_cset userinfo_cset) b'@' src refl (λ pos. in_cset-On userinfo_cset pos refl)

pub parse_query-Moved : (src : List ℕ) → On src (Moved src) (parse_query src)
unfolding parse_query
parse_query-Moved src = span-Moved (in_cset query_cset) src (λ pos. in_cset-On query_cset pos refl)

pub parse_fragment-Moved : (src : List ℕ) → On src (Moved src) (parse_fragment src)
unfolding parse_fragment
parse_fragment-Moved src =
    span-Moved (in_cset fragment_cset) src (λ pos. in_cset-On fragment_cset pos refl)

pub parse_port-Moved : (src : List ℕ) → On src (Moved src) (parse_port src)
unfolding parse_port
parse_port-Moved src = span-Moved isdigit_at src isdigit_at-On

-- Of what begins with a bracket, nothing is claimed.
off : {A : Type 0} (src : List ℕ) → (Text src → ⊥) → (m : Parsed A) → On src (λ a. Unit) m
off src h (accepted a) = holds tt
off src h refused = refusal
off src h undefined = blame h

bracket : (src : List ℕ) {pos : List ℕ} → src ≡ b'[' ∷ pos → Text src → ⊥
bracket [] q t = t
bracket (c ∷ src) q t = absurd (ground (arith, t.1, ap (λ l. get_or l 0 0) q))

parse_ipvf-On : (src : List ℕ) → On src (λ r. Unit) (parse_ipvf src)
unfolding parse_ipvf
parse_ipvf-On src =
    Ensures-bind (expect-Moved b'[' src refl) (λ p1 (q, n). off src (bracket src q) _)

digit_before-Moved :
    (c : ℕ) (src : List ℕ) (o : Option (List ℕ × List ℕ))
    → Passed (c ∷ src) src
    → Tried (Moved src) o
    → Tried (Moved (c ∷ src)) (digit_before c o)
digit_before-Moved c src none n p = tt
digit_before-Moved c src (some (host, rest)) n (q, m) = (ap (c ∷◌) q, λ t. m (n t))

-- The digits and dots of a host, and what is left.
ipv4_host-Moved : (left : ℕ) (src : List ℕ) → On src (Tried (Moved src)) (ipv4_host left src)
unfolding ipv4_host
ipv4_host-Moved zero src = holds tt
ipv4_host-Moved (suc left) [] = blame (λ t. t)
ipv4_host-Moved (suc left) (c ∷ src) =
    Ensures-if (isdigit c || c == b'.')
      (λ h.
        let n : Passed (c ∷ src) src = λ t. t.2 (ground (arith, h)) in
        Ensures-bind (On-behind (c ∷ src) src n (λ a p. p) (ipv4_host-Moved left src))
          (λ o p. holds (digit_before-Moved c src o n p)))
      (λ h. holds (refl, λ t. t))

abbrev pub HostMoved : List ℕ → Host → Type 0
HostMoved src (type, host, rest) = Moved src (host, rest)

name_host-Moved : (src : List ℕ) → On src (HostMoved src) (name_host src)
unfolding name_host
name_host-Moved src =
    Ensures-bind (span-Moved (in_cset name_cset) src (λ pos. in_cset-On name_cset pos refl))
      (λ moved p. holds (refl, λ t. t))

number_reply-Moved :
    (src host rest : List ℕ) {m : Outcome (Status × List ℕ)} {P : Status × List ℕ → Type 0}
    → Done P m
    → Moved src (host, rest)
    → On src (HostMoved src) (number_reply src host rest m)
unfolding number_reply
number_reply-Moved src host rest (is_done {a = (success, bin)} d) p = holds p
number_reply-Moved src host rest (is_done {a = (einval, bin)} d) p = name_host-Moved src
number_reply-Moved src host rest (is_done {a = (enomem, bin)} d) p = name_host-Moved src

number_host-Moved :
    (src : List ℕ) (o : Option (List ℕ × List ℕ))
    → Tried (Moved src) o
    → On src (HostMoved src) (number_host src o)
unfolding number_host
number_host-Moved src none p = name_host-Moved src
number_host-Moved src (some (host, rest)) p =
    number_reply-Moved src host rest (ipv4_to_bin-Done (host ++ 0 ∷ []) (Terminated-append host)) p

other_host-Moved : (src : List ℕ) → On src (HostMoved src) (other_host src)
unfolding other_host
other_host-Moved [] = blame (λ t. t)
other_host-Moved (c ∷ src) =
    Ensures-if (c == b'[')
      (λ h.
        let no : Text (c ∷ src) → ⊥ = λ t. ground (arith, h, t.1) in
        Ensures-bind (off (c ∷ src) no (ipv6_host 40 src)) (λ host u.
          Ensures-bind (off (c ∷ src) no (ipv6_to_bin host (replicate 16 0)))
            (λ bin v. holds (refl, λ t. t))))
      (λ h. Ensures-bind (ipv4_host-Moved 16 (c ∷ src)) (number_host-Moved (c ∷ src)))

host_or-Moved : (src : List ℕ) (o : Option (List ℕ)) → On src (HostMoved src) (host_or src o)
unfolding host_or
host_or-Moved src (some rest) = holds (refl, λ t. t)
host_or-Moved src none = other_host-Moved src

pub parse_host-Moved : (src : List ℕ) → On src (HostMoved src) (parse_host src)
unfolding parse_host
parse_host-Moved src =
    Ensures-bind (Ensures-attempt (parse_ipvf-On src)) (λ o p. host_or-Moved src o)

-- The loop for the first segment of a relative path.
first_segment-Moved : (src : List ℕ) → On src (Moved src) (first_segment src)
unfolding first_segment
first_segment-Moved [] = blame (λ t. t)
first_segment-Moved (c ∷ src) = Ensures-bind (in_cset-On path_cset (c ∷ src) refl) (λ b e.
    Ensures-if (b && not (c == b'/'))
      (λ h.
        Ensures-if (c == b':') (λ g. refusal)
          (λ g.
            let n : Passed (c ∷ src) src = e (ground (arith, h)) in
            Ensures-bind (On-behind (c ∷ src) src n (λ a p. p) (first_segment-Moved src))
              (λ (t, r) (q, m). holds (ap (c ∷◌) q, λ t. m (n t)))))
      (λ h. holds (refl, λ t. t)))

path_start-Moved :
    (src : List ℕ) (scheme authority : Bool) → On src (Moved src) (path_start src scheme authority)
unfolding path_start
path_start-Moved [] scheme true = blame (λ t. t)
path_start-Moved (c ∷ src) scheme true =
    Ensures-if (c == b'/') (λ h. holds (refl, λ t. t))
      (λ h.
        Ensures-bind (in_cset-On path_cset (c ∷ src) refl)
          (λ b e. Ensures-if b (λ g. refusal) (λ g. holds (refl, λ t. t))))
path_start-Moved src false false = first_segment-Moved src
path_start-Moved src true false = holds (refl, λ t. t)

pub parse_path-Moved :
    (src : List ℕ) (scheme authority : Bool) → On src (Moved src) (parse_path src scheme authority)
unfolding parse_path
parse_path-Moved src scheme authority =
    Ensures-bind (path_start-Moved src scheme authority) (λ (front, pos) (q, n).
      Ensures-bind
        (On-behind src pos n (λ a p. p)
          (span-Moved (in_cset path_cset) pos (λ pos. in_cset-On path_cset pos refl)))
        (λ (back, rest) (e, m).
          holds (q ∙ ap (front ++◌) e ∙ sym (append_assoc front back rest), λ t. m (n t))))
