-- ===== src/Uri/Laws.antt =====
-- `uri_parse_segments`: the parts that it finds, put together again.
use mathlib.Core.List.{append_assoc}
use hlibc.Base.Parsed.{
  accepted, refused, ◌>>=◌, peek, holds, refusal, blame, Ensures-bind, Ensures-map,
}
use hlibc.Base.{
  ℕ, ◌≡◌, refl, sym, ap, ◌∙◌, true, false, List, [], ◌∷◌, ◌++◌, Option, none, some, drop, ◌==◌,
  if◌then◌else◌, arith,
}
use hlibc.Uri.Parts.{Taken, parse_port, parse_query, parse_fragment}
use hlibc.Uri.Segments.{
  Segments, is_some, Part, or_here, two_slashes, part_behind, Authority, parse_authority,
  maybe_authority, parse_behind, uri_parse_segments,
}
use hlibc.Uri.Text.{On, Moved, Passed, Ensures-if, Tried, Ensures-attempt, On-behind}
use hlibc.Uri.Moves.{
  Cut, parse_scheme-Cut, parse_userinfo-Cut, parse_query-Moved, parse_fragment-Moved,
  parse_port-Moved, parse_host-Moved, parse_path-Moved,
}

-- A part with the character that ends it, and with the one that begins it.
abbrev pub closed : ℕ → Option (List ℕ) → List ℕ
closed c none = []
closed c (some text) = text ++ c ∷ []

abbrev pub opened : ℕ → Option (List ℕ) → List ℕ
opened c none = []
opened c (some text) = c ∷ text

abbrev pub authority_text : Option (List ℕ) → Option (List ℕ) → Option (List ℕ) → List ℕ
authority_text userinfo none port = []
authority_text userinfo (some host) port =
    b'/' ∷ b'/' ∷ closed b'@' userinfo ++ host ++ opened b':' port

-- The path and what comes after it.
abbrev pub behind_text : Segments → List ℕ
behind_text s = s.path ++ opened b'?' s.query ++ opened b'#' s.fragment

-- The text of the parts, as RFC 3986 puts them together.
abbrev pub recompose : Segments → List ℕ
recompose s = closed b':' s.scheme ++ authority_text s.userinfo s.host s.port ++ behind_text s

-- A part and what is left.
abbrev Split : (Option (List ℕ) → List ℕ) → List ℕ → Part → Type 0
Split text src (o, r) = (src ≡ text o ++ r) × Passed src r

or_here-Split :
    (c : ℕ) (src : List ℕ) (o : Option (List ℕ × List ℕ))
    → Tried (Cut c src) o
    → Split (closed c) src (or_here src o)
or_here-Split c src none p = (refl, λ t. t)
or_here-Split c src (some (text, rest)) (q, n) = (q ∙ sym (append_assoc text (c ∷ []) rest), n)

two_slashes-On :
    (src : List ℕ)
    → On src
        (λ b. b ≡ true → (src ≡ b'/' ∷ b'/' ∷ drop 2 src) × Passed src (drop 2 src))
        (two_slashes src)
unfolding two_slashes
two_slashes-On [] = blame (λ t. t)
two_slashes-On (c ∷ []) =
    Ensures-if (c == b'/') (λ h. blame (λ t. t.2 (ground (arith, h))))
      (λ h. holds (λ e. absurd (ground (arith, e))))
two_slashes-On (c ∷ d ∷ src) =
    Ensures-if (c == b'/')
      (λ h. holds (λ e.
        let first : c ≡ b'/' = ground (arith, h) in
        let second : d ≡ b'/' = ground (arith, e) in
        (
          ap (◌∷ (d ∷ src)) first ∙ ap (λ x. b'/' ∷ x ∷ src) second,
          λ t. (t.2 (ground (arith, h))).2 (ground (arith, e)),
        )))
      (λ h. holds (λ e. absurd (ground (arith, e))))

part_behind-Split :
    (c : ℕ) (parse : List ℕ → Taken) (src : List ℕ)
    → (c == 0) ≡ false
    → ((pos : List ℕ) → On pos (Moved pos) (parse pos))
    → On src (Split (opened c) src) (part_behind c parse src)
unfolding part_behind
part_behind-Split c parse [] z h = blame (λ t. t)
part_behind-Split c parse (x ∷ src) z h =
    Ensures-if (x == c)
      (λ e.
        let n : Passed (x ∷ src) src = λ t. t.2 (ground (arith, e, z)) in
        let same : x ≡ c = ground (arith, e) in
        Ensures-bind (On-behind (x ∷ src) src n (λ a p. p) (h src))
          (λ (text, rest) (q, m). holds (ap (◌∷ src) same ∙ ap (c ∷◌) q, λ t. m (n t))))
      (λ e. holds (refl, λ t. t))

abbrev AuthoritySplit : List ℕ → Authority × List ℕ → Type 0
AuthoritySplit src (a, r) = (src ≡ authority_text a.userinfo a.host a.port ++ r) × Passed src r

-- Three pieces, one after the other.
pub three :
    {src p q : List ℕ} (a b c r : List ℕ)
    → src ≡ a ++ p
    → p ≡ b ++ q
    → q ≡ c ++ r
    → src ≡ a ++ b ++ c ++ r
three a b c r x y z =
    x
    ∙ ap (a ++◌) (y ∙ ap (b ++◌) z)
    ∙ sym (append_assoc a b (c ++ r))
    ∙ sym (append_assoc (a ++ b) c r)

-- Behind the two slashes.
parse_authority-On :
    (src : List ℕ)
    → On src
        (λ (a, r).
          (b'/' ∷ b'/' ∷ src ≡ authority_text a.userinfo a.host a.port ++ r) × Passed src r)
        (parse_authority src)
unfolding parse_authority
parse_authority-On src = Ensures-bind (Ensures-attempt (parse_userinfo-Cut src)) (λ o p.
    let p1 = (or_here src o).1 in
    let user = or_here-Split b'@' src o p in
    Ensures-bind (On-behind src p1 user.1 (λ a p. p) (parse_host-Moved p1))
      (λ (type, host, p2) (q2, n2).
        Ensures-bind
          (On-behind src p2 (λ t. n2 (user.1 t)) (λ a p. p)
            (part_behind-Split b':' parse_port p2 refl parse_port-Moved))
          (λ (port, p3) (q3, n3).
            holds
              (ap (λ t. b'/' ∷ b'/' ∷ t) (three _ _ _ _ user.0 q2 q3), λ t. n3 (n2 (user.1 t))))))

maybe_authority-On : (src : List ℕ) → On src (AuthoritySplit src) (maybe_authority src)
unfolding maybe_authority
maybe_authority-On src = Ensures-bind (two_slashes-On src) (λ b e.
    Ensures-if b
      (λ h.
        Ensures-map (λ f t. f ((e h).1 t)) (λ (a, r) (q, n). ((e h).0 ∙ q, λ t. n ((e h).1 t)))
          (parse_authority-On (drop 2 src)))
      (λ h. holds (refl, λ t. t)))

-- What is put together of the path, the query and the fragment, and the terminator behind it.
BehindSplit : Option (List ℕ) → Authority → List ℕ → Segments → Type 0
BehindSplit scheme a src s =
    ((rest : List ℕ) × (src ≡ behind_text s ++ 0 ∷ rest))
    × (recompose s ≡ closed b':' scheme ++ authority_text a.userinfo a.host a.port ++ behind_text s)

end-On :
    {A : Type 0} {P : A → Type 0} (src : List ℕ) (a : A)
    → ((rest : List ℕ) → src ≡ 0 ∷ rest → P a)
    → On src P (peek src >>= λ c. if c == 0 then accepted a else refused)
end-On [] a h = blame (λ t. t)
end-On (c ∷ src) a h =
    Ensures-if (c == 0)
      (λ e. let same : c ≡ 0 = ground (arith, e) in holds (h src (ap (◌∷ src) same))) (λ e. refusal)

parse_behind-On :
    (scheme : Option (List ℕ)) (a : Authority) (src : List ℕ)
    → On src (BehindSplit scheme a src) (parse_behind scheme a src)
unfolding parse_behind BehindSplit
parse_behind-On scheme a src =
    Ensures-bind (parse_path-Moved src (is_some scheme) (is_some a.host)) (λ (path, p1) (q1, n1).
      Ensures-bind
        (On-behind src p1 n1 (λ a p. p)
          (part_behind-Split b'?' parse_query p1 refl parse_query-Moved))
        (λ (query, p2) (q2, n2).
          Ensures-bind
            (On-behind src p2 (λ t. n2 (n1 t)) (λ a p. p)
              (part_behind-Split b'#' parse_fragment p2 refl parse_fragment-Moved))
            (λ (fragment, p3) (q3, n3).
              On-behind src p3 (λ t. n3 (n2 (n1 t))) (λ a p. p)
                (end-On p3 _ (λ rest e.
                  ((rest, three _ _ _ _ q1 q2 (q3 ∙ ap (opened b'#' fragment ++◌) e)), refl))))))

pub uri_parse_segments-On :
    (src : List ℕ)
    → On src (λ s. (rest : List ℕ) × (src ≡ recompose s ++ 0 ∷ rest)) (uri_parse_segments src)
unfolding uri_parse_segments BehindSplit
uri_parse_segments-On src = Ensures-bind (Ensures-attempt (parse_scheme-Cut src)) (λ o p.
    let p1 = (or_here src o).1 in
    let cut = or_here-Split b':' src o p in
    Ensures-bind (On-behind src p1 cut.1 (λ a p. p) (maybe_authority-On p1)) (λ (a, p2) (q2, n2).
      On-behind src p2 (λ t. n2 (cut.1 t))
        (λ s ((rest, q3), same). (rest, three _ _ _ _ cut.0 q2 q3 ∙ sym (ap (◌++ (0 ∷ rest)) same)))
        (parse_behind-On (or_here src o).0 a p2)))
