-- ===== src/Inet/Ipv4Laws.antt =====
-- hlibc/inet.c: `ipv4_to_bin` and `ipv4_to_str`, one against the other.
use mathlib.Core.List.{append_assoc, append-nil}
use mathlib.Core.Path.{subst}
use hlibc.Base.{
  ℕ, zero, suc, ◌-◌, ◌<◌, ◌≡◌, refl, sym, ap, ◌∙◌, false, List, [], ◌∷◌, ◌++◌, none, some, length,
  length-append, set, done, fault, ◌>>=◌, success, arith,
}
use hlibc.Bit.Bytes.{IsBytes}
use hlibc.Inet.Ipv4.{
  octet_to_str, octets_loop, ipv4_to_str, isdigit, Octet, third_digit, second_digit, octet_to_bin,
  Reply, store, at_end, at_dot, last_round, middle_round, bin_loop, ipv4_to_bin,
}

-- One number, with what is no digit behind it.
octet_to_bin-octet_to_str :
    (val c : ℕ) (rest : List ℕ)
    → val < 256
    → isdigit c ≡ false
    → octet_to_bin (octet_to_str val ++ c ∷ rest) ≡ done (some (val, c ∷ rest))
unfolding octet_to_bin octet_to_str second_digit third_digit
octet_to_bin-octet_to_str val c rest h stop = ground arith

octet_to_bin_inv :
    (src : List ℕ) (v : ℕ) (rest : List ℕ)
    → octet_to_bin src ≡ done (some (v, rest))
    → (v < 256) × (src ≡ octet_to_str v ++ rest)
unfolding octet_to_bin octet_to_str second_digit third_digit
octet_to_bin_inv [] v rest h = ground arith
octet_to_bin_inv (a ∷ []) v rest h = ground arith
octet_to_bin_inv (a ∷ b ∷ []) v rest h = ground arith
octet_to_bin_inv (a ∷ b ∷ c ∷ src) v rest h = ground arith

-- The text of some numbers: dots between them, and the terminator.
dotted : List ℕ → List ℕ
dotted [] = []
dotted (v ∷ []) = octet_to_str v ++ 0 ∷ []
dotted (v ∷ w ∷ vs) = octet_to_str v ++ b'.' ∷ dotted (w ∷ vs)

set-append : (xs : List ℕ) (y v : ℕ) → set (xs ++ y ∷ []) (length xs) v ≡ xs ++ v ∷ []
set-append [] y v = refl
set-append (x ∷ xs) y v = ap (◌∷◌ x) (set-append xs y v)

set-append_last :
    (xs : List ℕ) (y v : ℕ) → set (xs ++ y ∷ []) (length (xs ++ y ∷ []) - 1) v ≡ xs ++ v ∷ []
set-append_last xs y v =
    let place : length (xs ++ y ∷ []) - 1 ≡ length xs = omega (arith, length-append xs (y ∷ [])) in
    ap (λ i. set (xs ++ y ∷ []) i v) place ∙ set-append xs y v

-- The four texts with a dot behind each, as one list and its last byte.
ipv4_to_str-dotted :
    (a b c d : ℕ) (rest : List ℕ) → ipv4_to_str (a ∷ b ∷ c ∷ d ∷ rest) ≡ dotted (a ∷ b ∷ c ∷ d ∷ [])
unfolding ipv4_to_str octets_loop dotted
ipv4_to_str-dotted a b c d rest =
    let A = octet_to_str a in
    let B = octet_to_str b in
    let C = octet_to_str c in
    let D = octet_to_str d in
    let front = A ++ b'.' ∷ B ++ b'.' ∷ C ++ b'.' ∷ D in
    let regroup : (v : ℕ)
        → A ++ b'.' ∷ (B ++ b'.' ∷ (C ++ b'.' ∷ (D ++ v ∷ []))) ≡ front ++ v ∷ [] =
      λ v. sym (
        append_assoc (A ++ b'.' ∷ B ++ b'.' ∷ C) (b'.' ∷ D) (v ∷ [])
        ∙ append_assoc (A ++ b'.' ∷ B) (b'.' ∷ C) (b'.' ∷ D ++ v ∷ [])
        ∙ append_assoc A (b'.' ∷ B) (b'.' ∷ C ++ (b'.' ∷ D ++ v ∷ []))) in
    ap (λ out. set out (length out - 1) 0) (regroup b'.')
    ∙ set-append_last front b'.' 0
    ∙ sym (regroup 0)

bin_loop-dotted :
    (v : ℕ) (vs rest : List ℕ)
    → IsBytes (v ∷ vs)
    → bin_loop (length vs) (dotted (v ∷ vs) ++ rest) ≡ done (success, v ∷ vs)
unfolding bin_loop dotted at_end at_dot last_round middle_round
bin_loop-dotted v [] rest h =
    rw (append_assoc (octet_to_str v) (0 ∷ []) rest, octet_to_bin-octet_to_str v 0 rest h.0 refl)
      refl
bin_loop-dotted v (w ∷ vs) rest h =
    rw
      (
        append_assoc (octet_to_str v) (b'.' ∷ dotted (w ∷ vs)) rest,
        octet_to_bin-octet_to_str v b'.' (dotted (w ∷ vs) ++ rest) h.0 refl,
        bin_loop-dotted w vs rest h.1,
      )
      refl

-- What the loop accepts is the text of the bytes that it writes.
abbrev Inverts : ℕ → List ℕ → List ℕ → Type 0
Inverts left src bin =
    IsBytes bin × (length bin ≡ suc left) × ((rest : List ℕ) × (src ≡ dotted bin ++ rest))

store_inv :
    (val : ℕ) (r : Reply) (bin : List ℕ)
    → store val r ≡ done (success, bin)
    → (vs : List ℕ) × (bin ≡ val ∷ vs) × (r ≡ done (success, vs))
store_inv val fault bin h = ground arith
store_inv val (done (status, vs)) bin h = (vs, ground arith, ground arith)

at_end_inv :
    (pos vs : List ℕ)
    → at_end pos ≡ done (success, vs)
    → (rest : List ℕ) × (vs ≡ []) × (pos ≡ 0 ∷ rest)
unfolding at_end
at_end_inv [] vs h = ground arith
at_end_inv (c ∷ pos) vs h = (pos, ground arith, ground arith)

at_dot_inv :
    (pos : List ℕ) (val : ℕ) (next : List ℕ → Reply) (bin : List ℕ)
    → at_dot pos val next ≡ done (success, bin)
    → (rest : List ℕ) × (pos ≡ b'.' ∷ rest) × (store val (next rest) ≡ done (success, bin))
unfolding at_dot
at_dot_inv [] val next bin h = ground arith
at_dot_inv (c ∷ pos) val next bin h = (pos, ground arith, ground arith)

last_round_inv :
    (src bin : List ℕ) (o : Octet)
    → octet_to_bin src ≡ o
    → o >>= last_round ≡ done (success, bin)
    → Inverts 0 src bin
unfolding last_round dotted
last_round_inv src bin fault e h = ground arith
last_round_inv src bin (done none) e h = ground arith
last_round_inv src bin (done (some (val, pos))) e h =
    let (vs, hb, he) = store_inv val (at_end pos) bin h in
    let (rest, hv, hp) = at_end_inv pos vs he in
    let (lt, hs) = octet_to_bin_inv src val pos e in
    rw (hb, hv)
      (
        (lt, tt),
        refl,
        (
          rest,
          hs ∙ ap (octet_to_str val ++◌) hp ∙ sym (append_assoc (octet_to_str val) (0 ∷ []) rest),
        ),
      )

-- A number and a dot before a text.
cons-Inverts :
    (left val : ℕ) (src pos vs : List ℕ)
    → val < 256
    → src ≡ octet_to_str val ++ b'.' ∷ pos
    → Inverts left pos vs
    → Inverts (suc left) src (val ∷ vs)
unfolding dotted
cons-Inverts left val src pos [] lt e inner = absurd (omega (arith, inner.1))
cons-Inverts left val src pos (w ∷ ws) lt e (b, n, (rest, hp)) = (
  (lt, b),
  ap suc n,
  (
    rest,
    e
        ∙ ap (λ t. octet_to_str val ++ b'.' ∷ t) hp
        ∙ sym (append_assoc (octet_to_str val) (b'.' ∷ dotted (w ∷ ws)) rest),
  ),
)

middle_round_inv :
    (left : ℕ) (src bin : List ℕ) (o : Octet)
    → ((rest vs : List ℕ) → bin_loop left rest ≡ done (success, vs) → Inverts left rest vs)
    → octet_to_bin src ≡ o
    → o >>= middle_round (bin_loop left) ≡ done (success, bin)
    → Inverts (suc left) src bin
unfolding middle_round dotted
middle_round_inv left src bin fault ih e h = ground arith
middle_round_inv left src bin (done none) ih e h = ground arith
middle_round_inv left src bin (done (some (val, pos))) ih e h =
    let (pos', hp, hn) = at_dot_inv pos val (bin_loop left) bin h in
    let (vs, hb, hv) = store_inv val (bin_loop left pos') bin hn in
    let (lt, hs) = octet_to_bin_inv src val pos e in
    rw hb (cons-Inverts left val src pos' vs lt (hs ∙ ap (octet_to_str val ++◌) hp) (ih pos' vs hv))

bin_loop_inv :
    (left : ℕ) (src bin : List ℕ) → bin_loop left src ≡ done (success, bin) → Inverts left src bin
unfolding bin_loop
bin_loop_inv zero src bin h = last_round_inv src bin (octet_to_bin src) refl h
bin_loop_inv (suc left) src bin h =
    middle_round_inv left src bin (octet_to_bin src) (bin_loop_inv left) refl h

-- The text of four bytes, put together from left to right.
pub ipv4_to_bin-octet_to_str :
    (a b c d : ℕ)
    → IsBytes (a ∷ b ∷ c ∷ d ∷ [])
    → ipv4_to_bin (
        octet_to_str a
        ++ b'.' ∷ (octet_to_str b ++ b'.' ∷ (octet_to_str c ++ b'.' ∷ (octet_to_str d ++ 0 ∷ []))))
      ≡ done (success, a ∷ b ∷ c ∷ d ∷ [])
unfolding ipv4_to_bin dotted
ipv4_to_bin-octet_to_str a b c d h =
    subst (λ t. bin_loop 3 t ≡ done (success, a ∷ b ∷ c ∷ d ∷ []))
      (append-nil (dotted (a ∷ b ∷ c ∷ d ∷ []))) (bin_loop-dotted a (b ∷ c ∷ d ∷ []) [] h)

-- `ipv4_to_bin` reads the text that `ipv4_to_str` writes for four bytes, with anything behind it, and
-- no read leaves the text.
pub ipv4_to_bin-ipv4_to_str :
    (a b c d : ℕ) (more rest : List ℕ)
    → IsBytes (a ∷ b ∷ c ∷ d ∷ [])
    → ipv4_to_bin (ipv4_to_str (a ∷ b ∷ c ∷ d ∷ more) ++ rest) ≡ done (success, a ∷ b ∷ c ∷ d ∷ [])
unfolding ipv4_to_bin
ipv4_to_bin-ipv4_to_str a b c d more rest h =
    rw (ipv4_to_str-dotted a b c d more) (bin_loop-dotted a (b ∷ c ∷ d ∷ []) rest h)

-- What `ipv4_to_bin` accepts starts with the text that `ipv4_to_str` writes for the four bytes that it
-- stored: no other text of an address is accepted.
pub ipv4_to_bin_inv :
    (src bin : List ℕ)
    → ipv4_to_bin src ≡ done (success, bin)
    → IsBytes bin × (length bin ≡ 4) × ((rest : List ℕ) × (src ≡ ipv4_to_str bin ++ rest))
unfolding ipv4_to_bin
ipv4_to_bin_inv src bin h = four bin (bin_loop_inv 3 src bin h)
  where
    four :
        (bin : List ℕ)
        → Inverts 3 src bin
        → IsBytes bin × (length bin ≡ 4) × ((rest : List ℕ) × (src ≡ ipv4_to_str bin ++ rest))
    four (a ∷ b ∷ c ∷ d ∷ []) (h, n, (rest, e)) =
        (h, n, (rest, e ∙ ap (◌++ rest) (sym (ipv4_to_str-dotted a b c d []))))
    four [] (h, n, e) = absurd (omega (arith, n))
    four (a ∷ []) (h, n, e) = absurd (omega (arith, n))
    four (a ∷ b ∷ []) (h, n, e) = absurd (omega (arith, n))
    four (a ∷ b ∷ c ∷ []) (h, n, e) = absurd (omega (arith, n))
    four (a ∷ b ∷ c ∷ d ∷ x ∷ xs) (h, n, e) = absurd (omega (arith, n))
